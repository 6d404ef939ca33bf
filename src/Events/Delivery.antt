-- ===== src/Events/Delivery.antt =====
-- Which events a subscriber finds in its channel.
use mathlib.Core.List.{append_assoc, append-nil}
use vcs_srs_server.Events.{
  Channel, Event, EventBus, buffer_size, dispatch, offer, offer_at, publisher_turn, publisher_turns,
}
use vcs_srs_server.Base.{
  ℕ, zero, suc, ◌≤◌, String, ◌≡◌, refl, sym, ap, ◌∙◌, ◌≢◌, inl, inr, Bool, true, false, Option,
  none, some, List, [], ◌∷◌, ◌++◌, map, arith, eq_iff, if◌then◌else◌, ◌==◌, nat_eq, string_eq,
  Option-cases, length, take, length-append, length-take, All, Map, lookup, map_laws,
}

-- The events of a name, in order.
unfoldable pub named : String → List Event → List Event
named n [] = []
named n (e ∷ es) = let rest = named n es in if e.name == n then e ∷ rest else rest

-- What a channel holds after events were offered that nobody took out: those that fit.
abbrev pub filled : List Event → Channel → Channel
filled es ch = take buffer_size (ch ++ es)

abbrev pub filled_all : List Event → Option (List Channel) → Option (List Channel)
filled_all es none = none
filled_all es (some chs) = some (map (filled es) chs)

-- No channel of the name holds more than its buffer.
abbrev pub Fits : Option (List Channel) → Type 0
Fits none = Unit {0}
Fits (some chs) = All (λ ch. length ch ≤ buffer_size) chs

take_all {ℓ} : {A : Type ℓ} (n : ℕ) (xs : List A) → length xs ≤ n → take n xs ≡ xs
take_all zero [] h = refl
take_all zero (x ∷ xs) h = absurd (omega arith)
take_all (suc n) [] h = refl
take_all (suc n) (x ∷ xs) h = ap (λ t. x ∷ t) (take_all n xs (omega arith))

take-take_append {ℓ} :
    {A : Type ℓ} (n : ℕ) (xs ys : List A) → take n (take n xs ++ ys) ≡ take n (xs ++ ys)
take-take_append zero xs ys = refl
take-take_append (suc n) [] ys = refl
take-take_append (suc n) (x ∷ xs) ys = ap (λ t. x ∷ t) (take-take_append n xs ys)

take-append_full {ℓ} :
    {A : Type ℓ} (n : ℕ) (xs ys : List A) → n ≤ length xs → take n (xs ++ ys) ≡ take n xs
take-append_full zero xs ys h = refl
take-append_full (suc n) [] ys h = absurd (omega arith)
take-append_full (suc n) (x ∷ xs) ys h = ap (λ t. x ∷ t) (take-append_full n xs ys (omega arith))

offer-filled :
    (e : Event) (ch : Channel) → length ch ≤ buffer_size → offer e ch ≡ filled (e ∷ []) ch
unfolding offer
offer-filled e ch h = ground (
  arith,
  take_all buffer_size (ch ++ e ∷ []),
  take_all buffer_size ch h,
  length-append ch (e ∷ []),
  take-append_full buffer_size ch (e ∷ []),
)

map-offer :
    (e : Event) (chs : List Channel)
    → All (λ ch. length ch ≤ buffer_size) chs
    → map (offer e) chs ≡ map (filled (e ∷ [])) chs
map-offer e [] h = refl
map-offer e (ch ∷ chs) (h, hs) = cc (offer-filled e ch h, map-offer e chs hs)

map-filled :
    (e : Event) (es : List Event) (chs : List Channel)
    → map (filled es) (map (filled (e ∷ [])) chs) ≡ map (filled (e ∷ es)) chs
map-filled e es [] = refl
map-filled e es (ch ∷ chs) = cc (
  take-take_append buffer_size (ch ++ e ∷ []) es,
  ap (take buffer_size) (append_assoc ch (e ∷ []) es),
  map-filled e es chs,
)

map-filled_nil :
    (chs : List Channel) → All (λ ch. length ch ≤ buffer_size) chs → map (filled []) chs ≡ chs
map-filled_nil [] h = refl
map-filled_nil (ch ∷ chs) (h, hs) =
    cc (ap (take buffer_size) (append-nil ch), take_all buffer_size ch h, map-filled_nil chs hs)

Fits-filled :
    (es : List Event) (chs : List Channel)
    → All (λ ch. length ch ≤ buffer_size) (map (filled es) chs)
Fits-filled es [] = tt
Fits-filled es (ch ∷ chs) = (omega (arith, length-take buffer_size (ch ++ es)), Fits-filled es chs)

abbrev offered : Event → Option (List Channel) → Option (List Channel)
offered e none = none
offered e (some chs) = some (map (offer e) chs)

pub lookup-offer_at :
    (name n : String) (e : Event) (subs : Map String (List Channel))
    → lookup n (offer_at name e subs)
      ≡ (if name == n then offered e (lookup n subs) else lookup n subs)
unfolding offer_at
lookup-offer_at name n e subs = elim (Option-cases (lookup name subs)) [
  | inl h ↦ ground (arith, eq_iff name n)
  | inr (chs, h) ↦ grind map_laws
]

pub lookup-dispatch :
    (n : String) (e : Event) (b : EventBus)
    → n ≢ "*"
    → lookup n (dispatch e b).subscribers
      ≡ (if e.name == n then offered e (lookup n b.subscribers) else lookup n b.subscribers)
unfolding dispatch
lookup-dispatch n e b plain = ground (
  arith,
  eq_iff "*" n,
  lookup-offer_at "*" n e (offer_at e.name e b.subscribers),
  lookup-offer_at e.name n e b.subscribers,
)

filled_all_nil : (o : Option (List Channel)) → Fits o → filled_all [] o ≡ o
filled_all_nil none h = refl
filled_all_nil (some chs) h = ap some (map-filled_nil chs h)

-- One event more, offered first or filled in with the rest.
filled_all-offered :
    (b : Bool) (e : Event) (es : List Event) (o : Option (List Channel))
    → Fits o
    → (filled_all es (if b then offered e o else o) ≡ filled_all (if b then e ∷ es else es) o)
      × Fits (if b then offered e o else o)
filled_all-offered b e es none h = ground arith
filled_all-offered false e es (some chs) h = (refl, h)
filled_all-offered true e es (some chs) h =
    let step = map-offer e chs h in
    (ap some (ap (map (filled es)) step ∙ map-filled e es chs), rw step (Fits-filled (e ∷ []) chs))

queue-dispatch : (e : Event) (b : EventBus) → (dispatch e b).publish_queue ≡ b.publish_queue
unfolding dispatch
queue-dispatch e b = refl

-- Once the publisher has emptied its queue, and while nobody takes events out, each channel of a
-- name other than "*" holds what it held before and then the queued events of that name in order,
-- as far as they fit its buffer of ten.
pub publisher_turns_lem :
    (n : String) (es : List Event) (b : EventBus)
    → n ≢ "*"
    → b.publish_queue ≡ es
    → Fits (lookup n b.subscribers)
    → ((publisher_turns (length es) b).publish_queue ≡ [])
      × (lookup n (publisher_turns (length es) b).subscribers
          ≡ filled_all (named n es) (lookup n b.subscribers))
unfolding publisher_turns publisher_turn named
publisher_turns_lem n [] b plain q fits = (q, sym (filled_all_nil _ fits))
publisher_turns_lem n (e ∷ es) b plain q fits =
    let left : EventBus = record b { publish_queue = es } in
    let (same, fit) =
      filled_all-offered (e.name == n) e (named n es) (lookup n b.subscribers) fits in
    let (empty, held) =
      publisher_turns_lem n es (dispatch e left) plain (queue-dispatch e left)
        (rw (lookup-dispatch n e left plain) fit) in
    rw q (empty, held ∙ ap (filled_all (named n es)) (lookup-dispatch n e left plain) ∙ same)
