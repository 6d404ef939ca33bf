-- ===== src/App/Window/Laws.antt =====
-- Which events the window is given, and how often.
use vcs_srs_server.Events.{
  Channel, Event, EventBus, dispatch, notification_event, offer, offer_at, publisher_turn,
}
use vcs_srs_server.Events.Delivery.{lookup-dispatch, lookup-offer_at}
use vcs_srs_server.App.Window.{
  handle_frontend_emits, handle_notification_event, is_notification, taken, window_turn,
  window_turns,
}
use vcs_srs_server.Base.{
  String, ◌≡◌, refl, ap, ◌≢◌, Bool, true, false, ◌&&◌, some, List, [], ◌∷◌, ◌++◌, arith, eq_iff,
  if◌then◌else◌, ◌==◌, nat_eq, string_eq, length, All, lookup, insert, map_laws,
}

-- The channels of the two loops: that of the notifications is empty, and so is that of all events
-- where its loop runs.
abbrev IsEmptied : Bool → Channel → Type 0
IsEmptied true ch = ch ≡ []
IsEmptied false ch = Unit {0}

pub record IsListened (found_window : Bool) (b : EventBus) : Type 0 where
  pub notifications : lookup notification_event b.subscribers ≡ some ([] ∷ [])
  pub of_all : Channel
  pub all : lookup "*" b.subscribers ≡ some (of_all ∷ [])
  pub emptied : IsEmptied found_window of_all

-- What an event gives: once by the loop of all events, if it runs, and once more by that of the
-- notifications, if there is a window.
abbrev pub given_by : Bool → Bool → Event → List Event
given_by found_window has_window e =
    (if found_window then e ∷ [] else [])
    ++ (if e.name == notification_event && (is_notification e.payload && has_window)
        then e ∷ []
        else [])

abbrev pub given_by_all : Bool → Bool → List Event → List Event
given_by_all found_window has_window [] = []
given_by_all found_window has_window (e ∷ es) =
    given_by found_window has_window e ++ given_by_all found_window has_window es

-- What the loop of the notifications finds in its channel.
abbrev arrived : Event → Channel
arrived e = if e.name == notification_event then e ∷ [] else []

is_plain_notification : notification_event ≢ "*"
is_plain_notification e = absurd (ground (arith, (eq_iff notification_event "*").1 e))

notifications_arrive :
    (e : Event) (b : EventBus)
    → lookup notification_event b.subscribers ≡ some ([] ∷ [])
    → lookup notification_event (dispatch e b).subscribers ≡ some (arrived e ∷ [])
unfolding offer
notifications_arrive e b l =
    ground (arith, lookup-dispatch notification_event e b is_plain_notification)

all_arrive :
    (e : Event) (b : EventBus) (ch : Channel)
    → e.name ≢ "*"
    → lookup "*" b.subscribers ≡ some (ch ∷ [])
    → lookup "*" (dispatch e b).subscribers ≡ some (offer e ch ∷ [])
unfolding dispatch
all_arrive e b ch plain l = ground (
  arith,
  eq_iff e.name "*",
  lookup-offer_at "*" "*" e (offer_at e.name e b.subscribers),
  lookup-offer_at e.name "*" e b.subscribers,
)

abbrev emptied_at : String → EventBus → EventBus
emptied_at name b = record b { subscribers = insert name ([] ∷ []) b.subscribers }

taken_lem :
    (name : String) (b : EventBus) (ch : Channel)
    → lookup name b.subscribers ≡ some (ch ∷ [])
    → taken name b ≡ (ch, emptied_at name b)
unfolding taken
taken_lem name b ch l = ground arith

-- The loop of the notifications, on an event that has been dispatched.
notifications_lem :
    (has_window : Bool) (e : Event) (c : EventBus)
    → lookup notification_event c.subscribers ≡ some (arrived e ∷ [])
    → let (notifications, d) = taken notification_event c in
      (handle_notification_event has_window notifications ≡ (
        if e.name == notification_event && (is_notification e.payload && has_window)
        then e ∷ []
        else []))
      × (d ≡ emptied_at notification_event c)
unfolding handle_notification_event
notifications_lem has_window e c l = ground (arith, taken_lem notification_event c (arrived e) l)

publisher_turn_lem :
    (e : Event) (es : List Event) (b : EventBus)
    → b.publish_queue ≡ e ∷ es
    → publisher_turn b ≡ dispatch e (record b { publish_queue = es })
unfolding publisher_turn
publisher_turn_lem e es b q = rw q refl

-- The bus after both loops have run.
abbrev after_turn : Bool → Event → List Event → EventBus → EventBus
after_turn true e es b =
    emptied_at notification_event (emptied_at "*" (dispatch e (record b { publish_queue = es })))
after_turn false e es b =
    emptied_at notification_event (dispatch e (record b { publish_queue = es }))

after_turn-IsListened :
    (found_window : Bool) (e : Event) (es : List Event) (b : EventBus)
    → e.name ≢ "*"
    → IsListened found_window b
    → IsListened found_window (after_turn found_window e es b)
after_turn-IsListened true e es b plain l =
    let c = dispatch e (record b { publish_queue = es }) in
    let subs = insert "*" ([] ∷ []) c.subscribers in
    record { notifications = grind map_laws; of_all = []; all = grind map_laws; emptied = refl }
after_turn-IsListened false e es b plain l =
    let c = dispatch e (record b { publish_queue = es }) in
    record {
      notifications = grind map_laws;
      of_all = offer e l.of_all;
      all = grind (map_laws, all_arrive e (record b { publish_queue = es }) l.of_all plain l.all);
      emptied = tt;
    }

offer_first : (e : Event) (ch : Channel) → ch ≡ [] → offer e ch ≡ e ∷ []
unfolding offer
offer_first e ch empty = rw empty refl

window_turn_lem :
    (found_window has_window : Bool) (e : Event) (es : List Event) (b : EventBus)
    → e.name ≢ "*"
    → b.publish_queue ≡ e ∷ es
    → IsListened found_window b
    → window_turn found_window has_window b
      ≡ (given_by found_window has_window e, after_turn found_window e es b)
unfolding window_turn handle_frontend_emits
window_turn_lem true has_window e es b plain q l =
    let left : EventBus = record b { publish_queue = es } in
    let c = dispatch e left in
    let turned = publisher_turn_lem e es b q in
    let front = taken_lem "*" c (offer e l.of_all) (all_arrive e left l.of_all plain l.all) in
    let first = offer_first e l.of_all l.emptied in
    let there = notifications_arrive e left l.notifications in
    let back = notifications_lem has_window e (emptied_at "*" c) (grind map_laws) in ground arith
window_turn_lem false has_window e es b plain q l =
    let left : EventBus = record b { publish_queue = es } in
    let turned = publisher_turn_lem e es b q in
    let back =
      notifications_lem has_window e (dispatch e left)
        (notifications_arrive e left l.notifications) in
    ground arith

queue-after_turn :
    (found_window : Bool) (e : Event) (es : List Event) (b : EventBus)
    → (after_turn found_window e es b).publish_queue ≡ es
unfolding dispatch
queue-after_turn true e es b = refl
queue-after_turn false e es b = refl

-- Where both loops keep up with the publisher and no event is named "*", the window is given the
-- queued events in order: each of them once if the loop of all events found a window when it began,
-- and each notification once more by the loop of notifications if there is a window by now. So with a
-- window from the beginning every notification is given twice, and without one at the beginning
-- nothing but the notifications is ever given.
pub window_turns_lem :
    (found_window has_window : Bool) (es : List Event) (b : EventBus)
    → b.publish_queue ≡ es
    → All (λ e. e.name ≢ "*") es
    → IsListened found_window b
    → window_turns (length es) found_window has_window b ≡ given_by_all found_window has_window es
unfolding window_turns
window_turns_lem found_window has_window [] b q plain l = refl
window_turns_lem found_window has_window (e ∷ es) b q (p, plain) l =
    let rest =
      window_turns_lem found_window has_window es (after_turn found_window e es b)
        (queue-after_turn found_window e es b) plain
        (after_turn-IsListened found_window e es b p l) in
    rw (window_turn_lem found_window has_window e es b p q l)
      (ap (λ t. given_by found_window has_window e ++ t) rest)
