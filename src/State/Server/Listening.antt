-- ===== src/State/Server/Listening.antt =====
-- Who hears whom.
use vcs_srs_server.Float32.{Float32}
use vcs_srs_server.State.Server.{
  ClientState, RadioState, ServerState, is_listening_on_frequency, tuned_in,
}
use vcs_srs_server.Base.{
  ◌≡◌, ◌↔◌, inl, inr, Bool, true, false, some, arith, eq_iff, Uuid, nat_eq, string_eq, Option-cases,
  lookup,
}

-- What a client needs to hear a sender on a frequency.
abbrev pub Hears : Uuid → Uuid → Float32 → ServerState → Type 0
Hears c sender f s =
    (x : ClientState) × (r : RadioState) × (lookup sender s.clients ≡ some x)
    × (lookup c s.radio_clients ≡ some r)
    × (tuned_in r.radios f ≡ true)

Hears-of_listening :
    (c sender : Uuid) (f : Float32) (global : Bool) (s : ServerState)
    → is_listening_on_frequency c sender f global s ≡ true
    → Hears c sender f s
unfolding is_listening_on_frequency
Hears-of_listening c sender f global s h = elim (Option-cases (lookup sender s.clients)) [
  | inl p ↦ absurd (ground arith)
  | inr (x, p) ↦ elim (Option-cases (lookup c s.radio_clients)) [
    | inl q ↦ absurd (ground arith)
    | inr (r, q) ↦ (x, r, p, q, ground arith)
  ]
]

-- A client hears a sender exactly when the sender is known, the client has radios, and its first
-- radio on the frequency is on. Whether the frequency is global and which coalitions the two
-- belong to makes no difference.
pub is_listening_iff :
    (c sender : Uuid) (f : Float32) (global : Bool) (s : ServerState)
    → (is_listening_on_frequency c sender f global s ≡ true) ↔ Hears c sender f s
unfolding is_listening_on_frequency
is_listening_iff c sender f global s = (
  Hears-of_listening c sender f global s,
  λ (x, r, p, q, t). ground (arith, eq_iff x.coalition x.coalition),
)

-- The test on coalitions never refuses anybody: a frequency that is not global is heard across
-- coalitions just as a global one.
pub is_listening-coalition_blind :
    (c sender : Uuid) (f : Float32) (s : ServerState)
    → is_listening_on_frequency c sender f false s ≡ is_listening_on_frequency c sender f true s
unfolding is_listening_on_frequency
is_listening-coalition_blind c sender f s = elim (Option-cases (lookup sender s.clients)) [
  | inl e ↦ ground arith
  | inr (x, e) ↦ ground (arith, eq_iff x.coalition x.coalition)
]
