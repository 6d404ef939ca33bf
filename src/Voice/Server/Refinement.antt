-- ===== src/Voice/Server/Refinement.antt =====
-- The abstract view of the voice server: each client has a session of its own, and neither the order
-- of the map nor the sessions of others matter to it.
use mathlib.Core.Path.{fun_ext}
use mathlib.Core.Path.{fun_ext}
use mathlib.Core.Path.{fun_ext}
use vcs_srs_server.Voice.Server.{
  Client, Server, cleanup, disconnect_client, dispatch, handle_goodbye_packet, handle_hello_packet,
  handle_keepalive_packet, handle_packet, handle_voice_packet, is_stale,
}
use vcs_srs_server.Voice.Server.Handlers.{lookup-dispatch, sender_entry}
use vcs_srs_server.Voice.Server.Sessions.{Event, received, run, step, step-IsUnique, ticked}
use vcs_srs_server.Voice.Protocol.{Parsed, UuidBytes, err, ok, parse_packet}
use vcs_srs_server.Voice.Protocol.RoundTrip.{Parsed-cases}
use vcs_srs_server.State.Server.{ServerState}
use vcs_srs_server.Base.{
  ◌+◌, String, ◌≡◌, refl, ap, ◌∙◌, inl, inr, Bool, not, Option, none, some, List, [], ◌∷◌, arith,
  Uuid, Time, minute, ltb, if◌then◌else◌, ◌==◌, nat_eq, string_eq, lookup, IsUnique, lookup-retain,
}

-- What a client is to the server, if anything.
abbrev pub Session : Type 0
Session = Option Client

-- A sweep ends a session in which nothing came for more than a minute.
abbrev pub swept : Time → Session → Session
swept now none = none
swept now (some c) = if ltb (c.last_seen + minute) now then none else some c

abbrev pub Sessions : Type 0
Sessions = Uuid → Session

-- All sessions of a server.
abbrev pub view : Server → Sessions
view v i = lookup i v.clients

module _ (u : UuidBytes) where
  -- What a packet that parsed does to the session of a client: only its own packets count.
  abbrev pub packet_arrives : Time → String → ServerState → Uuid → Session → Parsed → Session
  packet_arrives now addr s i c (ok p) = if p.sender_id == i then sender_entry p addr now s c else c
  packet_arrives now addr s i c (err _) = c

  -- An event in the session of the client `i`, on a server that runs or not.
  unfoldable pub session_step : Bool → Uuid → Session → Time × Event → Session
  session_step on i c (now, ticked) = swept now c
  session_step on i c (now, received bytes addr s settings) =
      if on then packet_arrives now addr s i c (parse_packet u bytes) else c

  unfoldable pub session_run : Bool → Uuid → Session → List (Time × Event) → Session
  session_run on i c [] = c
  session_run on i c (e ∷ es) = session_run on i (session_step on i c e) es

  step-running : (v : Server) (e : Time × Event) → (step u v e).running ≡ v.running
  unfolding step handle_packet dispatch cleanup handle_hello_packet handle_voice_packet
      handle_goodbye_packet handle_keepalive_packet disconnect_client
  step-running v (now, received bytes addr s settings) = ground arith
  step-running v (now, ticked) = refl

  view-step :
      (v : Server) (e : Time × Event) (i : Uuid)
      → IsUnique v.clients
      → view (step u v e) i ≡ session_step v.running i (view v i) e
  unfolding step handle_packet session_step cleanup is_stale
  view-step v (now, received bytes addr s settings) i unique =
      elim (Parsed-cases (parse_packet u bytes)) [
        | inl (p, e) ↦ ground (arith, lookup-dispatch u p addr now s settings v i)
        | inr (x, e) ↦ ground arith
      ]
  view-step v (now, ticked) i unique =
      ground (arith, lookup-retain (λ _ client. not (is_stale now client)) i v.clients unique)

  view-run :
      (v : Server) (es : List (Time × Event)) (i : Uuid)
      → IsUnique v.clients
      → view (run u v es) i ≡ session_run v.running i (view v i) es
  unfolding run session_run
  view-run v [] i unique = refl
  view-run v (e ∷ es) i unique =
      let same = step-running v e in
      let first = view-step v e i unique in
      let rest = view-run (step u v e) es i (step-IsUnique u v e unique) in
      rest
      ∙ ap (λ c. session_run (step u v e).running i c es) first
      ∙ ap (λ on. session_run on i (session_step v.running i (view v i) e) es) same

  -- The voice server refines independent sessions: whatever datagrams and sweeps come, in whatever
  -- order, each client ends with the session that its own packets and the sweeps alone make of the one
  -- that it had.
  pub run_refines_sessions :
      (v : Server) (es : List (Time × Event))
      → IsUnique v.clients
      → ◌≡◌ {A = Sessions} (view (run u v es)) (λ i. session_run v.running i (view v i) es)
  run_refines_sessions v es unique = fun_ext (λ i. view-run v es i unique)
