-- ===== src/Voice/Server/Sessions.antt =====
-- How long a voice client stays registered.
use native.Mathlib.Decide.{ℕ_discrete}
use vcs_srs_server.State.Server.{ServerState}
use vcs_srs_server.State.Settings.{SettingsState}
use vcs_srs_server.Voice.Protocol.{UuidBytes, VcsPacket, ok, parse_packet}
use vcs_srs_server.Voice.Protocol.RoundTrip.{Parsed-cases}
use vcs_srs_server.Voice.Protocol.PacketType
use vcs_srs_server.Voice.Server.{
  Client, Server, cleanup, disconnect_client, dispatch, handle_goodbye_packet, handle_hello_packet,
  handle_keepalive_packet, handle_packet, handle_voice_packet, is_stale,
}
use vcs_srs_server.Voice.Server.Handlers.{lookup-dispatch, sender_entry}
use vcs_srs_server.Base.{
  ℕ, ◌+◌, ◌≤◌, String, ◌≡◌, ◌≢◌, ◌↔◌, inl, inr, not, some, List, [], ◌∷◌, arith, Uuid, Time, minute,
  nat_eq, string_eq, Bool-cases, Option-cases, All, lookup, IsUnique, insert-IsUnique,
  delete-IsUnique, lookup-retain, retain-IsUnique,
}

-- A sweep keeps exactly the clients that were seen within the last minute, as they are.
pub lookup-cleanup :
    (now : Time) (v : Server) (i : Uuid) (c : Client)
    → IsUnique v.clients
    → (lookup i (cleanup now v).clients ≡ some c)
      ↔ ((lookup i v.clients ≡ some c) × (now ≤ c.last_seen + minute))
unfolding cleanup is_stale
lookup-cleanup now v i c unique =
    let kept = lookup-retain (λ _ client. not (is_stale now client)) i v.clients unique in
    (λ h. ground (arith, kept, Option-cases (lookup i v.clients)), λ h. ground (arith, kept))

-- What reaches the server: a datagram, or the tick of the cleanup routine.
pub data Event : Type 0 where
  received : List ℕ → String → ServerState → SettingsState → Event
  ticked : Event

module _ (u : UuidBytes) where
  unfoldable pub step : Server → Time × Event → Server
  step v (now, received bytes addr s settings) = (handle_packet u bytes addr now s settings v).0
  step v (now, ticked) = cleanup now v

  unfoldable pub run : Server → List (Time × Event) → Server
  run v [] = v
  run v (e ∷ es) = run (step v e) es

  dispatch-IsUnique :
      (p : VcsPacket) (addr : String) (now : Time) (s : ServerState) (settings : SettingsState)
      (v : Server)
      → IsUnique v.clients
      → IsUnique (dispatch u p addr now s settings v).0.clients
  unfolding dispatch handle_hello_packet handle_voice_packet handle_goodbye_packet
      handle_keepalive_packet disconnect_client
  dispatch-IsUnique p addr now s settings v h =
      let put = λ (c : Client). insert-IsUnique p.sender_id c v.clients h in
      elim (Option-cases (lookup p.sender_id v.clients)) [
        | inl e ↦ ground (arith, put (record { addr = addr; last_seen = now }))
        | inr (c, e) ↦ ground (
          arith,
          put (record { addr = addr; last_seen = now }),
          put (record c { last_seen = now }),
          delete-IsUnique p.sender_id v.clients h,
        )
      ]

  pub step-IsUnique :
      (v : Server) (e : Time × Event) → IsUnique v.clients → IsUnique (step v e).clients
  unfolding step handle_packet cleanup
  step-IsUnique v (now, received bytes addr s settings) h =
      elim (Parsed-cases (parse_packet u bytes)) [
        | inl (p, e) ↦ ground (arith, dispatch-IsUnique p addr now s settings v h)
        | inr (x, e) ↦ ground arith
      ]
  step-IsUnique v (now, ticked) h = retain-IsUnique _ v.clients h

  -- After any sequence of datagrams and sweeps each client is registered once.
  pub run-IsUnique :
      (v : Server) (es : List (Time × Event)) → IsUnique v.clients → IsUnique (run v es).clients
  unfolding run
  run-IsUnique v [] h = h
  run-IsUnique v (e ∷ es) h = run-IsUnique (step v e) es (step-IsUnique v e h)

  -- The datagram is no goodbye of the client.
  abbrev pub NotGoodbye : Uuid → Event → Type 0
  NotGoodbye i ticked = Unit {0}
  NotGoodbye i (received bytes addr s settings) =
      (p : VcsPacket) → parse_packet u bytes ≡ ok p → p.sender_id ≡ i → p.type ≢ PacketType.bye

  -- An event within the minute after `seen`, and no goodbye of the client.
  abbrev pub IsHarmless : Uuid → Time → Time × Event → Type 0
  IsHarmless i seen (now, e) = (seen ≤ now) × (now ≤ seen + minute) × NotGoodbye i e

  -- A client of which the server has heard at `seen` or later is registered.
  abbrev pub IsPresent : Uuid → Time → Server → Type 0
  IsPresent i seen v = (c : Client) × (lookup i v.clients ≡ some c) × (seen ≤ c.last_seen)

  sender_entry_recent :
      (p : VcsPacket) (addr : String) (now seen : Time) (s : ServerState) (c : Client)
      → p.type ≢ PacketType.bye
      → seen ≤ now
      → seen ≤ c.last_seen
      → (d : Client) × (sender_entry p addr now s (some c) ≡ some d) × (seen ≤ d.last_seen)
  sender_entry_recent p addr now seen s c stays later recent =
      elim (Option-cases (sender_entry p addr now s (some c))) [
        | inl e ↦ absurd (ground arith)
        | inr (d, e) ↦ (d, e, ground arith)
      ]

  dispatch-IsPresent :
      (i : Uuid) (p : VcsPacket) (addr : String) (now seen : Time) (s : ServerState)
      (settings : SettingsState) (v : Server)
      → (p.sender_id ≡ i → p.type ≢ PacketType.bye)
      → seen ≤ now
      → IsPresent i seen v
      → IsPresent i seen (dispatch u p addr now s settings v).0
  dispatch-IsPresent i p addr now seen s settings v stays later (c, at, recent) =
      let after = lookup-dispatch u p addr now s settings v i in
      elim (ℕ_discrete p.sender_id i) [
        | yes same ↦
            let (d, e, r) = sender_entry_recent p addr now seen s c (stays same) later recent in
            (d, ground (arith, after), r)
        | no other ↦ (c, ground (arith, after), recent)
      ]

  step-IsPresent :
      (i : Uuid) (seen : Time) (v : Server) (e : Time × Event)
      → IsUnique v.clients
      → IsHarmless i seen e
      → IsPresent i seen v
      → IsPresent i seen (step v e)
  unfolding step handle_packet
  step-IsPresent i seen v (now, ticked) unique (after, within, _) (c, at, recent) =
      (c, (lookup-cleanup now v i c unique).1 (at, omega arith), recent)
  step-IsPresent i seen v (now, received bytes addr s settings) unique (after, within, polite)
        (c, at, recent) =
      elim (Parsed-cases (parse_packet u bytes)) [
        | inl (p, e) ↦ elim (Bool-cases v.running) [
          | inl on ↦
              let (d, there, r) =
                dispatch-IsPresent i p addr now seen s settings v (polite p e) after
                  (c, at, recent) in
              (d, ground arith, r)
          | inr off ↦ (c, ground arith, recent)
        ]
        | inr (x, e) ↦ (c, ground arith, recent)
      ]

  -- A registered client stays registered through any sequence of datagrams and sweeps that falls
  -- within a minute of its last packet and holds no goodbye of its own.
  pub run-IsPresent :
      (i : Uuid) (seen : Time) (v : Server) (es : List (Time × Event))
      → IsUnique v.clients
      → All (IsHarmless i seen) es
      → IsPresent i seen v
      → IsPresent i seen (run v es)
  unfolding run
  run-IsPresent i seen v [] unique harmless here = here
  run-IsPresent i seen v (e ∷ es) unique harmless here =
      run-IsPresent i seen (step v e) es (step-IsUnique v e unique) harmless.1
        (step-IsPresent i seen v e unique harmless.0 here)
