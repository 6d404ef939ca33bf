-- ===== src/VoiceControl/Laws.antt =====
-- What a voice node makes of its control node.
use vcs_srs_server.VoiceControl.{
  Answer, Attempted, StreamAnswer, VoiceControlClient, close, closed_channel,
  connect_control_server, end_of_stream, establish_connection, establish_stream, open_channel,
  opened, other_error, receiver_round, register_self, register_voice_server, rounds_of_errors,
  temporary,
}
use vcs_srs_server.VoiceControl.Certificates.{Rsa, load_certificate_only}
use vcs_srs_server.Utils.Keys.{Pem}
use vcs_srs_server.Disk.{Disk}
use vcs_srs_server.Srs.Auth.{done, panicked}
use vcs_srs_server.Base.{
  ℕ, zero, suc, ◌+◌, ◌≡◌, refl, ◌≢◌, ◌⊎◌, inl, inr, Bool, true, false, not, ◌&&◌, none, some, List,
  [], ◌∷◌, arith, if◌then◌else◌, Bool-cases, Option-cases, length,
}

-- While stopc is not closed, a receiver whose stream fails never ends: each of its rounds starts one
-- more reconnection.
pub receive_errors_pile_up :
    (n : ℕ) (v : VoiceControlClient)
    → v.stopc ≢ closed_channel
    → rounds_of_errors n v ≡ record v { reconnections = v.reconnections + n }
unfolding receiver_round rounds_of_errors
receive_errors_pile_up zero v goes_on = ground arith
receive_errors_pile_up (suc n) v goes_on =
    ground (arith, receive_errors_pile_up n (record v { reconnections = suc v.reconnections }))

-- The control node accepts the registration, and opens the stream.
abbrev pub accepts : Answer → Bool
accepts (inl e) = false
accepts (inr resp) = resp.success

abbrev pub opens : StreamAnswer → Bool
opens opened = true
opens (temporary e) = false
opens (other_error e) = false

-- The first attempt, whose connection is closed on an error.
attempt_lem :
    (said : Answer) (streamed : StreamAnswer) (v : VoiceControlClient)
    → v.conn_closed ≡ false
    → let (error, w) = establish_connection (record { registered = said; streamed = streamed }) v in
      let after : VoiceControlClient = elim error [
        | none ↦ w
        | some _ ↦ record w { conn_closed = true }
      ] in
      (after.conn_closed ≡ not (accepts said && opens streamed))
      × (after.receivers ≡ v.receivers + (if accepts said && opens streamed then 1 else 0))
unfolding establish_connection register_self establish_stream
attempt_lem (inl e) streamed v is_open = ground arith
attempt_lem (inr resp) opened v is_open = ground (arith, Bool-cases resp.success)
attempt_lem (inr resp) (temporary e) v is_open = ground (arith, Bool-cases resp.success)
attempt_lem (inr resp) (other_error e) v is_open = ground (arith, Bool-cases resp.success)

module _ (p : Pem) (r : Rsa) where
  -- ConnectControlServer either answers an error, because the certificate of the control node cannot
  -- be loaded or the dialling fails; or it answers none, whatever the control node says: the client
  -- then has one receiver more on an open connection if the control node has accepted it and opened
  -- the stream, and if not, its connection is closed, without a receiver more.
  pub connect_hides_refusal :
      (dial_fails : Bool) (a : Attempted) (d : Disk) (v : VoiceControlClient)
      → let (error, w) = connect_control_server p r dial_fails a d v in
        let is_accepted = accepts a.registered && opens a.streamed in
        ((error ≡ true) × ((load_certificate_only p r d ≡ none) ⊎ (dial_fails ≡ true)))
        ⊎ ((error ≡ false)
            × (w.conn_closed ≡ not is_accepted)
            × (w.receivers ≡ v.receivers + (if is_accepted then 1 else 0)))
  unfolding connect_control_server
  connect_hides_refusal true a d v = elim (Option-cases (load_certificate_only p r d)) [
    | inl e ↦ inl (ground (arith, e))
    | inr (c, e) ↦ inl (ground (arith, e), inr refl)
  ]
  connect_hides_refusal false a d v = elim (Option-cases (load_certificate_only p r d)) [
    | inl e ↦ inl (ground (arith, e), inl e)
    | inr (c, e) ↦
        let begun : VoiceControlClient = record v { has_conn = true; conn_closed = false } in
        let got = attempt_lem a.registered a.streamed begun refl in
        inr (ground (arith, e), ground (arith, e, got), ground (arith, e, got))
  ]

-- Attempts of handleReconnection, one after the other.
abbrev attempts : List Attempted → VoiceControlClient → VoiceControlClient
attempts [] v = v
attempts (a ∷ later) v = attempts later (establish_connection a v).1

establish-watchers :
    (a : Attempted) (v : VoiceControlClient)
    → (establish_connection a v).1.watchers ≡ suc v.watchers
unfolding establish_connection register_self establish_stream
establish-watchers a v = ground arith

-- Every attempt, whatever is answered, leaves one more goroutine that watches the connection.
pub watchers_pile_up :
    (tried : List Attempted) (v : VoiceControlClient)
    → (attempts tried v).watchers ≡ v.watchers + length tried
watchers_pile_up [] v = omega arith
watchers_pile_up (a ∷ tried) v =
    omega (arith, establish-watchers a v, watchers_pile_up tried (establish_connection a v).1)

-- A client that registers at the service and gets its stream is connected, with no frequencies. The
-- service ends the stream at once, and with it the receiver.
pub connected_then_ended :
    (v : VoiceControlClient)
    → v.stopc ≢ closed_channel
    → let (error, w) =
        establish_connection
          (record { registered = inr register_voice_server; streamed = opened })
          v in
      (error ≡ none)
      × (w.assigned_frequencies ≡ [])
      × (w.receivers ≡ suc v.receivers)
      × ((receiver_round end_of_stream w).receivers ≡ v.receivers)
unfolding establish_connection register_self establish_stream register_voice_server receiver_round
connected_then_ended v goes_on = ground arith

-- A second Close of a client that had its stream panics.
pub close_twice :
    (v w : VoiceControlClient) → v.stopc ≡ open_channel → close v ≡ done w → close w ≡ panicked
unfolding close
close_twice v w opens closed = ground arith
