-- ===== src/App/Servers/VoiceSteps.antt =====
-- The voice server: its start, its stop and its goroutine keep the invariant.
use vcs_srs_server.Srs.Auth.{done}
use vcs_srs_server.App.Signals.{close_signal_lem, make_signal-AreOpen}
use vcs_srs_server.App.Servers.{
  Application, Phase, emit_admin, made_server, serving_with, set_status, spawned, stopped,
  with_voice,
}
use vcs_srs_server.Voice.Server.{Server, stop}
use vcs_srs_server.App.Servers.Voice.{
  start_voice_server, stop_known_voice, stop_voice_server, voice_binds, voice_failed, voice_round,
  voice_task,
}
use vcs_srs_server.App.Servers.VoiceParts.{
  IsQuiet, VoiceInv-bound, VoiceInv-delete, VoiceInv-made, VoiceInv-set, VoiceInv-spawned,
  VoiceInv-stop, VoiceInv-stopped,
}
use vcs_srs_server.App.Servers.Invariant.{Inv, IsVoice, Returns, Returns-and_then}
use vcs_srs_server.Base.{
  ℕ, String, ◌≡◌, refl, inl, inr, true, false, not, Option, some, arith, returns, nat_eq, string_eq,
  Bool-cases, contains, lookup, insert, delete, if_rule, Option_rule,
}

pub start_voice_server-Inv :
    (a : Application) → Inv a → IsQuiet a.voice_tasks → Inv (start_voice_server a)
unfolding start_voice_server
start_voice_server-Inv a i quiet =
    if_rule Inv a.admin.voice_status.is_running _ _
      (λ e. record {
        signals_open = i.signals_open;
        http = i.http;
        voice = i.voice;
        control = i.control;
      })
      (λ e. record {
        signals_open = make_signal-AreOpen "voice" a.signals i.signals_open;
        http = i.http;
        voice = VoiceInv-spawned _ _ a.voices a.voice_tasks a.next a.signals.made i.voice quiet;
        control = i.control;
      })

voice_binds-Inv :
    (task ch n : ℕ) (error : Option String) (a : Application)
    → Inv a
    → lookup task a.voice_tasks ≡ some (ch, set_status)
    → a.voice_server ≡ some n
    → Inv (voice_binds task ch n error a)
unfolding voice_binds voice_failed
voice_binds-Inv task ch n error a i before k =
    let (m, v, km, f) = i.voice.if_made task ch set_status before refl in
    let here : lookup n a.voices ≡ some v = ground arith in
    Option_rule Inv error _ _
      (λ none_given. record {
        signals_open = i.signals_open;
        http = i.http;
        voice =
            rw here (VoiceInv-bound _ _ a.voices a.voice_tasks task ch n v i.voice before k here);
        control = i.control;
      })
      (λ e given. record {
        signals_open = i.signals_open;
        http = i.http;
        voice =
            VoiceInv-stopped _ _ a.voices (delete task a.voice_tasks)
              (VoiceInv-delete _ _ a.voices a.voice_tasks task i.voice);
        control = i.control;
      })

voice_round-Inv :
    (task ch : ℕ) (error : Option String) (a : Application)
    → Inv a
    → Inv (voice_round task ch error a)
unfolding voice_round voice_failed
voice_round-Inv task ch error a i =
    let ended = VoiceInv-delete _ _ a.voices a.voice_tasks task i.voice in
    if_rule Inv (contains a.signals.closed ch) _ _
      (λ e. record {
        signals_open = i.signals_open;
        http = i.http;
        voice = ended;
        control = i.control;
      })
      (λ e.
        Option_rule Inv error _ _ (λ none_given. i)
          (λ x given. record {
            signals_open = i.signals_open;
            http = i.http;
            voice = VoiceInv-stopped _ _ a.voices (delete task a.voice_tasks) ended;
            control = i.control;
          }))

-- No stretch of the goroutine of the voice server panics.
pub voice_task-Inv :
    (task ch : ℕ) (p : Phase) (error : Option String) (a : Application)
    → Inv a
    → lookup task a.voice_tasks ≡ some (ch, p)
    → Returns Inv (voice_task task ch p error a)
unfolding voice_task
voice_task-Inv task ch spawned error a i at = record {
  signals_open = i.signals_open;
  http = i.http;
  voice = VoiceInv-made _ _ a.voices a.voice_tasks task ch a.next i.voice at;
  control = i.control;
}
voice_task-Inv task ch made_server error a i at = record {
  signals_open = i.signals_open;
  http = i.http;
  voice = VoiceInv-set _ _ a.voices a.voice_tasks task ch i.voice at;
  control = i.control;
}
voice_task-Inv task ch set_status error a i at =
    let (n, v, k, f) = i.voice.if_made task ch set_status at refl in
    Option_rule (Returns Inv) a.voice_server _ _ (λ absent. cc)
      (λ m known. voice_binds-Inv task ch m error a i at known)
voice_task-Inv task ch (serving_with n) error a i at = voice_round-Inv task ch error a i

-- A voice server whose own stop channel is open when it runs stops.
pub stop_open :
    (v : Server)
    → (v.running ≡ true → v.stop_closed ≡ false)
    → (w : Server) × (stop false v ≡ returns (false, w)) × (w.running ≡ false)
unfolding stop
stop_open v o = elim (Bool-cases v.running) [
  | inl r ↦ (record v { stop_closed = true; running = false }, ground (arith, o r), refl)
  | inr r ↦ (v, ground arith, r)
]

pub stop_known_voice_lem :
    (a : Application) (n : ℕ) (v w : Server)
    → a.voice_server ≡ some n
    → lookup n a.voices ≡ some v
    → stop false v ≡ returns (false, w)
    → stop_known_voice false a ≡ done (false, record a { voices = insert n w a.voices })
unfolding stop_known_voice
stop_known_voice_lem a n v w k f e = ground arith

stop_known_voice-Inv :
    (a : Application)
    → Inv a
    → IsVoice a.voice_server a.voices
    → Returns (λ p. (p.0 ≡ false) × Inv p.1) (stop_known_voice false a)
stop_known_voice-Inv a i (n, v, k, f) =
    let (w, stops, down) = stop_open v (i.voice.open_if_running n v f) in
    let b : Application = record a { voices = insert n w a.voices } in
    let kept : Inv b = record {
      signals_open = i.signals_open;
      http = i.http;
      voice = VoiceInv-stop _ _ a.voices a.voice_tasks n v w i.voice k f stops;
      control = i.control;
    } in
    rw (stop_known_voice_lem a n v w k f stops) (refl, kept)

stopped_voice-Inv :
    (a : Application) → Inv a → Inv (emit_admin (with_voice (stopped a.admin.voice_status) a))
stopped_voice-Inv a i = record {
  signals_open = i.signals_open;
  http = i.http;
  voice = VoiceInv-stopped _ _ a.voices a.voice_tasks i.voice;
  control = i.control;
}

-- Nor does a stop of it, where its socket can be closed.
pub stop_voice_server-Inv :
    (error : String) (a : Application) → Inv a → Returns Inv (stop_voice_server false error a)
unfolding stop_voice_server
stop_voice_server-Inv error a i =
    if_rule (Returns Inv) (not a.admin.voice_status.is_running) _ _
      (λ e. record {
        signals_open = i.signals_open;
        http = i.http;
        voice = i.voice;
        control = i.control;
      })
      (λ e.
        let (s, closed, still_open, _) = close_signal_lem "voice" a.signals i.signals_open in
        let b : Application = record a { signals = s } in
        rw closed (
          Returns-and_then (λ p. (p.0 ≡ false) × Inv p.1) Inv (stop_known_voice false b) _
            (stop_known_voice-Inv b
              (record {
                signals_open = still_open;
                http = i.http;
                voice = i.voice;
                control = i.control;
              })
              (i.voice.if_running (ground arith)))
            (λ p h.
              if_rule (Returns Inv) p.0 _ _ (λ is_error. cc)
                (λ no_error. stopped_voice-Inv p.1 h.1))))
