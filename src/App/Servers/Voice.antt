-- ===== src/App/Servers/Voice.antt =====
-- app/server_control.go: starting and stopping the voice server.
use vcs_srs_server.Srs.Auth.{Attempt, done, panicked}
use vcs_srs_server.App.Signals.{close_signal, make_signal}
use vcs_srs_server.App.Servers.{
  Application, Phase, and_then, emit_admin, failed, made_server, notify_all, running, serving_with,
  set_status, spawned, stopped, with_voice,
}
use vcs_srs_server.Voice.Server.{listen, new_server, stop}
use vcs_srs_server.Base.{
  ℕ, suc, String, Bool, not, Option, none, some, returns, panics, if◌then◌else◌, nat_eq, string_eq,
  contains, lookup, insert, delete,
}

-- startVoiceServer
unfoldable pub start_voice_server : Application → Application
start_voice_server a =
    if a.admin.voice_status.is_running
    then notify_all "Voice server error" "voice server is already running" "warning" a
    else emit_admin (record a {
      signals = make_signal "voice" a.signals;
      voice_tasks = insert a.next (a.signals.made, spawned) a.voice_tasks;
      next = suc a.next;
    })

abbrev pub end_voice : ℕ → Application → Application
end_voice task a = record a { voice_tasks = delete task a.voice_tasks }

-- Listen came back with an error.
unfoldable pub voice_failed : String → Application → Application
voice_failed e a =
    notify_all "voice server error" "Could not start Voice server" "error"
      (with_voice (failed e a.admin.voice_status) a)

-- Listen up to its read loop: the socket is bound unless there is an error.
unfoldable pub voice_binds : ℕ → ℕ → ℕ → Option String → Application → Application
voice_binds task ch n error a = elim error [
  | some e ↦ voice_failed e (end_voice task a)
  | none ↦ record a {
    voices = elim (lookup n a.voices) [ none ↦ a.voices | some v ↦ insert n (listen v) a.voices ];
    voice_tasks = insert task (ch, serving_with n) a.voice_tasks;
  }
]

-- A round of the read loop of Listen. The stop channel ends it; a deadline that cannot be set is an
-- error.
unfoldable pub voice_round : ℕ → ℕ → Option String → Application → Application
voice_round task ch error a =
    if contains a.signals.closed ch
    then end_voice task a
    else elim error [ none ↦ a | some e ↦ voice_failed e (end_voice task a) ]

-- The next stretch of the goroutine.
unfoldable pub voice_task : ℕ → ℕ → Phase → Option String → Application → Attempt Application
voice_task task ch spawned error a = done (record a {
  voices = insert a.next new_server a.voices;
  voice_server = some a.next;
  voice_tasks = insert task (ch, made_server) a.voice_tasks;
  next = suc a.next;
})
voice_task task ch made_server error a = done (
    with_voice (running a.admin.voice_status)
      (record a { voice_tasks = insert task (ch, set_status) a.voice_tasks }))
voice_task task ch set_status error a = elim a.voice_server [
  | none ↦ panicked
  | some n ↦ done (voice_binds task ch n error a)
]
voice_task task ch (serving_with n) error a = done (voice_round task ch error a)

-- Stop of the voice server that the application knows; `close_fails` is the answer of its socket.
unfoldable pub stop_known_voice : Bool → Application → Attempt (Bool × Application)
stop_known_voice close_fails a = elim a.voice_server [
  | none ↦ panicked
  | some n ↦ elim (lookup n a.voices) [
    | none ↦ panicked
    | some v ↦ elim (stop close_fails v) [
      | panics ↦ panicked
      | returns (is_error, w) ↦ done (is_error, record a { voices = insert n w a.voices })
    ]
  ]
]

-- stopVoiceServer; `error` is the text of the error of the socket.
unfoldable pub stop_voice_server : Bool → String → Application → Attempt Application
stop_voice_server close_fails error a =
    if not a.admin.voice_status.is_running
    then done (notify_all "Voice server error" "Voice server is not running" "warning" a)
    else and_then (close_signal "voice" a.signals) (λ signals.
      and_then (stop_known_voice close_fails (record a { signals = signals })) (λ p.
        if p.0
        then done (
            notify_all "Voice server error" "Could stop start Voice server" "error"
              (with_voice (record p.1.admin.voice_status { error = error }) p.1))
        else done (emit_admin (with_voice (stopped p.1.admin.voice_status) p.1))))
