-- ===== src/App/Servers/Control.antt =====
-- app/server_control.go: starting and stopping the control server.
use vcs_srs_server.Srs.Auth.{Attempt, blocked, done, panicked}
use vcs_srs_server.App.Signals.{close_signal, make_signal}
use vcs_srs_server.App.Servers.{
  Application, and_then, emit_admin, failed, notify_all, running, stopped, with_control,
}
use vcs_srs_server.Control.Server.{StartAnswers, new_control_server, start, stop}
use vcs_srs_server.Base.{String, Bool, not, Option, none, some, if◌then◌else◌}

abbrev pub control_failed : String → Application → Application
control_failed e a =
    notify_all "Control server error" "Could not start Control server" "error"
      (with_control (failed e a.admin.control_status) a)

-- What startGrpcServer does with the answer of Start.
abbrev pub control_started : Attempt (Option String) → Application → Attempt Application
control_started (done none) a = done (emit_admin (with_control (running a.admin.control_status) a))
control_started (done (some e)) a = done (control_failed e a)
control_started panicked a = panicked
control_started blocked a = blocked

-- startGrpcServer
unfoldable pub start_grpc_server : StartAnswers → Application → Attempt Application
start_grpc_server answers a =
    if a.admin.control_status.is_running
    then done (notify_all "Control server error" "Control server is already running" "warning" a)
    else let (answer, server) = start answers (new_control_server a.distribution) in
      control_started answer
        (record a { signals = make_signal "control" a.signals; control_server = some server })

-- What stopControlServer does with the answer of Stop.
abbrev pub control_stopped : Attempt (Option String) → Application → Attempt Application
control_stopped (done none) a = done (emit_admin (with_control (stopped a.admin.control_status) a))
control_stopped (done (some e)) a = done (
    notify_all "Control server error" "Could not stop control server" "error"
      (with_control (record a.admin.control_status { error = e }) a))
control_stopped panicked a = panicked
control_stopped blocked a = blocked

-- Stop of the control server that the application knows, if any.
unfoldable pub stop_known_control : Bool → Application → Attempt Application
stop_known_control calls_end a = elim a.control_server [
  | none ↦ control_stopped (done none) a
  | some c ↦
      let (answer, server) = stop calls_end c in
      control_stopped answer (record a { control_server = some server })
]

-- stopControlServer; `calls_end` tells that the gRPC calls under way come to an end.
unfoldable pub stop_control_server : Bool → Application → Attempt Application
stop_control_server calls_end a =
    if not a.admin.control_status.is_running
    then done (notify_all "Control server error" "Control server is not running" "warning" a)
    else and_then (close_signal "control" a.signals)
        (λ signals. stop_known_control calls_end (record a { signals = signals }))
