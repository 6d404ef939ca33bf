-- ===== src/Control/Server.antt =====
-- control/server.go: the life of the gRPC server. `locked` tells that a call returned with the mutex
-- held; a call that needs it is then blocked for good. The gRPC servers and listeners are only told
-- apart from nil. An error is given by its text, nil by `none`.
pub mod Laws
pub mod Monitor
use Prim.Native.String.{◌++◌ as str_append}
use vcs_srs_server.Srs.Auth.{Attempt, DistributionMode, blocked, control_mode, done, panicked}
use vcs_srs_server.Base.{
  String, Bool, true, false, not, ◌&&◌, ◌||◌, Option, none, some, if◌then◌else◌,
}

pub record ControlServer : Type 0 where
  pub distribution : DistributionMode
  pub locked : Bool
  pub has_client_grpc_server : Bool
  pub has_control_grpc_server : Bool
  pub has_client_listener : Bool
  pub has_control_listener : Bool
  pub is_running : Bool
  pub stop_once_done : Bool
  -- A Stop waits for ever within stopOnce.
  pub stop_hangs : Bool

unfoldable pub new_control_server : DistributionMode → ControlServer
new_control_server mode = record {
  distribution = mode;
  locked = false;
  has_client_grpc_server = false;
  has_control_grpc_server = false;
  has_client_listener = false;
  has_control_listener = false;
  is_running = false;
  stop_once_done = false;
  stop_hangs = false;
}

unfoldable pub is_control_server : ControlServer → Bool
is_control_server s = elim s.distribution [ control_mode ↦ true | _ ↦ false ]

unfoldable pub ask_running : ControlServer → Attempt Bool
ask_running s = if s.locked then blocked else done s.is_running

-- What the two calls of net.Listen answer, and whether LoadOrGenerateKeyPair gives a certificate.
pub record StartAnswers : Type 0 where
  pub client_listen : Option String
  pub control_listen : Option String
  pub has_certificate : Bool

-- From initControlServer to the end of the lock. Without a certificate the health service is
-- registered with a nil server, or with one that has served already: both end the program.
unfoldable pub start_serving :
    StartAnswers → ControlServer → Attempt (Option String) × ControlServer
start_serving a s =
    let ready : ControlServer = record s { has_client_grpc_server = true } in
    if is_control_server s
    then if a.has_certificate
      then (done none, record ready { has_control_grpc_server = true; is_running = true })
      else (panicked, record ready { locked = true })
    else (done none, record ready { is_running = true })

-- Start
unfoldable pub start : StartAnswers → ControlServer → Attempt (Option String) × ControlServer
start a s =
    if s.locked
    then (blocked, s)
    else if s.is_running
    then (done (some "server is already running"), s)
    else elim a.client_listen [
      | some e ↦ (
        done (some (str_append "failed to listen: " e)),
        record s { locked = true; has_client_listener = false },
      )
      | none ↦
          let bound : ControlServer = record s { has_client_listener = true } in
          if is_control_server s
          then elim a.control_listen [
            | some e ↦ (
              done (some (str_append "failed to listen on control server address: " e)),
              record bound { locked = true; has_control_listener = false },
            )
            | none ↦ start_serving a (record bound { has_control_listener = true })
          ]
          else start_serving a bound
    ]

-- What a goroutine does once Serve returned: `fails` tells that it returned an error.
unfoldable pub serve_returned : Bool → ControlServer → Attempt Unit × ControlServer
serve_returned fails s =
    if not fails
    then (done tt, s)
    else if s.locked
    then (blocked, s)
    else (done tt, record s { is_running = false })

-- serveClient and serveControl; on a nil server Serve is a panic.
unfoldable pub serve_client : Bool → ControlServer → Attempt Unit × ControlServer
serve_client fails s = if s.has_client_grpc_server then serve_returned fails s else (panicked, s)

unfoldable pub serve_control : Bool → ControlServer → Attempt Unit × ControlServer
serve_control fails s = if s.has_control_grpc_server then serve_returned fails s else (panicked, s)

-- Stop; its error is nil on every way. `calls_end` tells that the calls under way, for which
-- GracefulStop waits, come to an end. A further Stop waits for one that hangs.
unfoldable pub stop : Bool → ControlServer → Attempt (Option String) × ControlServer
stop calls_end s =
    if s.stop_hangs
    then (blocked, s)
    else if s.stop_once_done
    then (done none, s)
    else if s.locked
    then (blocked, record s { stop_hangs = true })
    else if not s.is_running
    then (done none, record s { stop_once_done = true })
    else if not calls_end && (s.has_client_grpc_server || s.has_control_grpc_server)
    then (blocked, record s { is_running = false; stop_hangs = true })
    else (
      done none,
      record s {
        is_running = false;
        stop_once_done = true;
        has_client_grpc_server = false;
        has_control_grpc_server = false;
        has_client_listener = false;
        has_control_listener = false;
      },
    )

-- handleShutdown waits for the stop signal.
unfoldable pub handle_shutdown :
    Bool → Bool → ControlServer → Attempt (Option String) × ControlServer
handle_shutdown signalled calls_end s = if signalled then stop calls_end s else (blocked, s)
