-- ===== src/Control/Server/Laws.antt =====
-- How a control server starts, stops, and stays locked.
use Prim.Native.String.{◌++◌ as str_append}
use vcs_srs_server.Srs.Auth.{Attempt, blocked, done, panicked}
use vcs_srs_server.Control.Server.{
  ControlServer, StartAnswers, ask_running, is_control_server, serve_client, serve_control, start,
  start_serving, stop,
}
use vcs_srs_server.Base.{String, ◌≡◌, ◌⊎◌, Bool, true, false, Option, none, some, arith}

-- What Start answers on a server that does not run and whose mutex is free.
abbrev pub StartResult : StartAnswers → ControlServer → Attempt (Option String) → Type 0
StartResult a s (done none) =
    (a.client_listen ≡ none)
    × ((is_control_server s ≡ false) ⊎ ((a.control_listen ≡ none) × (a.has_certificate ≡ true)))
StartResult a s (done (some e)) =
    ((x : String) × (a.client_listen ≡ some x) × (e ≡ str_append "failed to listen: " x))
    ⊎ ((is_control_server s ≡ true)
        × (a.client_listen ≡ none)
        × ((x : String) × (a.control_listen ≡ some x)
            × (e ≡ str_append "failed to listen on control server address: " x)))
StartResult a s panicked =
    (is_control_server s ≡ true)
    × (a.client_listen ≡ none)
    × (a.control_listen ≡ none)
    × (a.has_certificate ≡ false)
StartResult a s blocked = ⊥

-- Of a server that does not run and whose mutex is free: Start succeeds only where the clients' address
-- can be listened on and, on a control node, the voice servers' address too and there is a certificate;
-- comes back with an error only where one of the two addresses cannot be listened on, and tells which;
-- panics only on a control node without a certificate; and is never blocked.
pub start_result :
    (a : StartAnswers) (s : ControlServer)
    → s.locked ≡ false
    → s.is_running ≡ false
    → StartResult a s (start a s).0
unfolding start start_serving is_control_server
start_result a s free idle = ground arith

-- A Start that comes back with an error has left the mutex locked: all later calls of IsRunning and
-- Start, and the first of Stop, are blocked for good.
pub failed_start_blocks :
    (a b : StartAnswers) (calls_end : Bool) (s : ControlServer) (e : String)
    → s.is_running ≡ false
    → s.stop_once_done ≡ false
    → (start a s).0 ≡ done (some e)
    → let failed = (start a s).1 in
      (ask_running failed ≡ blocked)
      × ((start b failed).0 ≡ blocked)
      × ((stop calls_end failed).0 ≡ blocked)
unfolding start start_serving ask_running stop
failed_start_blocks a b calls_end s e idle fresh h = ground arith

started_lem :
    (a : StartAnswers) (s : ControlServer)
    → s.is_running ≡ false
    → (start a s).0 ≡ done none
    → let t = (start a s).1 in
      (t.is_running ≡ true)
      × (t.locked ≡ false)
      × (t.stop_once_done ≡ s.stop_once_done)
      × (t.stop_hangs ≡ s.stop_hangs)
unfolding start start_serving is_control_server
started_lem a s idle h = ground arith

-- A server that Start has set running stops at the first Stop, where the calls under way end. A later Start sets it running again,
-- and from then on no Stop stops it.
pub restarted_never_stops :
    (a b : StartAnswers) (s : ControlServer)
    → s.is_running ≡ false
    → s.stop_once_done ≡ false
    → s.stop_hangs ≡ false
    → (start a s).0 ≡ done none
    → (start b (stop true (start a s).1).1).0 ≡ done none
    → let stopped = (stop true (start a s).1).1 in
      let again = (start b stopped).1 in
      (ask_running (start a s).1 ≡ done true)
      × (ask_running stopped ≡ done false)
      × (ask_running again ≡ done true)
      × (stop true again ≡ (done none, again))
unfolding ask_running stop
restarted_never_stops a b s idle fresh free_once h k =
    let (runs, free, once, unhung) = started_lem a s idle h in
    let stopped = (stop true (start a s).1).1 in
    let down : (stopped.is_running ≡ false)
        × (stopped.stop_once_done ≡ true)
        × (stopped.stop_hangs ≡ false) =
      ground arith in
    let (runs_again, free_again, spent, unhung_again) = started_lem b stopped down.0 k in
    (ground arith, ground arith, ground arith, ground arith)

-- A serving goroutine that runs only after the server was stopped panics.
pub stopped_before_serve_panics :
    (a : StartAnswers) (s : ControlServer) (fails : Bool)
    → s.is_running ≡ false
    → s.stop_once_done ≡ false
    → s.stop_hangs ≡ false
    → (start a s).0 ≡ done none
    → let stopped = (stop true (start a s).1).1 in
      ((serve_client fails stopped).0 ≡ panicked) × ((serve_control fails stopped).0 ≡ panicked)
unfolding serve_client serve_control stop
stopped_before_serve_panics a s fails idle fresh unhung h = ground (arith, started_lem a s)
