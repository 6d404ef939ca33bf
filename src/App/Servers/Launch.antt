-- ===== src/App/Servers/Launch.antt =====
-- A start of the standalone application, and the goroutines that it leaves.
use vcs_srs_server.Srs.Auth.{done, standalone_mode}
use vcs_srs_server.App.Signals.{make_signal, make_signal-AreOpen}
use vcs_srs_server.App.Servers.{
  Application, emit_admin, made_server, running, set_status, spawned, with_control,
}
use vcs_srs_server.Control.Server.{
  ControlServer, StartAnswers, is_control_server, new_control_server, start, start_serving,
}
use vcs_srs_server.App.Servers.Control.{start_grpc_server}
use vcs_srs_server.App.Servers.Voice.{start_voice_server, voice_task}
use vcs_srs_server.App.Servers.Http.{http_task, start_http_server}
use vcs_srs_server.App.Servers.VoiceParts.{IsQuiet}
use vcs_srs_server.App.Servers.Commands.{is_any_running, start_standalone_server}
use vcs_srs_server.App.Servers.HttpSteps.{http_task-Inv, start_http_server-Inv}
use vcs_srs_server.App.Servers.VoiceSteps.{start_voice_server-Inv, voice_task-Inv}
use vcs_srs_server.App.Servers.Invariant.{IsStoppable, Inv, Returns}
use vcs_srs_server.App.Servers.Races.{run_http, run_voice}
use vcs_srs_server.Base.{
  ℕ, suc, String, ◌≡◌, refl, true, false, Option, none, some, arith, nat_eq, string_eq, lookup,
  insert, map_laws,
}

-- The application once startGrpcServer has succeeded.
abbrev pub grpc_started : StartAnswers → Application → Application
grpc_started answers a = emit_admin (
    with_control (running a.admin.control_status) (record a {
      signals = make_signal "control" a.signals;
      control_server = some (start answers (new_control_server a.distribution)).1;
    }))

-- And once StartStandaloneServer has.
abbrev pub all_started : StartAnswers → Application → Application
all_started answers a = start_http_server (start_voice_server (grpc_started answers a))

start_answer :
    (answers : StartAnswers)
    → answers.client_listen ≡ none
    → let s = start answers (new_control_server standalone_mode) in
      (s.0 ≡ done none) × IsStoppable s.1 × (s.1.is_running ≡ true)
unfolding start start_serving new_control_server is_control_server
start_answer answers listens = ground arith

-- A standalone application in which no server runs and no goroutine is on its way to Listen, and whose
-- control server can listen.
pub record IsReady (answers : StartAnswers) (a : Application) : Type 0 where
  pub mode : a.distribution ≡ standalone_mode
  pub idle : is_any_running a ≡ false
  pub quiet : IsQuiet a.voice_tasks
  pub listens : answers.client_listen ≡ none

pub all_started_lem :
    (answers : StartAnswers) (a : Application)
    → IsReady answers a
    → start_standalone_server answers a ≡ done (all_started answers a)
unfolding start_standalone_server start_grpc_server
all_started_lem answers a r =
    let answered : (start answers (new_control_server a.distribution)).0 ≡ done none =
      rw r.mode (start_answer answers r.listens).0 in
    ground (arith, r.idle)

pub all_started-Inv :
    (answers : StartAnswers) (a : Application)
    → IsReady answers a
    → Inv a
    → Inv (all_started answers a)
all_started-Inv answers a r i =
    let c = (start answers (new_control_server a.distribution)).1 in
    let free : IsStoppable c = rw r.mode (start_answer answers r.listens).1 in
    let b = grpc_started answers a in
    let up : Inv b = record {
      signals_open = make_signal-AreOpen "control" a.signals i.signals_open;
      http = i.http;
      voice = i.voice;
      control = record { if_running = λ e. (c, refl, free); served = λ there. free.0 };
    } in
    start_http_server-Inv (start_voice_server b) (start_voice_server-Inv b up r.quiet)

-- Its control server runs.
pub all_started-control :
    (answers : StartAnswers) (a : Application)
    → IsReady answers a
    → (c : ControlServer) × ((all_started answers a).control_server ≡ some c)
      × (c.is_running ≡ true)
unfolding start_voice_server start_http_server
all_started-control answers a r =
    let c = (start answers (new_control_server a.distribution)).1 in
    let runs : c.is_running ≡ true = rw r.mode (start_answer answers r.listens).2 in
    (c, ground arith, runs)

-- The goroutines that it has left, and the status that it shows.
abbrev pub IsLaunched : Application → Application → Type 0
IsLaunched a b =
    (lookup a.next b.voice_tasks ≡ some (suc a.signals.made, spawned))
    × (lookup (suc a.next) b.http_tasks ≡ some spawned)
    × (b.admin ≡ record a.admin { control_status = running a.admin.control_status })
    × (b.distribution ≡ standalone_mode)

pub all_started-IsLaunched :
    (answers : StartAnswers) (a : Application)
    → IsReady answers a
    → IsLaunched a (all_started answers a)
unfolding start_voice_server start_http_server make_signal
all_started-IsLaunched answers a r = grind (map_laws, r.idle, r.mode)

pub run_voice-Inv :
    (task ch : ℕ) (error : Option String) (a : Application)
    → Inv a
    → lookup task a.voice_tasks ≡ some (ch, spawned)
    → Returns Inv (run_voice task ch error a)
unfolding voice_task
run_voice-Inv task ch error a i at =
    let made = voice_task-Inv task ch spawned none a i at in
    let tasks = insert task (ch, made_server) a.voice_tasks in
    let set = voice_task-Inv task ch made_server none _ made (grind map_laws) in
    voice_task-Inv task ch set_status error _ set (grind map_laws)

pub run_http-Inv :
    (task : ℕ) (error : Option String) (a : Application)
    → Inv a
    → lookup task a.http_tasks ≡ some spawned
    → Returns Inv (run_http task error a)
unfolding http_task
run_http-Inv task error a i at =
    let made = http_task-Inv task spawned none a i at in
    let tasks = insert task made_server a.http_tasks in
    let set = http_task-Inv task made_server none _ made (grind map_laws) in
    http_task-Inv task set_status error _ set (grind map_laws)
