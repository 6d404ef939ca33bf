-- ===== src/App/Servers/Reach.antt =====
-- What the application comes to by commands and goroutines in any order. A start is made only while no
-- goroutine of an earlier start is on its way to Listen and the control server has its certificate; a
-- stop only where the socket of a voice server can be closed and the gRPC calls under way come to an
-- end. What else the application changes is left open.
use vcs_srs_server.Srs.Auth.{
  Attempt, DistributionMode, blocked, control_mode, done, panicked, standalone_mode, voice_mode,
}
use vcs_srs_server.App.{App}
use vcs_srs_server.App.Signals.{no_signals-AreOpen}
use vcs_srs_server.App.Servers.{and_then, Application, Phase}
use vcs_srs_server.Control.Server.{ControlServer, StartAnswers, serve_client, serve_control}
use vcs_srs_server.App.Servers.Control.{start_grpc_server, stop_control_server}
use vcs_srs_server.App.Servers.Voice.{start_voice_server, voice_task}
use vcs_srs_server.App.Servers.Http.{http_task, stop_http_server}
use vcs_srs_server.App.Servers.VoiceParts.{IsQuiet}
use vcs_srs_server.App.Servers.Commands.{
  StopAnswers, admin_of, has_control, has_voice, idle_application, is_any_running,
  start_control_node, start_node, start_standalone_server, start_voice_node, stop_server,
  stop_voice_part,
}
use vcs_srs_server.App.Servers.HttpSteps.{
  http_task-Inv, start_http_server-Inv, stop_http_server-Inv,
}
use vcs_srs_server.App.Servers.VoiceSteps.{
  start_voice_server-Inv, stop_voice_server-Inv, voice_task-Inv,
}
use vcs_srs_server.App.Servers.ControlSteps.{
  serve_client-IsFree, serve_control-IsFree, serve_client_ends, serve_control_ends, KeepsVoice,
  serve_client_lem, serve_control_lem, start_grpc_server-Inv, stop_control_server-Inv,
}
use vcs_srs_server.App.Servers.Invariant.{
  IsFree, IsStoppable, Inv, Returns, Returns-and_then, Returns-result,
}
use vcs_srs_server.Base.{
  ℕ, String, ◌≡◌, refl, Bool, true, false, Option, some, arith, nat_eq, string_eq, lookup, if_rule,
  subst,
}

-- A goroutine of the control server comes back from Serve.
abbrev pub serves_on : Attempt Unit × ControlServer → Application → Attempt Application
serves_on p a = and_then p.0 (λ served. done (record a { control_server = some p.1 }))

-- What may come next, with what it comes to.
pub data Next (a : Application) : Attempt Application → Type 0 where
  start_next :
      (answers : StartAnswers)
      → answers.has_certificate ≡ true
      → IsQuiet a.voice_tasks
      → Next a (start_node answers a a.distribution)
  stop_next :
      (answers : StopAnswers)
      → answers.close_fails ≡ false
      → answers.calls_end ≡ true
      → Next a (stop_server answers a)
  http_next :
      (task : ℕ) (p : Phase) (error : Option String)
      → lookup task a.http_tasks ≡ some p
      → Next a (http_task task p error a)
  voice_next :
      (task ch : ℕ) (p : Phase) (error : Option String)
      → lookup task a.voice_tasks ≡ some (ch, p)
      → Next a (voice_task task ch p error a)
  client_next :
      (fails : Bool) (c : ControlServer)
      → a.control_server ≡ some c
      → c.has_client_grpc_server ≡ true
      → Next a (serves_on (serve_client fails c) a)
  control_next :
      (fails : Bool) (c : ControlServer)
      → a.control_server ≡ some c
      → c.has_control_grpc_server ≡ true
      → Next a (serves_on (serve_control fails c) a)

pub data Step (a : Application) : Application → Type 0 where
  takes : {m : Attempt Application} {b : Application} → Next a m → m ≡ done b → Step a b
  other_change : (app : App) → Step a (record a { app = app })

pub data Reach (mode : DistributionMode) : Application → Type 0 where
  loaded : (app : App) → Reach mode (idle_application mode app)
  later : {a b : Application} → Reach mode a → Step a b → Reach mode b

idle-Inv : (mode : DistributionMode) (app : App) → Inv (idle_application mode app)
unfolding lookup admin_of
idle-Inv mode app = record {
  signals_open = no_signals-AreOpen;
  http = record { if_running = λ e. cc; if_made = λ task p h m. cc };
  voice = record {
    if_running = λ e. cc;
    if_made = λ task ch p h m. cc;
    open_if_running = λ n v h r. cc;
    fresh_if_launching = λ task ch n p v h m l k f. cc;
    one_launch = λ t u ch dh p q h k l m. cc;
  };
  control = record { if_running = λ e. cc; served = tt };
}

pub start_node-Inv :
    (answers : StartAnswers) (a : Application) (mode : DistributionMode)
    → answers.has_certificate ≡ true
    → IsQuiet a.voice_tasks
    → Inv a
    → Returns Inv (start_node answers a mode)
unfolding start_standalone_server start_control_node start_voice_node
start_node-Inv answers a standalone_mode certified quiet i =
    if_rule (Returns Inv) (is_any_running a) _ _ (λ e. i)
      (λ e.
        Returns-and_then (KeepsVoice a) Inv (start_grpc_server answers a) _
          (start_grpc_server-Inv answers a certified i)
          (λ b (kept, same).
            start_http_server-Inv (start_voice_server b)
              (start_voice_server-Inv b kept (rw same quiet))))
start_node-Inv answers a control_mode certified quiet i =
    if_rule (Returns Inv) a.admin.control_status.is_running _ _ (λ e. i)
      (λ e.
        Returns-and_then (KeepsVoice a) Inv (start_grpc_server answers a) _
          (start_grpc_server-Inv answers a certified i) (λ b kept. start_http_server-Inv b kept.0))
start_node-Inv answers a voice_mode certified quiet i =
    if_rule (Returns Inv) a.admin.voice_status.is_running _ _ (λ e. i)
      (λ e. start_voice_server-Inv a i quiet)

pub stop_server-Inv :
    (answers : StopAnswers) (a : Application)
    → answers.close_fails ≡ false
    → answers.calls_end ≡ true
    → Inv a
    → Returns Inv (stop_server answers a)
unfolding stop_server
stop_server-Inv answers a closes ends i =
    if_rule (Returns Inv) (is_any_running a) _ _
      (λ e.
        Returns-and_then Inv Inv (stop_voice_part answers a) _
          (if_rule (Returns Inv) (has_voice a.distribution) _ _
            (λ v. rw closes (stop_voice_server-Inv answers.close_error a i)) (λ v. i))
          (λ b kept.
            if_rule (Returns Inv) (has_control b.distribution) _ _
              (λ c.
                Returns-and_then Inv Inv (stop_http_server answers.shutdown b)
                  (stop_control_server answers.calls_end)
                  (stop_http_server-Inv answers.shutdown b kept)
                  (λ c held. rw ends (stop_control_server-Inv c held)))
              (λ c. kept)))
      (λ e. i)

IsStoppable-known :
    (a : Application) (c : ControlServer)
    → Inv a
    → a.control_server ≡ some c
    → a.admin.control_status.is_running ≡ true
    → IsStoppable c
IsStoppable-known a c i k r =
    let (d, known, free) = i.control.if_running r in
    let same : d ≡ c = ground arith in subst IsStoppable same free

with_server-Inv :
    (a : Application) (c : ControlServer)
    → Inv a
    → (a.admin.control_status.is_running ≡ true → IsStoppable c)
    → IsFree (some c)
    → Inv (record a { control_server = some c })
with_server-Inv a c i stoppable free = record {
  signals_open = i.signals_open;
  http = i.http;
  voice = i.voice;
  control = record { if_running = λ r. (c, refl, stoppable r); served = free };
}

Next-Inv : {a : Application} {m : Attempt Application} → Inv a → Next a m → Returns Inv m
Next-Inv {a} i (start_next answers certified quiet) =
    start_node-Inv answers a a.distribution certified quiet i
Next-Inv {a} i (stop_next answers closes ends) = stop_server-Inv answers a closes ends i
Next-Inv {a} i (http_next task p error at) = http_task-Inv task p error a i at
Next-Inv {a} i (voice_next task ch p error at) = voice_task-Inv task ch p error a i at
Next-Inv {a} i (client_next fails c k there) =
    let free = subst IsFree k i.control.served in
    rw (serve_client_ends fails c there free) (
      with_server-Inv a (serve_client fails c).1 i
        (λ r. serve_client_lem fails c (IsStoppable-known a c i k r))
        (serve_client-IsFree fails c free))
Next-Inv {a} i (control_next fails c k there) =
    let free = subst IsFree k i.control.served in
    rw (serve_control_ends fails c there free) (
      with_server-Inv a (serve_control fails c).1 i
        (λ r. serve_control_lem fails c (IsStoppable-known a c i k r))
        (serve_control-IsFree fails c free))

Step-Inv : {a b : Application} → Inv a → Step a b → Inv b
Step-Inv {a} i (takes {m} n e) = Returns-result Inv m _ (Next-Inv i n) e
Step-Inv {a} i (other_change app) = record {
  signals_open = i.signals_open;
  http = i.http;
  voice = i.voice;
  control = i.control;
}

pub Reach-Inv : {mode : DistributionMode} {a : Application} → Reach mode a → Inv a
Reach-Inv {mode} (loaded app) = idle-Inv mode app
Reach-Inv (later r s) = Step-Inv (Reach-Inv r) s

-- The command or goroutine comes to an end, without a panic and without waiting for ever.
abbrev pub Ends : Attempt Application → Type 0
Ends m = (b : Application) × (m ≡ done b)

pub Ends-of_Returns : (m : Attempt Application) → Returns Inv m → Ends m
Ends-of_Returns (done b) h = (b, refl)
Ends-of_Returns panicked h = absurd h
Ends-of_Returns blocked h = absurd h

-- Whatever commands and goroutines have run before, in any order: whatever may come next, be it a
-- stop, a start, or the next stretch of the goroutine of an HTTP, a voice or a gRPC server, comes to an
-- end without a panic: no nil server is used, no channel is closed twice, and no mutex waited for in
-- vain. This is under these conditions: a start is made only while no goroutine is on its way to Listen
-- and where the control server has its certificate; the socket of a voice server can be closed; the
-- gRPC calls that are under way at a stop come to an end; and the goroutine of a gRPC server runs before
-- a stop has set that server to nil.
pub reachable_never_panics :
    {mode : DistributionMode} {a : Application} {m : Attempt Application}
    → Reach mode a
    → Next a m
    → Ends m
reachable_never_panics {m} r n = Ends-of_Returns m (Next-Inv (Reach-Inv r) n)
