-- ===== src/App/Servers/ControlSteps.antt =====
-- The control server: its start, its stop and its goroutines keep the invariant.
use vcs_srs_server.Srs.Auth.{Attempt, DistributionMode, blocked, done, panicked}
use vcs_srs_server.App.Signals.{close_signal_lem, make_signal, make_signal-AreOpen}
use vcs_srs_server.App.Servers.{Application}
use vcs_srs_server.Control.Server.{
  ControlServer, StartAnswers, is_control_server, new_control_server, serve_client, serve_control,
  serve_returned, start, start_serving, stop,
}
use vcs_srs_server.App.Servers.Control.{
  control_started, start_grpc_server, stop_control_server, stop_known_control,
}
use vcs_srs_server.App.Servers.Invariant.{IsFree, IsStoppable, Inv, Returns}
use vcs_srs_server.Base.{
  String, ◌≡◌, refl, Bool, true, false, not, Option, none, some, arith, if_rule, Option_rule, subst,
}

-- The control server of a Start that succeeds can be stopped.
start_free :
    (answers : StartAnswers) (mode : DistributionMode)
    → (start answers (new_control_server mode)).0 ≡ done none
    → IsStoppable (start answers (new_control_server mode)).1
unfolding start start_serving new_control_server is_control_server
start_free answers mode h = ground arith

-- Nor does it leave the mutex locked with a gRPC server there.
start-IsFree :
    (answers : StartAnswers) (mode : DistributionMode)
    → answers.has_certificate ≡ true
    → IsFree (some (start answers (new_control_server mode)).1)
unfolding start start_serving new_control_server is_control_server
start-IsFree answers mode h s = ground arith

stop-IsFree : (c : ControlServer) → IsFree (some c) → IsFree (some (stop true c).1)
unfolding stop
stop-IsFree c free s = ground (arith, free)

-- A fresh control server neither blocks its Start nor, with a certificate, panics.
start-Returns :
    (answers : StartAnswers) (mode : DistributionMode)
    → answers.has_certificate ≡ true
    → Returns (λ e. Unit {0}) (start answers (new_control_server mode)).0
unfolding start start_serving new_control_server is_control_server
start-Returns answers mode h = ground arith

-- The invariant, with the goroutines of voice servers as before.
abbrev pub KeepsVoice : Application → Application → Type 0
KeepsVoice a b = Inv b × (b.voice_tasks ≡ a.voice_tasks)

control_started-Inv :
    (answer : Attempt (Option String)) (c : ControlServer) (a : Application)
    → Inv a
    → a.control_server ≡ some c
    → (answer ≡ done none → IsStoppable c)
    → Returns (λ e. Unit {0}) answer
    → Returns (KeepsVoice a) (control_started answer a)
control_started-Inv (done none) c a i k free ends = (
  record {
    signals_open = i.signals_open;
    http = i.http;
    voice = i.voice;
    control = record { if_running = λ e. (c, k, free refl); served = i.control.served };
  },
  refl,
)
control_started-Inv (done (some x)) c a i k free ends = (
  record {
    signals_open = i.signals_open;
    http = i.http;
    voice = i.voice;
    control = record { if_running = λ e. cc; served = i.control.served };
  },
  refl,
)
control_started-Inv panicked c a i k free ends = ends
control_started-Inv blocked c a i k free ends = ends

-- A start of it does not panic where there is a certificate.
pub start_grpc_server-Inv :
    (answers : StartAnswers) (a : Application)
    → answers.has_certificate ≡ true
    → Inv a
    → Returns (KeepsVoice a) (start_grpc_server answers a)
unfolding start_grpc_server
start_grpc_server-Inv answers a certified i =
    if_rule (Returns (KeepsVoice a)) a.admin.control_status.is_running _ _
      (λ e. (
        record {
          signals_open = i.signals_open;
          http = i.http;
          voice = i.voice;
          control = i.control;
        },
        refl,
      ))
      (λ e.
        let (answer, server) = start answers (new_control_server a.distribution) in
        let b : Application = record a {
          signals = make_signal "control" a.signals;
          control_server = some server;
        } in
        let idle : Inv b = record {
          signals_open = make_signal-AreOpen "control" a.signals i.signals_open;
          http = i.http;
          voice = i.voice;
          control = record {
            if_running = λ r. absurd (ground arith);
            served = start-IsFree answers a.distribution certified;
          };
        } in
        control_started-Inv answer server b idle refl (start_free answers a.distribution)
          (start-Returns answers a.distribution certified))

pub stop_free :
    (c : ControlServer)
    → IsStoppable c
    → ((stop true c).0 ≡ done none) × ((stop true c).1.is_running ≡ false)
unfolding stop
stop_free c free = ground arith

stop_known_control-Inv :
    (a : Application)
    → Inv a
    → (c : ControlServer) × (a.control_server ≡ some c) × IsStoppable c
    → Returns Inv (stop_known_control true a)
unfolding stop_known_control
stop_known_control-Inv a i (c, k, free) =
    Option_rule (Returns Inv) a.control_server _ _
      (λ absent. record {
        signals_open = i.signals_open;
        http = i.http;
        voice = i.voice;
        control = record { if_running = λ e. cc; served = i.control.served };
      })
      (λ d known.
        let same : c ≡ d = ground arith in
        let answered : (stop true d).0 ≡ done none =
          (stop_free d (subst IsStoppable same free)).0 in
        rw answered (record {
          signals_open = i.signals_open;
          http = i.http;
          voice = i.voice;
          control = record {
            if_running = λ e. cc;
            served = stop-IsFree d (subst IsFree known i.control.served);
          };
        }))

-- A goroutine that serves, and comes back, can be stopped as before.
pub serve_client_lem :
    (fails : Bool) (c : ControlServer) → IsStoppable c → IsStoppable (serve_client fails c).1
unfolding serve_client serve_returned
serve_client_lem fails c free = ground arith

pub serve_control_lem :
    (fails : Bool) (c : ControlServer) → IsStoppable c → IsStoppable (serve_control fails c).1
unfolding serve_control serve_returned
serve_control_lem fails c free = ground arith

pub serve_client-IsFree :
    (fails : Bool) (c : ControlServer) → IsFree (some c) → IsFree (some (serve_client fails c).1)
unfolding serve_client serve_returned
serve_client-IsFree fails c free s = ground (arith, free)

pub serve_control-IsFree :
    (fails : Bool) (c : ControlServer) → IsFree (some c) → IsFree (some (serve_control fails c).1)
unfolding serve_control serve_returned
serve_control-IsFree fails c free s = ground (arith, free)

-- On a gRPC server that is there it comes back.
pub serve_client_ends :
    (fails : Bool) (c : ControlServer)
    → c.has_client_grpc_server ≡ true
    → IsFree (some c)
    → (serve_client fails c).0 ≡ done tt
unfolding serve_client serve_returned
serve_client_ends fails c there free = ground (arith, free)

pub serve_control_ends :
    (fails : Bool) (c : ControlServer)
    → c.has_control_grpc_server ≡ true
    → IsFree (some c)
    → (serve_control fails c).0 ≡ done tt
unfolding serve_control serve_returned
serve_control_ends fails c there free = ground (arith, free)

-- Nor does a stop of it.
pub stop_control_server-Inv : (a : Application) → Inv a → Returns Inv (stop_control_server true a)
unfolding stop_control_server
stop_control_server-Inv a i =
    if_rule (Returns Inv) (not a.admin.control_status.is_running) _ _
      (λ e. record {
        signals_open = i.signals_open;
        http = i.http;
        voice = i.voice;
        control = i.control;
      })
      (λ e.
        let (s, closed, still_open, _) = close_signal_lem "control" a.signals i.signals_open in
        rw closed (
          stop_known_control-Inv (record a { signals = s })
            (record {
              signals_open = still_open;
              http = i.http;
              voice = i.voice;
              control = i.control;
            })
            (i.control.if_running (ground arith))))
