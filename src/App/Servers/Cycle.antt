-- ===== src/App/Servers/Cycle.antt =====
-- StartServer, and a StopServer that follows it: after the goroutines, or before.
use vcs_srs_server.App.Servers.Reach.{Ends-of_Returns, Reach, Reach-Inv, stop_server-Inv}
use vcs_srs_server.Srs.Auth.{DistributionMode, done, standalone_mode}
use vcs_srs_server.App.Signals.{close_signal_lem}
use vcs_srs_server.App.Servers.{AdminState, Application, running, spawned, stopped}
use vcs_srs_server.Control.Server.{StartAnswers}
use vcs_srs_server.App.Servers.Control.{stop_control_server, stop_known_control}
use vcs_srs_server.App.Servers.Voice.{stop_voice_server}
use vcs_srs_server.App.Servers.Http.{stop_http_server}
use vcs_srs_server.App.Servers.Commands.{
  StopAnswers, is_any_running, start_standalone_server, stop_server,
}
use vcs_srs_server.App.Servers.ControlSteps.{stop_free}
use vcs_srs_server.App.Servers.Invariant.{Inv, Returns, Returns-result}
use vcs_srs_server.App.Servers.Stopping.{AllSeen}
use vcs_srs_server.App.Servers.Races.{
  ServesVoice, http_started, run_http, run_http_lem, run_voice, run_voice_lem, voice_started,
  voice_started-ServesVoice,
}
use vcs_srs_server.App.Servers.Launch.{
  IsReady, all_started, all_started-Inv, all_started-IsLaunched, all_started_lem,
}
use vcs_srs_server.Base.{
  suc, ◌≡◌, refl, ap, ◌∙◌, true, false, none, some, arith, nat_eq, string_eq, lookup,
}

-- The three servers run, by their status, which shows no error, and serve.
abbrev pub all_up : AdminState → AllSeen
all_up s = record {
  http = record { status = running s.http_status; serves = true };
  voice = record { status = running s.voice_status; serves = true };
  control = record { status = running s.control_status; serves = true };
}

-- And the three are stopped.
abbrev pub all_down : AdminState → AllSeen
all_down s = record {
  http = record { status = stopped s.http_status; serves = false };
  voice = record { status = stopped s.voice_status; serves = false };
  control = record { status = stopped s.control_status; serves = false };
}

-- What a stop does before the goroutines have run.
stop_server_early :
    (at_stop : StopAnswers) (b : Application)
    → at_stop.calls_end ≡ true
    → Inv b
    → b.distribution ≡ standalone_mode
    → b.admin.http_status.is_running ≡ false
    → b.admin.voice_status.is_running ≡ false
    → b.admin.control_status.is_running ≡ true
    → Returns
        (λ c.
          (is_any_running c ≡ false)
          × (c.voice_tasks ≡ b.voice_tasks)
          × (c.http_tasks ≡ b.http_tasks)
          × (c.admin ≡ record b.admin { control_status = stopped b.admin.control_status }))
        (stop_server at_stop b)
unfolding stop_server stop_voice_server stop_http_server stop_control_server stop_known_control
stop_server_early at_stop b calls i mode http voice control =
    let (s, closed, still_open, _) = close_signal_lem "control" b.signals i.signals_open in
    let (c, k, free) = i.control.if_running control in
    let answered = stop_free c free in ground arith

-- A StopServer that comes before the goroutines of a StartServer have run, and for which the gRPC calls
-- under way come to an end, is lost on the voice and the
-- HTTP server: no server runs after it, by their status, but as soon as the goroutines run, both do.
pub early_stop_is_lost :
    {mode : DistributionMode} {a : Application} (answers : StartAnswers) (at_stop : StopAnswers)
    → Reach mode a
    → IsReady answers a
    → at_stop.close_fails ≡ false
    → at_stop.calls_end ≡ true
    → (b : Application) × (c : Application) × (d : Application) × (e : Application)
      × (start_standalone_server answers a ≡ done b)
      × (stop_server at_stop b ≡ done c)
      × (is_any_running c ≡ false)
      × (lookup a.next c.voice_tasks ≡ some (suc a.signals.made, spawned))
      × (lookup (suc a.next) c.http_tasks ≡ some spawned)
      × (run_voice a.next (suc a.signals.made) none c ≡ done d)
      × (run_http (suc a.next) none d ≡ done e)
      × (e.admin.voice_status.is_running ≡ true)
      × (e.admin.http_status.is_running ≡ true)
      × ServesVoice e
early_stop_is_lost {a} answers at_stop reach r closes calls =
    let i = all_started-Inv answers a r (Reach-Inv reach) in
    let b = all_started answers a in
    let (voice_at, http_at, admin, mode) = all_started-IsLaunched answers a r in
    let was_idle : (a.admin.http_status.is_running ≡ false)
        × (a.admin.voice_status.is_running ≡ false) =
      ground (arith, r.idle) in
    let early =
      stop_server_early at_stop b calls i mode
        (ap (λ s. s.http_status.is_running) admin ∙ was_idle.0)
        (ap (λ s. s.voice_status.is_running) admin ∙ was_idle.1)
        (ap (λ s. s.control_status.is_running) admin) in
    let (c, ends) = Ends-of_Returns _ (stop_server-Inv at_stop b closes calls i) in
    let (idle, voices, https, status) = Returns-result _ _ c early ends in
    let ch = suc a.signals.made in
    let d = voice_started a.next ch c in
    (
      b,
      c,
      d,
      http_started (suc a.next) d,
      all_started_lem answers a r,
      ends,
      idle,
      ap (lookup a.next) voices ∙ voice_at,
      ap (lookup (suc a.next)) https ∙ http_at,
      run_voice_lem a.next ch c,
      run_http_lem (suc a.next) d,
      refl,
      refl,
      voice_started-ServesVoice a.next ch c,
    )
