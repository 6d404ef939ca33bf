-- ===== src/Tests/Servers.antt =====
-- A standalone application over two clients, and a control server that cannot listen.
use vcs_srs_server.Disk.{Disk, is_missing, read_file, write_file}
use vcs_srs_server.State.Bans.{
  ensure_ban_file_exists, get_banned_state, start_bans, save as save_bans,
}
use vcs_srs_server.Voice.Server.{Server, listen, new_server}
use vcs_srs_server.App.Servers.Reach.{
  Ends, Reach, Next, later, loaded, takes, start_next, http_next, reachable_never_panics,
}
use vcs_srs_server.Srs.Auth.{Attempt, done, panicked, standalone_mode, voice_mode}
use vcs_srs_server.State.Server.{BannedState}
use vcs_srs_server.State.Settings.{default_settings, get_settings_state, save}
use vcs_srs_server.App.{App}
use vcs_srs_server.App.Signals.{no_signals-AreOpen}
use vcs_srs_server.App.Servers.{Application, failed, notify_all, spawned}
use vcs_srs_server.Control.Health.{new_full_health_server, service_unknown, serving}
use vcs_srs_server.Control.Server.{ControlServer, StartAnswers, new_control_server, start}
use vcs_srs_server.Control.Server.Laws.{StartResult, start_result}
use vcs_srs_server.Control.Server.Monitor.{Look, Reports, monitor_health, monitor_health_lem}
use vcs_srs_server.App.Servers.Voice.{start_voice_server, stop_voice_server}
use vcs_srs_server.App.Servers.Http.{http_task}
use vcs_srs_server.App.Servers.Commands.{
  StopAnswers, admin_of, headless_startup, idle_application, is_any_running,
  start_standalone_server, stop_server,
}
use vcs_srs_server.App.Servers.Invariant.{Returns}
use vcs_srs_server.App.Servers.Races.{
  ServesVoice, failed_stop_then_panics, run_http, run_voice, second_start_hides_first,
  voice_started,
}
use vcs_srs_server.App.Servers.Launch.{
  IsReady, all_started, all_started-IsLaunched, all_started_lem,
}
use vcs_srs_server.App.Servers.Cycle.{early_stop_is_lost}
use vcs_srs_server.App.Servers.Startup.{HasLoaded, StartsNeeded, headless_startup_lem}
use vcs_srs_server.Tests.Packages.{plain_json}
use vcs_srs_server.Tests.Yaml.{marshal, plain_yaml}
use vcs_srs_server.Tests.VoiceServer.{quiet, two_known}
use vcs_srs_server.Tests.RadioServer.{empty_bus}
use vcs_srs_server.Base.{
  suc, String, ◌≡◌, refl, true, false, none, some, [], ◌∷◌, ◌++◌, returns, nat_eq, string_eq,
  lookup, insert,
}

abbrev bans_disk : Disk
bans_disk = record {
  files = ("bans.json", "") ∷ [];
  read_fails = λ f. false;
  write_fails = λ f. false;
}

abbrev served : App
served = record {
  state = two_known;
  settings = quiet;
  disk = bans_disk;
  bus = empty_bus;
  window = [];
}

abbrev idle_app : Application
idle_app = idle_application standalone_mode served

abbrev all_well : StartAnswers
all_well = record { client_listen = none; control_listen = none; has_certificate = true }

abbrev in_use : StartAnswers
in_use = record {
  client_listen = some "address in use";
  control_listen = none;
  has_certificate = true;
}

abbrev clean_stop : StopAnswers
clean_stop = record { shutdown = none; close_fails = false; close_error = ""; calls_end = true }

idle_app-IsReady : IsReady all_well idle_app
unfolding admin_of lookup
idle_app-IsReady = record { mode = refl; idle = refl; quiet = λ task ch p h. cc; listens = refl }

abbrev launched : Application
launched = all_started all_well idle_app

launched-Reach : Reach standalone_mode launched
launched-Reach = later (loaded served) (
    takes (start_next all_well refl (idle_app-IsReady.quiet))
      (all_started_lem all_well idle_app idle_app-IsReady))

abbrev fresh_http : Attempt Application
fresh_http = http_task 1 spawned none launched

launched-Next : Next launched fresh_http
launched-Next =
    http_next 1 spawned none (all_started-IsLaunched all_well idle_app idle_app-IsReady).1

abbrev with_voice_up : Application
with_voice_up = voice_started 5 0 idle_app

abbrev bound_voice : Server
bound_voice = listen new_server

knows_voice : lookup 0 with_voice_up.voices ≡ some bound_voice
unfolding lookup insert
knows_voice = refl

voice_runs : bound_voice.running ≡ true
unfolding listen
voice_runs = refl

voice_open : bound_voice.stop_closed ≡ false
unfolding listen new_server
voice_open = refl

voice_bound : bound_voice.bound ≡ true
unfolding listen
voice_bound = refl

abbrev new_standalone : ControlServer
new_standalone = new_control_server standalone_mode

not_running : new_standalone.is_running ≡ false
unfolding new_control_server
not_running = refl

voice_idle : idle_app.admin.voice_status.is_running ≡ false
unfolding admin_of
voice_idle = refl

not_locked : new_standalone.locked ≡ false
unfolding new_control_server
not_locked = refl

refuses : (start in_use new_standalone).0 ≡ done (some "failed to listen: address in use")
unfolding start new_control_server
refuses = refl

abbrev good_look : Look
good_look = record {
  is_running = true;
  srs_status = serving;
  auth_status = serving;
  control_status = serving;
}

abbrev bad_look : Look
bad_look = record good_look { auth_status = service_unknown }

abbrev last_look : Look
last_look = record good_look { is_running = false }

abbrev settings_file : String
settings_file = "settings.yaml"

abbrev given_bans : BannedState
given_bans = record { banned_clients = []; file = "bans.json" }

no_error : (get_settings_state plain_yaml settings_file bans_disk).is_error ≡ false
unfolding get_settings_state read_file lookup save write_file default_settings marshal
no_error = refl

finds_defaults :
    (get_settings_state plain_yaml settings_file bans_disk).settings
    ≡ some (default_settings settings_file)
unfolding get_settings_state read_file lookup save write_file default_settings marshal
finds_defaults = refl

finds_bans :
    (start_bans plain_json "bans.json"
      (get_settings_state plain_yaml settings_file bans_disk).disk).0
    ≡ returns given_bans
unfolding get_settings_state read_file lookup save write_file start_bans get_banned_state
    ensure_ban_file_exists is_missing insert default_settings save_bans marshal
finds_bans = refl

reachable_never_panics_example : Ends fresh_http
reachable_never_panics_example = reachable_never_panics launched-Reach launched-Next

early_stop_is_lost_example :
    (b : Application) × (c : Application) × (d : Application) × (e : Application)
    × (start_standalone_server all_well idle_app ≡ done b)
    × (stop_server clean_stop b ≡ done c)
    × (is_any_running c ≡ false)
    × (lookup idle_app.next c.voice_tasks ≡ some (suc idle_app.signals.made, spawned))
    × (lookup (suc idle_app.next) c.http_tasks ≡ some spawned)
    × (run_voice idle_app.next (suc idle_app.signals.made) none c ≡ done d)
    × (run_http (suc idle_app.next) none d ≡ done e)
    × (e.admin.voice_status.is_running ≡ true)
    × (e.admin.http_status.is_running ≡ true)
    × ServesVoice e
early_stop_is_lost_example =
    early_stop_is_lost all_well clean_stop (loaded served) idle_app-IsReady refl refl

second_start_hides_first_example :
    let ch = idle_app.signals.made in
    let both = start_voice_server (start_voice_server idle_app) in
    (lookup idle_app.next both.voice_tasks ≡ some (ch, spawned))
    × (lookup (suc idle_app.next) both.voice_tasks ≡ some (suc ch, spawned))
    × ((b : Application) × (c : Application) × (run_voice idle_app.next ch none both ≡ done b)
        × (run_voice (suc idle_app.next) (suc ch) (some "address in use") b ≡ done c)
        × (c.admin.voice_status ≡ failed "address in use" idle_app.admin.voice_status)
        × (c.voice_server ≡ some (suc both.next))
        × (lookup both.next c.voices ≡ some (listen new_server))
        × (stop_voice_server false "address in use" c
            ≡ done (notify_all "Voice server error" "Voice server is not running" "warning" c)))
second_start_hides_first_example = second_start_hides_first "address in use" idle_app voice_idle

failed_stop_then_panics_example :
    (b : Application) × (stop_voice_server true "closed" with_voice_up ≡ done b)
    × (b.admin.voice_status ≡ record with_voice_up.admin.voice_status { error = "closed" })
    × (stop_voice_server false "closed" b ≡ panicked)
failed_stop_then_panics_example =
    failed_stop_then_panics "closed" false with_voice_up 0 bound_voice no_signals-AreOpen refl refl
      knows_voice voice_runs voice_open voice_bound

headless_startup_lem_example :
    Returns
      (λ b. StartsNeeded b × HasLoaded (default_settings settings_file) given_bans b)
      (headless_startup plain_yaml plain_json all_well voice_mode settings_file "bans.json"
        bans_disk)
headless_startup_lem_example =
    headless_startup_lem plain_yaml plain_json all_well voice_mode settings_file "bans.json"
      bans_disk (default_settings settings_file) given_bans (refl, refl, refl) no_error
      finds_defaults finds_bans

start_result_example : StartResult in_use new_standalone (start in_use new_standalone).0
start_result_example = start_result in_use new_standalone not_locked not_running

monitor_health_lem_example :
    Reports false new_full_health_server bad_look (
      monitor_health false ((good_look ∷ []) ++ bad_look ∷ (last_look ∷ [])) new_full_health_server)
monitor_health_lem_example =
    monitor_health_lem false (good_look ∷ []) (last_look ∷ []) bad_look new_full_health_server
      (refl, tt) refl (refl, tt)
