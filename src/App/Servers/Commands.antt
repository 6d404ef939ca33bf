-- ===== src/App/Servers/Commands.antt =====
-- app/app.go, services/server_control.go, headless.go: the start of the application, and the commands
-- that start and stop the servers.
use vcs_srs_server.Srs.Auth.{
  Attempt, DistributionMode, control_mode, done, panicked, standalone_mode, voice_mode,
}
use vcs_srs_server.State.Settings.{Yaml, get_settings_state}
use vcs_srs_server.State.Bans.{Json, start_bans}
use vcs_srs_server.Control.Server.{StartAnswers}
use vcs_srs_server.App.{App}
use vcs_srs_server.App.Signals.{no_signals}
use vcs_srs_server.App.Servers.{AdminState, Application, ServiceStatus, and_then}
use vcs_srs_server.App.Servers.Http.{start_http_server, stop_http_server}
use vcs_srs_server.App.Servers.Voice.{start_voice_server, stop_voice_server}
use vcs_srs_server.App.Servers.Control.{start_grpc_server, stop_control_server}
use vcs_srs_server.Events.{EventBus, new_event_bus, notification_event, subscribe}
use vcs_srs_server.Disk.{Disk}
use vcs_srs_server.Base.{
  String, Bool, true, false, ◌||◌, Option, none, some, [], returns, panics, if◌then◌else◌, ◌==◌,
  nat_eq, string_eq,
}

abbrev pub is_any_running : Application → Bool
is_any_running a =
    a.admin.http_status.is_running || a.admin.voice_status.is_running
    || a.admin.control_status.is_running

-- StartStandaloneServer, which is StartServer of the ControlService.
unfoldable pub start_standalone_server : StartAnswers → Application → Attempt Application
start_standalone_server answers a =
    if is_any_running a
    then done a
    else and_then (start_grpc_server answers a)
        (λ b. done (start_http_server (start_voice_server b)))

-- StartControlServer
unfoldable pub start_control_node : StartAnswers → Application → Attempt Application
start_control_node answers a =
    if a.admin.control_status.is_running
    then done a
    else and_then (start_grpc_server answers a) (λ b. done (start_http_server b))

-- StartVoiceServer
unfoldable pub start_voice_node : Application → Attempt Application
start_voice_node a = if a.admin.voice_status.is_running then done a else done (start_voice_server a)

-- The last switch of HeadlessStartup.
abbrev pub start_node : StartAnswers → Application → DistributionMode → Attempt Application
start_node answers a standalone_mode = start_standalone_server answers a
start_node answers a control_mode = start_control_node answers a
start_node answers a voice_mode = start_voice_node a

-- What http.Server.Shutdown answers, the error of the socket of the voice server, if any, and whether
-- the gRPC calls under way come to an end.
pub record StopAnswers : Type 0 where
  pub shutdown : Option String
  pub close_fails : Bool
  pub close_error : String
  pub calls_end : Bool

abbrev pub has_voice : DistributionMode → Bool
has_voice standalone_mode = true
has_voice control_mode = false
has_voice voice_mode = true

abbrev pub has_control : DistributionMode → Bool
has_control standalone_mode = true
has_control control_mode = true
has_control voice_mode = false

abbrev pub stop_voice_part : StopAnswers → Application → Attempt Application
stop_voice_part answers a =
    if has_voice a.distribution
    then stop_voice_server answers.close_fails answers.close_error a
    else done a

abbrev pub stop_control_part : StopAnswers → Application → Attempt Application
stop_control_part answers a =
    if has_control a.distribution
    then and_then (stop_http_server answers.shutdown a) (stop_control_server answers.calls_end)
    else done a

-- StopServer
unfoldable pub stop_server : StopAnswers → Application → Attempt Application
stop_server answers a =
    if is_any_running a
    then and_then (stop_voice_part answers a) (stop_control_part answers)
    else done a

-- GetServerStatus and GetServerVersion
unfoldable pub get_server_status : Application → AdminState
get_server_status a = a.admin

unfoldable pub get_server_version : String
get_server_version = "v0.1.0"

-- New: the bus of the application, with its two subscriptions.
unfoldable pub new_bus : EventBus
new_bus = subscribe "*" (subscribe notification_event new_event_bus)

abbrev pub not_started : Bool → ServiceStatus
not_started is_needed = record { is_running = false; is_needed = is_needed; error = "" }

unfoldable pub admin_of : DistributionMode → AdminState
admin_of mode = record {
  http_status = not_started (has_control mode);
  voice_status = not_started (has_voice mode);
  control_status = not_started (has_control mode);
}

abbrev pub idle_application : DistributionMode → App → Application
idle_application mode app = record {
  app = app;
  admin = admin_of mode;
  distribution = mode;
  signals = no_signals;
  https = [];
  http_server = none;
  http_tasks = [];
  voices = [];
  voice_server = none;
  voice_tasks = [];
  control_server = none;
  next = 0;
}

module _ (y : Yaml) (j : Json) where
  -- What StartUp and HeadlessStartup load: settings that cannot be read, and bans that can be neither
  -- read nor made, are a panic.
  unfoldable pub load_application : DistributionMode → String → String → Disk → Attempt Application
  load_application mode config_file banned_file d =
      let loaded = get_settings_state y config_file d in
      let (bans, e) = start_bans j banned_file loaded.disk in
      if loaded.is_error then panicked else elim loaded.settings [
        | none ↦ panicked
        | some settings ↦ elim bans [
          | panics ↦ panicked
          | returns b ↦ done (
              idle_application mode (record {
                state = record { clients = []; radio_clients = []; banned_state = b };
                settings = settings;
                disk = e;
                bus = new_bus;
                window = [];
              }))
        ]
      ]

  -- StartUp
  unfoldable pub start_up : StartAnswers → Bool → String → String → Disk → Attempt Application
  start_up answers auto_start config_file banned_file d =
      and_then (load_application standalone_mode config_file banned_file d)
        (λ a. if auto_start then start_standalone_server answers a else done a)

  -- HeadlessStartup
  unfoldable pub headless_startup :
      StartAnswers → DistributionMode → String → String → Disk → Attempt Application
  headless_startup answers mode config_file banned_file d =
      and_then (load_application mode config_file banned_file d) (λ a. start_node answers a mode)

-- The flag `mode` of headless.go; `none` is an error that ends the program.
unfoldable pub distribution_mode_of : String → Option DistributionMode
distribution_mode_of flag =
    if flag == "standalone"
    then some standalone_mode
    else if flag == "control"
    then some control_mode
    else if flag == "voice"
    then some voice_mode
    else none
