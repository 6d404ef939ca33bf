-- ===== src/App/Servers/Startup.antt =====
-- What HeadlessStartup starts.
use vcs_srs_server.Srs.Auth.{
  DistributionMode, control_mode, done, panicked, standalone_mode, voice_mode,
}
use vcs_srs_server.App.{App, emit_event}
use vcs_srs_server.App.Servers.{Application}
use vcs_srs_server.Control.Server.{
  StartAnswers, is_control_server, new_control_server, start, start_serving,
}
use vcs_srs_server.App.Servers.Control.{start_grpc_server}
use vcs_srs_server.App.Servers.Voice.{start_voice_server}
use vcs_srs_server.App.Servers.Http.{start_http_server}
use vcs_srs_server.App.Servers.Commands.{
  admin_of, headless_startup, idle_application, load_application, start_control_node, start_node,
  start_standalone_server, start_voice_node,
}
use vcs_srs_server.App.Servers.Invariant.{Returns}
use vcs_srs_server.State.Settings.{SettingsState, Yaml, get_settings_state}
use vcs_srs_server.State.Bans.{Json, start_bans}
use vcs_srs_server.State.Server.{BannedState}
use vcs_srs_server.Disk.{Disk}
use vcs_srs_server.Base.{
  ℕ, String, ◌≡◌, refl, ◌⊎◌, inl, inr, Bool, true, false, none, some, [], arith, returns, panics,
  if◌then◌else◌, nat_eq, string_eq, Option-cases, length, insert,
}

abbrev count_if : Bool → ℕ
count_if b = if b then 1 else 0

-- Each server that the status shows as needed is started, and no other: the control server runs, and
-- a goroutine of the HTTP and of the voice server is there.
abbrev pub StartsNeeded : Application → Type 0
StartsNeeded b =
    (b.admin.control_status.is_running ≡ b.admin.control_status.is_needed)
    × (length b.http_tasks ≡ count_if b.admin.http_status.is_needed)
    × (length b.voice_tasks ≡ count_if b.admin.voice_status.is_needed)

-- The control server can be started in any mode.
abbrev pub CanListen : StartAnswers → Type 0
CanListen answers =
    (answers.client_listen ≡ none)
    × (answers.control_listen ≡ none)
    × (answers.has_certificate ≡ true)

-- It works on those settings and bans, and has no clients.
abbrev pub HasLoaded : SettingsState → BannedState → Application → Type 0
HasLoaded settings bans b =
    (b.app.settings ≡ settings)
    × (b.app.state ≡ record { clients = []; radio_clients = []; banned_state = bans })

start_any :
    (answers : StartAnswers) (mode : DistributionMode)
    → CanListen answers
    → (start answers (new_control_server mode)).0 ≡ done none
unfolding start start_serving new_control_server is_control_server
start_any answers mode h = ground arith

start_node_lem :
    (answers : StartAnswers) (mode : DistributionMode) (app : App)
    → CanListen answers
    → Returns
        (λ b. StartsNeeded b × ((b.app.settings ≡ app.settings) × (b.app.state ≡ app.state)))
        (start_node answers (idle_application mode app) mode)
unfolding start_standalone_server start_control_node start_voice_node start_grpc_server
    start_http_server start_voice_server admin_of insert emit_event
start_node_lem answers standalone_mode app h =
    rw (start_any answers standalone_mode h) ((refl, refl, refl), (refl, refl))
start_node_lem answers control_mode app h =
    rw (start_any answers control_mode h) ((refl, refl, refl), (refl, refl))
start_node_lem answers voice_mode app h = ((refl, refl, refl), (refl, refl))

module _ (y : Yaml) (j : Json) where
  -- Where the settings and the bans can be loaded, and the control server can be started,
  -- HeadlessStartup comes to an end in each of the three modes: with those settings and bans, no
  -- clients, and exactly those servers started that its status shows as needed.
  pub headless_startup_lem :
      (answers : StartAnswers) (mode : DistributionMode) (config_file banned_file : String)
      (d : Disk) (settings : SettingsState) (bans : BannedState)
      → CanListen answers
      → (get_settings_state y config_file d).is_error ≡ false
      → (get_settings_state y config_file d).settings ≡ some settings
      → (start_bans j banned_file (get_settings_state y config_file d).disk).0 ≡ returns bans
      → Returns
          (λ b. StartsNeeded b × HasLoaded settings bans b)
          (headless_startup y j answers mode config_file banned_file d)
  unfolding headless_startup load_application
  headless_startup_lem answers mode config_file banned_file d settings bans h no_error found held =
      rw (no_error, found, held) (start_node_lem answers mode _ h)

  -- Where the settings cannot be loaded, or the bans can neither be loaded nor made, it panics.
  pub headless_startup_panics :
      (answers : StartAnswers) (mode : DistributionMode) (config_file banned_file : String)
      (d : Disk)
      → ((get_settings_state y config_file d).is_error ≡ true)
        ⊎ ((start_bans j banned_file (get_settings_state y config_file d).disk).0 ≡ panics)
      → headless_startup y j answers mode config_file banned_file d ≡ panicked
  unfolding headless_startup load_application
  headless_startup_panics answers mode config_file banned_file d (inl e) = ground arith
  headless_startup_panics answers mode config_file banned_file d (inr e) =
      ground (arith, Option-cases (get_settings_state y config_file d).settings)
