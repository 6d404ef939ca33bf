-- ===== src/Srs/Auth/Connections.antt =====
-- srs/plugin_client.go: connecting to the login plugins, and srs/auth_service.go:
-- initializePluginClients. What gRPC and the plugins answer are parameters.
pub mod Laws
use vcs_srs_server.State.Settings.{
  SettingsState, get_all_plugin_names, get_plugin_address, get_plugin_configuration,
  set_plugin_enabled,
}
use vcs_srs_server.Srs.Auth.{PluginClient}
use vcs_srs_server.Base.{
  String, Bool, true, false, not, none, some, List, [], ◌∷◌, if◌then◌else◌, ◌==◌, nat_eq, string_eq,
  Map, insert,
}

-- What Configure answers.
pub data ConfigureAnswer : Type 0 where
  configure_failed configure_refused : String → ConfigureAnswer
  configured : ConfigureAnswer

-- What a connection meets: whether grpc.NewClient fails, and the answer of the plugin.
pub record Reached : Type 0 where
  pub dial_fails : Bool
  pub configure_answer : ConfigureAnswer

-- Whether there is an error, and the settings; a plugin of that name that is not there is an error.
unfoldable pub switch_plugin : String → Bool → SettingsState → Bool × SettingsState
switch_plugin name enabled s = elim (set_plugin_enabled name enabled s) [
  | none ↦ (true, s)
  | some t ↦ (false, t)
]

-- configurePlugin
unfoldable pub configure_plugin : ConfigureAnswer → String → SettingsState → Bool × SettingsState
configure_plugin (configure_failed e) name s = (true, s)
configure_plugin (configure_refused e) name s = (true, s)
configure_plugin configured name s = switch_plugin name true s

-- ConnectPlugin
unfoldable pub connect_plugin : Reached → String → SettingsState → Bool × SettingsState
connect_plugin r name s =
    if r.dial_fails then (true, s) else configure_plugin r.configure_answer name s

-- What the goroutine of establishConnection does on a connection that has become idle: whether it
-- starts a reconnection, and the settings.
unfoldable pub plugin_became_idle : String → SettingsState → Bool × SettingsState
plugin_became_idle name s = let (error, t) = switch_plugin name false s in (not error, t)

abbrev pub Clients : Type 0
Clients = Map String PluginClient

module _ (reach : String → Reached) (logins : String → PluginClient) where
  -- From ConnectPlugin on.
  unfoldable pub connect_client : String → SettingsState × Clients → SettingsState × Clients
  connect_client name (s, clients) =
      let (error, t) = connect_plugin (reach name) name s in
      if error
      then ((switch_plugin name false t).1, clients)
      else (t, insert name (logins name) clients)

  -- One round of the loop.
  unfoldable pub initialize_client : String → SettingsState × Clients → SettingsState × Clients
  initialize_client name (s, clients) = elim (get_plugin_configuration name s) [
    | none ↦ (s, clients)
    | some none ↦ (s, clients)
    | some (some configuration) ↦ elim (get_plugin_address name s) [
      | none ↦ (s, clients)
      | some address ↦ if address == "" then (s, clients) else connect_client name (s, clients)
    ]
  ]

  unfoldable pub initialize_all : List String → SettingsState × Clients → SettingsState × Clients
  initialize_all [] p = p
  initialize_all (name ∷ names) p = initialize_all names (initialize_client name p)

  unfoldable pub initialize_plugin_clients : SettingsState → SettingsState × Clients
  initialize_plugin_clients s = initialize_all (get_all_plugin_names s) (s, [])
