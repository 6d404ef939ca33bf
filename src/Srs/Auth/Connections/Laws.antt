-- ===== src/Srs/Auth/Connections/Laws.antt =====
-- Which plugins a server is connected to after its start.
use vcs_srs_server.Srs.Auth.{PluginClient}
use vcs_srs_server.State.Settings.{
  PluginSettings, SettingsState, find_plugin, get_all_plugin_names, get_plugin_address,
  get_plugin_configuration, set_plugin_enabled,
}
use vcs_srs_server.State.Settings.Plugins.{
  set_plugin_enabled-eq-none, set_plugin_enabled_lem, switched,
}
use vcs_srs_server.Srs.Auth.Connections.{
  Clients, Reached, configure_plugin, configured, connect_client, connect_plugin, initialize_all,
  initialize_client, initialize_plugin_clients, switch_plugin,
}
use vcs_srs_server.Base.{
  String, ◌≡◌, refl, inl, inr, Bool, true, false, not, ◌&&◌, Option, none, some, List, [], ◌∷◌,
  arith, eq_iff, if◌then◌else◌, ◌==◌, nat_eq, string_eq, Option-cases, contains, Map, lookup,
  lookup-insert,
}

abbrev pub found : String → SettingsState → Option PluginSettings
found name s = find_plugin name s.security.plugins

abbrev is_nil : Option (Map String String) → Bool
is_nil none = true
is_nil (some _) = false

-- It has a configuration and an address.
abbrev pub is_usable : Option PluginSettings → Bool
is_usable none = false
is_usable (some p) = not (is_nil p.configuration) && not (p.address == "")

abbrev pub connects : Reached → Bool
connects r = not r.dial_fails && elim r.configure_answer [ configured ↦ true | _ ↦ false ]

-- A plugin that is there is switched.
switch_lem :
    (name other : String) (enabled : Bool) (s : SettingsState) (p : PluginSettings)
    → found name s ≡ some p
    → let (error, t) = switch_plugin name enabled s in
      (error ≡ false)
      × (found other t
          ≡ (if name == other then switched enabled (found other s) else found other s))
unfolding switch_plugin
switch_lem name other enabled s p h = elim (Option-cases (set_plugin_enabled name enabled s)) [
  | inl e ↦ absurd (ground (arith, (set_plugin_enabled-eq-none name enabled s).0 e))
  | inr (t, e) ↦
      let (_, _, _, at_other) = set_plugin_enabled_lem name other enabled s t e in ground arith
]

module _ (reach : String → Reached) (logins : String → PluginClient) where
  connect_client_lem :
      (name other : String) (s : SettingsState) (clients : Clients) (p : PluginSettings)
      → found name s ≡ some p
      → let after = connect_client reach logins name (s, clients) in
        (found other after.0 ≡ (
          if name == other
          then switched (connects (reach name)) (found other s)
          else found other s))
        × (lookup other after.1 ≡ (
            if name == other && connects (reach name)
            then some (logins name)
            else lookup other clients))
  unfolding connect_client connect_plugin configure_plugin
  connect_client_lem name other s clients p h =
      let on = switch_lem name other true s p h in
      let off = switch_lem name other false s p h in
      let put = lookup-insert name other (logins name) clients in ground arith

  -- The round of a name, for any name.
  initialize_client_lem :
      (name other : String) (s : SettingsState) (clients : Clients)
      → let after = initialize_client reach logins name (s, clients) in
        (found other after.0 ≡ (
          if name == other && is_usable (found other s)
          then switched (connects (reach other)) (found other s)
          else found other s))
        × (lookup other after.1 ≡ (
            if name == other && (is_usable (found other s) && connects (reach other))
            then some (logins other)
            else lookup other clients))
  unfolding initialize_client get_plugin_configuration get_plugin_address
  initialize_client_lem name other s clients = elim (Option-cases (found name s)) [
    | inl h ↦ ground (arith, eq_iff name other)
    | inr (p, h) ↦
        let here = connect_client_lem name other s clients p h in ground (arith, eq_iff name other)
  ]

  usable-switched : (b : Bool) (o : Option PluginSettings) → is_usable (switched b o) ≡ is_usable o
  usable-switched b none = refl
  usable-switched b (some p) = refl

  switched_twice : (b : Bool) (o : Option PluginSettings) → switched b (switched b o) ≡ switched b o
  switched_twice b none = refl
  switched_twice b (some p) = refl

  initialize_all_lem :
      (names : List String) (other : String) (s : SettingsState) (clients : Clients)
      → let after = initialize_all reach logins names (s, clients) in
        (found other after.0 ≡ (
          if contains names other && is_usable (found other s)
          then switched (connects (reach other)) (found other s)
          else found other s))
        × (lookup other after.1 ≡ (
            if contains names other && (is_usable (found other s) && connects (reach other))
            then some (logins other)
            else lookup other clients))
  unfolding initialize_all
  initialize_all_lem [] other s clients = (refl, refl)
  initialize_all_lem (name ∷ names) other s clients =
      let (t, rest) = initialize_client reach logins name (s, clients) in
      let here = initialize_client_lem name other s clients in
      let later = initialize_all_lem names other t rest in
      let ok = connects (reach other) in
      ground (arith, usable-switched ok (found other s), switched_twice ok (found other s))

  -- After the start of the server, a login plugin has a client exactly where its name is among those
  -- of the enabled plugins, it has a configuration, be it empty, and an address, the connection comes about and the
  -- plugin accepts its configuration. Of the plugins that have a configuration and an address, those
  -- that do not come about are switched off; every other plugin stays as it was, the enabled ones
  -- without a configuration or address among them.
  pub initialize_plugin_clients_lem :
      (name : String) (s : SettingsState)
      → let after = initialize_plugin_clients reach logins s in
        let is_tried = contains (get_all_plugin_names s) name && is_usable (found name s) in
        (found name after.0
          ≡ (if is_tried then switched (connects (reach name)) (found name s) else found name s))
        × (lookup name after.1
            ≡ (if is_tried && connects (reach name) then some (logins name) else none))
  unfolding initialize_plugin_clients lookup
  initialize_plugin_clients_lem name s =
      let all = initialize_all_lem (get_all_plugin_names s) name s [] in ground arith
