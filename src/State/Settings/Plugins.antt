-- ===== src/State/Settings/Plugins.antt =====
-- Switching a plugin on and off.
use vcs_srs_server.State.Settings.{
  PluginSettings, SettingsState, enable_first, find_plugin, get_plugin_address,
  get_plugin_configuration, is_plugin_enabled, set_plugin_enabled,
}
use vcs_srs_server.Base.{
  String, ◌≡◌, refl, ◌↔◌, inl, inr, Bool, Option, none, some, List, [], ◌∷◌, arith, eq_iff,
  if◌then◌else◌, ◌==◌, nat_eq, string_eq, Option-cases,
}

-- What a lookup finds after the switch.
abbrev pub switched : Bool → Option PluginSettings → Option PluginSettings
switched enabled none = none
switched enabled (some p) = some (record p { enabled = enabled })

find_plugin-enable_first :
    (name other : String) (enabled : Bool) (ps qs : List PluginSettings)
    → enable_first name enabled ps ≡ some qs
    → find_plugin other qs
      ≡ (if name == other then switched enabled (find_plugin other ps) else find_plugin other ps)
unfolding enable_first find_plugin
find_plugin-enable_first name other enabled [] qs h = cc
find_plugin-enable_first name other enabled (p ∷ ps) qs h =
    elim (Option-cases (enable_first name enabled ps)) [
      | inl e ↦ ground (arith, eq_iff p.name name, eq_iff p.name other, eq_iff name other)
      | inr (rest, e) ↦ ground (
        arith,
        eq_iff p.name name,
        eq_iff p.name other,
        eq_iff name other,
        find_plugin-enable_first name other enabled ps rest e,
      )
    ]

enable_first-eq-none :
    (name : String) (enabled : Bool) (ps : List PluginSettings)
    → (enable_first name enabled ps ≡ none) ↔ (find_plugin name ps ≡ none)
unfolding enable_first find_plugin
enable_first-eq-none name enabled [] = (λ h. refl, λ h. refl)
enable_first-eq-none name enabled (p ∷ ps) =
    let ih = enable_first-eq-none name enabled ps in
    (λ h. ground (arith, ih.0), λ h. ground (arith, ih.1))

-- A switch fails exactly when no plugin has the name.
pub set_plugin_enabled-eq-none :
    (name : String) (enabled : Bool) (s : SettingsState)
    → (set_plugin_enabled name enabled s ≡ none) ↔ (find_plugin name s.security.plugins ≡ none)
unfolding set_plugin_enabled
set_plugin_enabled-eq-none name enabled s =
    let ih = enable_first-eq-none name enabled s.security.plugins in
    (λ h. ground (arith, ih.0), λ h. ground (arith, ih.1))

-- A switch that succeeds is what IsPluginEnabled then answers for that plugin; its address and
-- configuration, and every other plugin, stay as they were.
pub set_plugin_enabled_lem :
    (name other : String) (enabled : Bool) (s t : SettingsState)
    → set_plugin_enabled name enabled s ≡ some t
    → (is_plugin_enabled name t ≡ enabled)
      × (get_plugin_address name t ≡ get_plugin_address name s)
      × (get_plugin_configuration name t ≡ get_plugin_configuration name s)
      × (find_plugin other t.security.plugins ≡ (
          if name == other
          then switched enabled (find_plugin other s.security.plugins)
          else find_plugin other s.security.plugins))
unfolding set_plugin_enabled is_plugin_enabled get_plugin_address get_plugin_configuration
set_plugin_enabled_lem name other enabled s t h =
    elim (Option-cases (enable_first name enabled s.security.plugins)) [
      | inl e ↦ absurd (ground arith)
      | inr (qs, e) ↦
          let at_name = find_plugin-enable_first name name enabled s.security.plugins qs e in
          let at_other = find_plugin-enable_first name other enabled s.security.plugins qs e in
          let found = (enable_first-eq-none name enabled s.security.plugins).1 in
          (
            ground (arith, eq_iff name name, at_name, found),
            ground (arith, eq_iff name name, at_name, found),
            ground (arith, eq_iff name name, at_name, found),
            ground (arith, eq_iff name other, at_other),
          )
    ]
