-- ===== src/State/Settings/File.antt =====
-- What is saved is what is loaded.
use vcs_srs_server.Disk.{Disk, failed, not_exist, read_file, read_file-write_file}
use vcs_srs_server.State.Settings.{
  IsYaml, SettingsState, Yaml, default_settings, get_settings_state, save,
}
use vcs_srs_server.Base.{
  String, ◌≡◌, sym, ◌∙◌, inl, inr, false, none, some, arith, nat_eq, string_eq, Option-cases,
  lookup,
}

module _ (y : Yaml) (laws : IsYaml y) where
  -- Settings that were saved to a readable file are loaded from it as they were, without an error,
  -- and loading them writes nothing.
  pub get-save :
      (s : SettingsState) (d e : Disk)
      → d.read_fails s.file ≡ false
      → save y s d ≡ some e
      → get_settings_state y s.file e ≡ record { settings = some s; is_error = false; disk = e }
  unfolding get_settings_state save
  get-save s d e readable w = elim (Option-cases (y.marshal s.saved)) [
    | inl p ↦ absurd (ground arith)
    | inr (text, p) ↦
        ground (arith, read_file-write_file d e s.file text readable, laws.read_back s.saved text)
  ]

  missing : (d : Disk) (f : String) → lookup f d.files ≡ none → read_file d f ≡ failed not_exist
  unfolding read_file
  missing d f h = ground arith

  -- The first start on a missing file writes the defaults and returns them; the next start reads
  -- the same settings back and leaves the disk alone.
  pub get_settings_twice :
      (f : String) (d e : Disk)
      → lookup f d.files ≡ none
      → d.read_fails f ≡ false
      → save y (default_settings f) d ≡ some e
      → (get_settings_state y f d
          ≡ record { settings = some (default_settings f); is_error = false; disk = e })
        × (get_settings_state y f e ≡ get_settings_state y f d)
  unfolding get_settings_state default_settings
  get_settings_twice f d e absent readable w =
      let first : get_settings_state y f d
          ≡ record { settings = some (default_settings f); is_error = false; disk = e } =
        ground (arith, missing d f absent) in
      (first, get-save (default_settings f) d e readable w ∙ sym first)
