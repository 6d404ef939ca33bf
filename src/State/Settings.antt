-- ===== src/State/Settings.antt =====
-- state/settings.go: the settings, their defaults, and the file that they are kept in. The package
-- yaml is a parameter. Ports, limits and durations are taken as numbers that are not negative.
pub mod File
pub mod Plugins
use vcs_srs_server.Float32.{Float32, contains_float}
use vcs_srs_server.Disk.{Disk, contents, denied, failed, not_exist, read_file, write_file}
use vcs_srs_server.Base.{
  ℕ, ◌*◌, String, ◌≡◌, Bool, true, false, ◌||◌, Option, none, some, List, [], ◌∷◌, if◌then◌else◌,
  ◌==◌, nat_eq, string_eq, Map,
}

pub record ServerSetting : Type 0 where
  pub host : String
  pub port : ℕ

pub record ServerSettings : Type 0 where
  pub http : ServerSetting
  pub voice : ServerSetting
  pub control : ServerSetting

pub record Coalition : Type 0 where
  pub name : String
  pub description : String
  pub color : String
  pub password : String

pub record FrequencySettings : Type 0 where
  pub test_frequencies : List Float32
  pub global_frequencies : List Float32

pub record GeneralSettings : Type 0 where
  pub max_radios_per_user : ℕ

pub record PluginSettings : Type 0 where
  pub name : String
  pub enabled : Bool
  pub address : String
  -- `none` is a nil map.
  pub configuration : Option (Map String String)

pub record TokenSettings : Type 0 where
  pub expiration : ℕ
  pub private_key_file : String
  pub public_key_file : String
  pub issuer : String
  pub subject : String

pub record SecuritySettings : Type 0 where
  pub plugins : List PluginSettings
  pub enable_plugin_auth : Bool
  pub enable_guest_auth : Bool
  pub token : TokenSettings

pub record VoiceControlSettings : Type 0 where
  pub port : ℕ
  pub remote_host : String
  pub listen_host : String
  pub certificate_file : String
  pub private_key_file : String

-- What the YAML file holds.
pub record Saved : Type 0 where
  pub servers : ServerSettings
  pub coalitions : List Coalition
  pub frequencies : FrequencySettings
  pub general : GeneralSettings
  pub security : SecuritySettings
  pub voice_control : VoiceControlSettings

-- `file` is not in the file.
pub record SettingsState : Type 0 where
  pub saved : Saved
  pub open saved use *
  pub file : String

abbrev default_host : String
default_host = "0.0.0.0"

abbrev default_port : ℕ
default_port = 5002

abbrev default_token : TokenSettings
default_token = record {
  expiration = 28800;
  private_key_file = "/path/to/ecdsa_key.pem";
  public_key_file = "/path/to/ecdsa_pubkey.pem";
  issuer = "https://vcs.vngd.net";
  subject = "vcs.vngd.net";
}

unfoldable pub default_settings : String → SettingsState
default_settings file = record {
  saved = record {
    servers = record {
      http = record { host = default_host; port = 80 };
      voice = record { host = default_host; port = default_port };
      control = record { host = default_host; port = default_port };
    };
    coalitions = [];
    frequencies = record { test_frequencies = []; global_frequencies = [] };
    general = record { max_radios_per_user = 20 };
    security = record {
      plugins = [];
      enable_plugin_auth = false;
      enable_guest_auth = true;
      token = default_token;
    };
    voice_control = record {
      port = 14448;
      remote_host = "localhost";
      listen_host = default_host;
      certificate_file = "/path/to/voicecontrol-cert.pem";
      private_key_file = "/path/to/voicecontrol-private-key.pem";
    };
  };
  file = file;
}

-- The package yaml: a text for what is saved, and back.
pub record Yaml : Type 0 where
  pub marshal : Saved → Option String
  pub unmarshal : String → Option Saved

-- Its documented behaviour: what was marshalled is read back.
pub record IsYaml (y : Yaml) : Type 0 where
  pub read_back : (s : Saved) (text : String) → y.marshal s ≡ some text → y.unmarshal text ≡ some s

module _ (y : Yaml) where
  -- SettingsState.Save: the new disk, or an error.
  unfoldable pub save : SettingsState → Disk → Option Disk
  save s d = elim (y.marshal s.saved) [ none ↦ none | some text ↦ write_file d s.file text ]

  -- The settings, if any, whether there is an error, and the disk.
  pub record Loaded : Type 0 where
    pub settings : Option SettingsState
    pub is_error : Bool
    pub disk : Disk

  unfoldable pub get_settings_state : String → Disk → Loaded
  get_settings_state file d = elim (read_file d file) [
    | failed not_exist ↦
        let fresh = default_settings file in
        elim (save fresh d) [
          | none ↦ record { settings = some fresh; is_error = true; disk = d }
          | some e ↦ record { settings = some fresh; is_error = false; disk = e }
        ]
    | failed denied ↦ record { settings = none; is_error = true; disk = d }
    | contents text ↦ elim (y.unmarshal text) [
      | none ↦ record { settings = none; is_error = true; disk = d }
      | some s ↦ record {
        settings = some (record { saved = s; file = file });
        is_error = false;
        disk = d;
      }
    ]
  ]

names_enabled : List PluginSettings → List String
names_enabled [] = []
names_enabled (p ∷ ps) = let rest = names_enabled ps in if p.enabled then p.name ∷ rest else rest

unfoldable pub get_all_plugin_names : SettingsState → List String
unfolding names_enabled
get_all_plugin_names s = names_enabled s.security.plugins

-- The first plugin of a name.
unfoldable pub find_plugin : String → List PluginSettings → Option PluginSettings
find_plugin name [] = none
find_plugin name (p ∷ ps) = if p.name == name then some p else find_plugin name ps

unfoldable pub get_plugin_configuration :
    String → SettingsState → Option (Option (Map String String))
get_plugin_configuration name s = elim (find_plugin name s.security.plugins) [
  | none ↦ none
  | some p ↦ some p.configuration
]

unfoldable pub get_plugin_address : String → SettingsState → Option String
get_plugin_address name s = elim (find_plugin name s.security.plugins) [
  | none ↦ none
  | some p ↦ some p.address
]

unfoldable pub is_plugin_enabled : String → SettingsState → Bool
is_plugin_enabled name s = elim (find_plugin name s.security.plugins) [
  | none ↦ false
  | some p ↦ p.enabled
]

unfoldable pub enable_first : String → Bool → List PluginSettings → Option (List PluginSettings)
enable_first name enabled [] = none
enable_first name enabled (p ∷ ps) =
    let rest = enable_first name enabled ps in
    if p.name == name
    then some (record p { enabled = enabled } ∷ ps)
    else elim rest [ none ↦ none | some qs ↦ some (p ∷ qs) ]

-- `none` is the error that no plugin has the name.
unfoldable pub set_plugin_enabled : String → Bool → SettingsState → Option SettingsState
set_plugin_enabled name enabled s = elim (enable_first name enabled s.security.plugins) [
  | none ↦ none
  | some ps ↦
      some (record s { saved = record s.saved { security = record s.security { plugins = ps } } })
]

unfoldable pub coalition_named : String → List Coalition → Bool
coalition_named name [] = false
coalition_named name (c ∷ cs) = c.name == name || coalition_named name cs

unfoldable pub does_coalition_exist : String → SettingsState → Bool
does_coalition_exist name s = coalition_named name s.coalitions

unfoldable pub is_frequency_global : Float32 → SettingsState → Bool
is_frequency_global f s = contains_float s.frequencies.global_frequencies f

unfoldable pub is_frequency_test : Float32 → SettingsState → Bool
is_frequency_test f s = contains_float s.frequencies.test_frequencies f
