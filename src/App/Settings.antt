-- ===== src/App/Settings.antt =====
-- app/settings.go and services/settings.go: the settings, as the window saves them. The two files
-- differ in where SettingsChanged goes: to the bus, or straight to the window.
pub mod Laws
use Prim.Native.String.{◌++◌ as str_append}
use vcs_srs_server.State.Settings.{
  FrequencySettings, GeneralSettings, Saved, ServerSettings, Yaml, save,
}
use vcs_srs_server.Events.{Event, settings_changed, settings_state}
use vcs_srs_server.App.{App, emit_event, emit_to_window, notified}
use vcs_srs_server.Base.{String, none, some}

pub data Part : Type 0 where
  general_part : GeneralSettings → Part
  server_part : ServerSettings → Part
  frequency_part : FrequencySettings → Part

abbrev pub with_part : Part → Saved → Saved
with_part (general_part g) s = record s { general = g }
with_part (server_part v) s = record s { servers = v }
with_part (frequency_part f) s = record s { frequencies = f }

abbrev pub saved_message : Part → String
saved_message (general_part _) = "General Settings were successfully saved"
saved_message (server_part _) = "Server Settings were successfully saved"
saved_message (frequency_part _) = "Frequency Settings were successfully saved"

abbrev pub settings_event : Event
settings_event = record { name = settings_changed; payload = settings_state }

module _ (y : Yaml) (emit : Event → App → App) where
  -- The three Save functions have one body.
  unfoldable pub save_part : Part → App → App
  save_part p a =
      let b = record a { settings = record a.settings { saved = with_part p a.settings.saved } } in
      elim (save y b.settings b.disk) [
        | none ↦ notified "Failed to save settings" "Failed to save settings" "error" b
        | some d ↦
            notified "Settings saved" (saved_message p) "info"
              (emit settings_event (record b { disk = d }))
      ]

module _ (y : Yaml) where
  unfoldable pub app_save : Part → App → App
  app_save = save_part y emit_event

  unfoldable pub service_save : Part → App → App
  service_save = save_part y emit_to_window
