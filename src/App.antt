-- ===== src/App.antt =====
-- app/app.go: what the window of the server works on, and how it tells of it. `window` holds the
-- events that a service emits straight to the window.
pub mod Clients
pub mod Coalitions
pub mod Settings
pub mod Signals
pub mod Window
pub mod Servers
use vcs_srs_server.State.Server.{ServerState}
use vcs_srs_server.State.Settings.{SettingsState}
use vcs_srs_server.Disk.{Disk}
use vcs_srs_server.Events.{Event, EventBus, notify, publish}
use vcs_srs_server.Base.{String, List, [], ◌∷◌, ◌++◌}

pub record App : Type 0 where
  pub state : ServerState
  pub settings : SettingsState
  pub disk : Disk
  pub bus : EventBus
  pub window : List Event

-- EmitEvent
unfoldable pub emit_event : Event → App → App
emit_event e a = record a { bus = publish e a.bus }

-- Notify
unfoldable pub notified : String → String → String → App → App
notified title message level a = emit_event (notify title message level) a

-- App.Event.EmitEvent
abbrev pub emit_to_window : Event → App → App
emit_to_window e a = record a { window = a.window ++ e ∷ [] }
