-- ===== src/App/Servers.antt =====
-- app/server_control.go, app/app.go and state/admin.go: the servers that the application starts and
-- stops. A command of the application and a stretch of a goroutine between two of its waits are one
-- step each. An http.Server and a voice server live on in their goroutine when the application forgets
-- them, so both are kept under a number; the application has the number of the one it knows.
pub mod Http
pub mod Voice
pub mod Control
pub mod Commands
pub mod Invariant
pub mod HttpSteps
pub mod VoiceParts
pub mod VoiceSteps
pub mod ControlSteps
pub mod Reach
pub mod Stopping
pub mod Races
pub mod Launch
pub mod Startup
pub mod Cycle
use vcs_srs_server.Srs.Auth.{Attempt, DistributionMode, blocked, done, panicked}
use vcs_srs_server.Voice.Server.{Server as VoiceServer}
use vcs_srs_server.Control.Server.{ControlServer}
use vcs_srs_server.State.Settings.{ServerSetting}
use vcs_srs_server.Events.{admin_changed, admin_state}
use vcs_srs_server.App.{App, emit_event, notified}
use vcs_srs_server.App.Signals.{Signals}
use vcs_srs_server.Base.{ℕ, String, Bool, true, false, Option, Map}

-- The error is the empty text where there is none.
pub record ServiceStatus : Type 0 where
  pub is_running : Bool
  pub is_needed : Bool
  pub error : String

pub record AdminState : Type 0 where
  pub http_status : ServiceStatus
  pub voice_status : ServiceStatus
  pub control_status : ServiceStatus

-- `shut` tells that Shutdown was called: a server that is shut serves no more.
pub record HttpServer : Type 0 where
  pub address : ServerSetting
  pub shut : Bool

-- How far the goroutine of a start has come: it has not run; it has made its server; it has set the
-- status; it serves with the server of the number.
pub data Phase : Type 0 where
  spawned made_server set_status : Phase
  serving_with : ℕ → Phase

-- VCSApplication, as far as the servers go, with the goroutines that are not done. A goroutine of a
-- voice server has the number of its stop channel.
pub record Application : Type 0 where
  pub app : App
  pub admin : AdminState
  pub distribution : DistributionMode
  pub signals : Signals
  pub https : Map ℕ HttpServer
  pub http_server : Option ℕ
  pub http_tasks : Map ℕ Phase
  pub voices : Map ℕ VoiceServer
  pub voice_server : Option ℕ
  pub voice_tasks : Map ℕ (ℕ × Phase)
  pub control_server : Option ControlServer
  -- The next number of a server or a goroutine.
  pub next : ℕ

abbrev pub running : ServiceStatus → ServiceStatus
running s = record s { is_running = true; error = "" }

abbrev pub stopped : ServiceStatus → ServiceStatus
stopped s = record s { is_running = false; error = "" }

abbrev pub failed : String → ServiceStatus → ServiceStatus
failed e s = record s { is_running = false; error = e }

abbrev pub with_http : ServiceStatus → Application → Application
with_http x a = record a { admin = record a.admin { http_status = x } }

abbrev pub with_voice : ServiceStatus → Application → Application
with_voice x a = record a { admin = record a.admin { voice_status = x } }

abbrev pub with_control : ServiceStatus → Application → Application
with_control x a = record a { admin = record a.admin { control_status = x } }

-- Notify
abbrev pub notify_all : String → String → String → Application → Application
notify_all title message level a = record a { app = notified title message level a.app }

-- EmitEvent of AdminChanged
abbrev pub emit_admin : Application → Application
emit_admin a = record a {
  app = emit_event (record { name = admin_changed; payload = admin_state }) a.app;
}

abbrev pub and_then : {A B : Type 0} → Attempt A → (A → Attempt B) → Attempt B
and_then (done x) f = f x
and_then panicked f = panicked
and_then blocked f = blocked
