-- ===== src/Srs/Auth.antt =====
-- srs/auth_service.go: the server that admits clients, its state, and how a client starts. Time counts
-- from Go's zero time. A call is one step. `locked` tells that the mutex was left held: a call that
-- needs it is then blocked for good.
pub mod Guest
pub mod Connections
pub mod Plugin
pub mod Roles
pub mod Select
pub mod Starting
use Prim.Native.String.{◌++◌ as str_append}
use vcs_srs_server.State.Server.{ServerState}
use vcs_srs_server.State.Settings.{SettingsState, get_all_plugin_names}
use vcs_srs_server.Events.{EventBus}
use vcs_srs_server.Utils.Auth.{KeyCache}
use vcs_srs_server.Srs.Checks.{AuthenticatingClient, UnitSelection, UuidText, check_version}
use vcs_srs_server.Base.{
  ℕ, ◌+◌, ◌*◌, String, Bool, true, false, not, ◌||◌, Option, none, some, List, [], ◌∷◌, Uuid, Time,
  minute, leb, if◌then◌else◌, nat_eq, string_eq, Map, insert, retain,
}

-- state/distribution.go
pub data DistributionMode : Type 0 where
  standalone_mode control_mode voice_mode : DistributionMode

-- The values of the enum in srs.proto.
pub data ProtoMode : Type 0 where
  standalone distributed : ProtoMode

pub data Attempt (A : Type 0) : Type 0 where
  done : A → Attempt A
  panicked blocked : Attempt A

-- A result; an error message in the response; the same, with an error of the call.
pub data Reply (A : Type 0) : Type 0 where
  result : A → Reply A
  failure failure_with_error : String → Reply A

pub record LoginBody : Type 0 where
  pub player_name : String
  pub available_roles : List ℕ
  pub available_units : List UnitSelection

-- What a plugin's Login comes back with.
pub data PluginAnswer : Type 0 where
  call_failed : String → PluginAnswer
  declined accepted_with_message : String → PluginAnswer
  declined_without_message accepted_without_result : PluginAnswer
  accepted_with_result : LoginBody → PluginAnswer

-- A plugin answers credentials.
abbrev pub PluginClient : Type 0
PluginClient = Map String String → PluginAnswer

pub record AuthServer : Type 0 where
  pub state : ServerState
  pub settings : SettingsState
  pub distribution : DistributionMode
  pub bus : EventBus
  pub locked : Bool
  pub authenticating_clients : Map Uuid AuthenticatingClient
  pub plugin_clients : Map String PluginClient
  pub keys : KeyCache

-- s.mu.Lock() or s.mu.RLock(), then the rest.
abbrev pub holding : {A : Type 0} → AuthServer → Attempt A × AuthServer → Attempt A × AuthServer
holding s next = if s.locked then (blocked, s) else next

unfoldable pub remove_expired : Time → AuthServer → AuthServer
remove_expired now s = record s {
  authenticating_clients = retain (λ _ c. leb now c.expires) s.authenticating_clients;
}

unfoldable pub supports : ProtoMode → DistributionMode → Bool
supports distributed control_mode = true
supports standalone standalone_mode = true
supports _ _ = false

unfoldable pub check_distribution_capabilities : List ProtoMode → AuthServer → Bool
check_distribution_capabilities [] s = false
check_distribution_capabilities (f ∷ fs) s =
    supports f s.distribution || check_distribution_capabilities fs s

unfoldable pub get_string_distribution_mode : AuthServer → String
get_string_distribution_mode s = elim s.distribution [
  | control_mode ↦ "Control"
  | standalone_mode ↦ "Standalone"
  | voice_mode ↦ "Voice"
]

unfoldable pub get_proto_distribution_mode : AuthServer → ProtoMode
get_proto_distribution_mode s = elim s.distribution [ control_mode ↦ distributed | _ ↦ standalone ]

pub record Capabilities : Type 0 where
  pub version : String
  pub supported_distribution_modes : List ProtoMode

pub record AuthInitResult : Type 0 where
  pub distribution_mode : ProtoMode
  pub available_plugins : List String
  pub client_guid : String
  pub has_guest_login : Bool

abbrev pub fresh_client : Time → AuthenticatingClient
fresh_client expires = record {
  name = "";
  secret = "";
  expires = expires;
  available_roles = [];
  available_units = [];
}

module _ (u : UuidText) where
  initialized : Uuid → Time → AuthServer → Reply AuthInitResult × AuthServer
  initialized fresh now s = (
    result (record {
      distribution_mode = get_proto_distribution_mode s;
      available_plugins = get_all_plugin_names s.settings;
      client_guid = u.to_string fresh;
      has_guest_login = s.settings.security.enable_guest_auth;
    }),
    record s {
      authenticating_clients =
          insert fresh (fresh_client (now + 20 * minute)) s.authenticating_clients;
    },
  )

  checked_init : Uuid → Time → Capabilities → AuthServer → Reply AuthInitResult × AuthServer
  unfolding initialized
  checked_init fresh now c s =
      if not (check_version c.version)
      then (failure "Unsupported version", s)
      else if not (check_distribution_capabilities c.supported_distribution_modes s)
      then (
        failure (
            str_append "Unsupported distribution capabilities, currently running: "
              (get_string_distribution_mode s)),
        s,
      )
      else initialized fresh now s

  -- `fresh` is what uuid.New yields. A request without capabilities is a nil dereference.
  unfoldable pub init_auth :
      Uuid → Time → Option Capabilities → AuthServer → Attempt (Reply AuthInitResult) × AuthServer
  unfolding checked_init
  init_auth fresh now none s = (panicked, s)
  init_auth fresh now (some c) s =
      let (reply, s') = checked_init fresh now c (remove_expired now s) in
      holding s (done reply, s')
