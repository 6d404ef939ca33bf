-- ===== src/Srs/Auth/Plugin.antt =====
-- srs/auth_service.go: Login by a plugin, and srs/plugin_client.go: Login.
pub mod Laws
pub mod Entry
use Prim.Native.String.{◌++◌ as str_append}
use vcs_srs_server.State.Settings.{Coalition}
use vcs_srs_server.Utils.Auth.{srs_role_name}
use vcs_srs_server.Srs.Checks.{UnitSelection, UuidText}
use vcs_srs_server.Srs.Updates.{answer, uint8}
use vcs_srs_server.Srs.Auth.{
  Attempt, AuthServer, LoginBody, PluginAnswer, Reply, accepted_with_message, accepted_with_result,
  accepted_without_result, call_failed, declined, declined_without_message, done, failure,
  failure_with_error, holding, panicked, remove_expired, result,
}
use vcs_srs_server.Base.{
  ℕ, ◌+◌, ◌*◌, String, ◌⊎◌, inl, inr, not, Option, none, some, List, map, Uuid, Time, minute,
  if◌then◌else◌, nat_eq, string_eq, Map, lookup, insert, has,
}

pub record LoginRequest : Type 0 where
  pub client_guid : String
  pub authentication_plugin : String
  pub credentials : Map String String

pub record RoleSelection : Type 0 where
  pub id : ℕ
  pub name : String

pub record CoalitionSelection : Type 0 where
  pub name : String
  pub color : String
  pub description : String

pub record LoginResult : Type 0 where
  pub secret : String
  pub available_roles : List RoleSelection
  pub available_units : List UnitSelection
  pub available_coalitions : List CoalitionSelection
  pub player_name : String

-- PluginClient.Login, on a connected client: an error, or an answer that was a success, whose result
-- may be of another type than the caller expects.
unfoldable pub plugin_login : PluginAnswer → String ⊎ Option LoginBody
plugin_login (call_failed e) = inl (str_append "failed to login: " e)
plugin_login (declined e) = inl e
plugin_login declined_without_message = inl "login failed: unexpected response type"
plugin_login (accepted_with_message _) = inr none
plugin_login accepted_without_result = inr none
plugin_login (accepted_with_result body) = inr (some body)

abbrev pub selected : Coalition → CoalitionSelection
selected c = record { name = c.name; color = c.color; description = c.description }

abbrev pub built_role : ℕ → RoleSelection
built_role r = record { id = r; name = srs_role_name (uint8 r) }

-- `secret` is what diceware yields, joined.
login_accepted : Time → String → Uuid → LoginBody → AuthServer → Reply LoginResult × AuthServer
login_accepted now secret i body s = (
  result (record {
    secret = secret;
    available_roles = map built_role body.available_roles;
    available_units = body.available_units;
    available_coalitions = map selected s.settings.coalitions;
    player_name = body.player_name;
  }),
  record s {
    authenticating_clients =
        insert i
          (record {
            name = body.player_name;
            secret = secret;
            expires = now + 5 * minute;
            available_roles = map uint8 body.available_roles;
            available_units = body.available_units;
          })
          s.authenticating_clients;
  },
)

-- From the plugin's answer on.
unfoldable pub login_answered :
    Time
    → Option String
    → Uuid
    → PluginAnswer
    → AuthServer
    → Attempt (Reply LoginResult) × AuthServer
unfolding login_accepted
login_answered now secret i answer s = elim (plugin_login answer) [
  | inl e ↦ (done (failure (str_append "Login failed: " e)), s)
  | inr body ↦ elim secret [
    | none ↦ (done (failure "Failed to generate client secret"), s)
    | some words ↦ elim body [
      | none ↦ (panicked, s)
      | some b ↦ let (reply, s') = login_accepted now words i b s in (done reply, s')
    ]
  ]
]

module _ (u : UuidText) where
  login_checks :
      Time → Option String → LoginRequest → AuthServer → Attempt (Reply LoginResult) × AuthServer
  login_checks now secret q s = elim (u.parse q.client_guid) [
    | none ↦ (done (failure_with_error "Invalid ClientGuid"), s)
    | some i ↦
        if not (has i s.authenticating_clients)
        then (done (failure "ClientGuid not found, please initialize first"), s)
        else elim (lookup q.authentication_plugin s.plugin_clients) [
          | none ↦ (
            done (failure (str_append "Plugin " (str_append q.authentication_plugin " not found"))),
            s,
          )
          | some plugin ↦ login_answered now secret i (plugin q.credentials) s
        ]
  ]

  unfoldable pub login :
      Time → Option String → LoginRequest → AuthServer → Attempt (Reply LoginResult) × AuthServer
  unfolding login_checks
  login now secret q s =
      if not s.settings.security.enable_plugin_auth
      then (done (failure "Plugin login is disabled"), s)
      else holding s (login_checks now secret q (remove_expired now s))
