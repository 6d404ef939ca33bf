-- ===== src/Srs/Auth/Select.antt =====
-- srs/auth_service.go: UnitSelect, which ends a login by a plugin.
pub mod Laws
use Prim.Native.String.{◌++◌ as str_append}
use vcs_srs_server.State.Server.{ClientState, add_client}
use vcs_srs_server.State.Settings.{Coalition, coalition_named}
use vcs_srs_server.Events.{publish}
use vcs_srs_server.Utils.Auth.{
  seconds, new_numeric_date, add_duration, IsMatching, Jwt, KeyPair, generate_token,
}
use vcs_srs_server.Srs.Checks.{
  AuthenticatingClient, UnitSelection, UuidText, check_unit_id, get_selected_unit,
  is_role_available,
}
use vcs_srs_server.Srs.Radio.{clients_event}
use vcs_srs_server.Srs.Updates.{uint8}
use vcs_srs_server.Srs.Auth.{
  Attempt, AuthServer, Reply, done, failure, failure_with_error, holding, result,
}
use vcs_srs_server.Base.{
  ℕ, String, Bool, not, Option, none, some, Uuid, Time, if◌then◌else◌, ◌==◌, nat_eq, string_eq,
  lookup, delete,
}

pub record SelectRequest : Type 0 where
  pub client_guid : String
  pub secret : String
  pub unit_id : String
  pub role : ℕ
  pub coalition : String

unfoldable pub is_coalition_available : String → AuthServer → Bool
is_coalition_available name s = coalition_named name s.settings.coalitions

-- The unit that was offered, or else any with a valid identifier.
unfoldable pub selected_unit : AuthenticatingClient → String → Option UnitSelection
selected_unit c unit_id = elim (get_selected_unit c unit_id) [
  | some unit ↦ some unit
  | none ↦
      if check_unit_id unit_id
      then some (record { unit_id = unit_id; unit_name = str_append "Unit " unit_id })
      else none
]

abbrev pub selected_state : AuthenticatingClient → SelectRequest → UnitSelection → ClientState
selected_state c q unit = record {
  name = c.name;
  unit_id = unit.unit_id;
  coalition = q.coalition;
  role = uint8 q.role;
  last_update = 0;
}

module _ (u : UuidText) (j : Jwt) where
  token_reply : Option String → AuthServer → Reply String × AuthServer
  token_reply none s = (failure_with_error "Failed to generate token", s)
  token_reply (some token) s = (result token, record s { bus = publish clients_event s.bus })

  -- From AddClient on.
  unfoldable pub admit_selected :
      Time
      → Option KeyPair
      → Uuid
      → AuthenticatingClient
      → SelectRequest
      → UnitSelection
      → AuthServer
      → Reply String × AuthServer
  unfolding token_reply
  admit_selected now made i c q unit s =
      let t = s.settings.security.token in
      let (token, keys) =
        generate_token j q.client_guid (uint8 q.role) t.issuer t.subject (seconds t.expiration) now
          made s.keys in
      token_reply token (record s {
        state = add_client i (selected_state c q unit) s.state;
        authenticating_clients = delete i s.authenticating_clients;
        keys = keys;
      })

  -- From the secret on.
  unfoldable pub select_checks :
      Time
      → Option KeyPair
      → Uuid
      → AuthenticatingClient
      → SelectRequest
      → AuthServer
      → Reply String × AuthServer
  select_checks now made i c q s =
      if not (c.secret == q.secret)
      then (failure "Problem verifying client", s)
      else elim (selected_unit c q.unit_id) [
        | none ↦ (failure "Invalid UnitId", s)
        | some unit ↦
            if not (is_role_available c (uint8 q.role))
            then (failure "Invalid Role", s)
            else if not (is_coalition_available q.coalition s)
            then (failure "Invalid Coalition", s)
            else admit_selected now made i c q unit s
      ]

  unfoldable pub unit_select :
      Time → Option KeyPair → SelectRequest → AuthServer → Attempt (Reply String) × AuthServer
  unit_select now made q s = elim (u.parse q.client_guid) [
    | none ↦ (done (failure_with_error "Invalid ClientGuid"), s)
    | some i ↦ elim (lookup i s.authenticating_clients) [
      | none ↦ holding s (done (failure "ClientGuid not found, please initialize first"), s)
      | some c ↦ let (reply, s') = select_checks now made i c q s in holding s (done reply, s')
    ]
  ]
