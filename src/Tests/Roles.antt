-- ===== src/Tests/Roles.antt =====
-- A client that starts, is accepted by a plugin and then chooses one of the two roles that it offers.
use vcs_srs_server.State.Server.{ClientState, add_client}
use vcs_srs_server.State.Settings.{coalition_named}
use vcs_srs_server.Events.{publish}
use vcs_srs_server.Utils.Auth.{
  IsMatching, add_duration, generate_token, get_keys, get_token_claims, granted, guest_role,
  insufficient_role, new_numeric_date, seconds,
}
use vcs_srs_server.Srs.Checks.{check_version, find_unit, get_selected_unit, is_role_available}
use vcs_srs_server.Srs.Updates.{uint8}
use vcs_srs_server.Srs.Auth.{
  AuthServer, Capabilities, check_distribution_capabilities, done, get_proto_distribution_mode,
  init_auth, remove_expired, result, standalone, supports,
}
use vcs_srs_server.Srs.Auth.Plugin.{LoginRequest, login, login_answered, plugin_login}
use vcs_srs_server.Srs.Auth.Select.{
  admit_selected, is_coalition_available, select_checks, selected_state, selected_unit, unit_select,
}
use vcs_srs_server.Srs.Auth.Roles.{Calls, IsGranted, none_yet, then_init, then_login, then_select}
use vcs_srs_server.Srs.Auth.Roles.Reach.{role-IsGranted}
use vcs_srs_server.Srs.Auth.Roles.Tokens.{token-IsGranted}
use vcs_srs_server.Srs.Auth.Plugin.Entry.{IsHonest, honest_client_gets_in}
use vcs_srs_server.Srs.Auth.Plugin.Laws.{offered}
use vcs_srs_server.Tests.Packages.{
  plain_jwt, plain_jwt-IsJwt, stroke_uuids, stroke_uuids-IsUuidText, token_text,
}
use vcs_srs_server.Tests.AuthServer.{
  alpha, always_accepts, chosen, door, member_body, own_keys, plain_bcrypt, signs,
}
use vcs_srs_server.Base.{
  ◌*◌, ◌%◌, ◌^◌, ◌<◌, String, ◌≡◌, refl, ◌⊎◌, inl, inr, Option, none, some, [], ◌∷◌, arith, second,
  returns, ltb, if◌then◌else◌, nat_eq, string_eq, lookup, insert, delete, retain,
}

abbrev empty_door : AuthServer
empty_door = record door {
  state = record { clients = []; radio_clients = []; banned_state = door.state.banned_state };
  authenticating_clients = [];
}

abbrev capabilities : Capabilities
capabilities = record { version = "0.1.0"; supported_distribution_modes = standalone ∷ [] }

abbrev version_one : Option Capabilities
version_one = some capabilities

abbrev started : AuthServer
started = (init_auth stroke_uuids 4 5 version_one empty_door).1

abbrev credentials : LoginRequest
credentials = record { client_guid = "||||"; authentication_plugin = "forum"; credentials = [] }

abbrev accepted : AuthServer
accepted = (login stroke_uuids 10 (some "red-fox") credentials started).1

abbrev entered : AuthServer
entered = (unit_select stroke_uuids plain_jwt 20 none chosen accepted).1

entered-Calls : Calls stroke_uuids plain_bcrypt plain_jwt empty_door entered
entered-Calls = then_select accepted 20 none chosen (
    then_login started 10 (some "red-fox") credentials
      (then_init empty_door 4 5 version_one none_yet))

abbrev dan : ClientState
dan = selected_state (offered 10 "red-fox" member_body) chosen alpha

dan_is_in : lookup 4 entered.state.clients ≡ some dan
unfolding init_auth remove_expired retain lookup insert delete check_version
    check_distribution_capabilities supports get_proto_distribution_mode login login_answered
    plugin_login unit_select select_checks selected_unit get_selected_unit find_unit
    is_role_available is_coalition_available coalition_named admit_selected generate_token get_keys
    add_client publish
dan_is_in = refl

in_time :
    50
    < new_numeric_date (add_duration 20 (seconds accepted.settings.security.token.expiration))
      * second
unfolding login init_auth check_version check_distribution_capabilities supports remove_expired
    lookup retain insert login_answered plugin_login
in_time = ground arith

matches : IsMatching plain_jwt (unit_select stroke_uuids plain_jwt 20 none chosen accepted).1.keys
unfolding init_auth remove_expired retain lookup insert delete check_version
    check_distribution_capabilities supports get_proto_distribution_mode login login_answered
    plugin_login unit_select select_checks selected_unit get_selected_unit find_unit
    is_role_available is_coalition_available coalition_named admit_selected generate_token get_keys
    add_client publish
matches = refl

finds_forum : lookup "forum" empty_door.plugin_clients ≡ some always_accepts
unfolding lookup
finds_forum = refl

dan-IsHonest :
    IsHonest stroke_uuids empty_door 4 capabilities credentials member_body chosen "red-fox"
dan-IsHonest = record {
  version = refl;
  mode = inl (inr (refl, refl));
  enabled = refl;
  login_guid = refl;
  plugin = always_accepts;
  known = finds_forum;
  accepted = refl;
  select_guid = refl;
  secret_given = refl;
  unit_form = ((ground arith), (ground arith), (ground arith));
  role = inr (inl refl);
  coalition = inl refl;
}

abbrev two_calls : Calls stroke_uuids plain_bcrypt plain_jwt empty_door accepted
two_calls =
    then_login started 10 (some "red-fox") credentials
      (then_init empty_door 4 5 version_one none_yet)

hands_out :
    (unit_select stroke_uuids plain_jwt 20 none chosen accepted).0
    ≡ done (result (token_text 2 "||||"))
unfolding init_auth remove_expired retain lookup insert delete check_version
    check_distribution_capabilities supports get_proto_distribution_mode login login_answered
    plugin_login unit_select select_checks selected_unit get_selected_unit find_unit
    is_role_available is_coalition_available coalition_named admit_selected generate_token get_keys
    add_client publish
hands_out = refl

role-IsGranted_example : (dan.role ≡ guest_role) ⊎ IsGranted empty_door.plugin_clients dan.role
role-IsGranted_example =
    role-IsGranted stroke_uuids plain_bcrypt plain_jwt empty_door entered 4 dan refl refl
      entered-Calls dan_is_in

token-IsGranted_example :
    IsGranted empty_door.plugin_clients (uint8 chosen.role)
    × ((get_token_claims plain_jwt
          (token_text 2 "||||")
          3
          50
          none
          (unit_select stroke_uuids plain_jwt 20 none chosen accepted).1.keys).0
        ≡ returns (
            if ltb (uint8 chosen.role) 3
            then insufficient_role (uint8 chosen.role) 3
            else granted
                (record { client_guid = chosen.client_guid; role_id = uint8 chosen.role })))
token-IsGranted_example =
    token-IsGranted stroke_uuids plain_bcrypt plain_jwt plain_jwt-IsJwt empty_door accepted chosen 3
      20 50 none none (token_text 2 "||||") refl refl two_calls hands_out matches in_time

honest_client_gets_in_example :
    let started = (init_auth stroke_uuids 4 5 (some capabilities) empty_door).1 in
    let logged_in = (login stroke_uuids 10 (some "red-fox") credentials started).1 in
    let (reply, after) = unit_select stroke_uuids plain_jwt 20 none chosen logged_in in
    ((token : String) × (reply ≡ done (result token)))
    × (lookup 4 after.state.clients
        ≡ some (record {
          name = member_body.player_name;
          unit_id = chosen.unit_id;
          coalition = chosen.coalition;
          role = chosen.role % 2 ^ 8;
          last_update = 0;
        }))
honest_client_gets_in_example =
    honest_client_gets_in stroke_uuids stroke_uuids-IsUuidText plain_jwt 4 5 10 20 capabilities
      credentials member_body chosen "red-fox" own_keys none empty_door refl dan-IsHonest
      (omega arith) refl signs
