-- ===== src/Tests/AuthServer.antt =====
-- A server where the client 3 has started and the client 4 has been accepted by a plugin.
use Prim.Native.String.{◌++◌ as str_append}
use vcs_srs_server.State.Settings.{
  Coalition, SettingsState, TokenSettings, coalition_named, does_coalition_exist,
}
use vcs_srs_server.Utils.Auth.{
  Grant, IsMatching, KeyPair, generate_token, get_jwt_claims, get_keys, get_token_claims,
  minimum_role,
}
use vcs_srs_server.Srs.Checks.{UnitSelection, check_username, find_unit, get_selected_unit}
use vcs_srs_server.Srs.Auth.{
  AuthServer, Capabilities, LoginBody, PluginClient, accepted_with_result, blocked, done, failure,
  fresh_client, init_auth, remove_expired, standalone_mode,
}
use vcs_srs_server.Srs.Auth.Guest.{
  Bcrypt, GuestCall, GuestRequest, guest_login, hash_password, select_coalition,
}
use vcs_srs_server.Srs.Auth.Select.{SelectRequest, selected_unit, unit_select}
use vcs_srs_server.Srs.Auth.Guest.Laws.{GuestAdmits, guest_login_leaks_lock, guest_login_lem}
use vcs_srs_server.Srs.Auth.Plugin.Laws.{offered}
use vcs_srs_server.Srs.Auth.Select.Laws.{SelectAdmits, unit_select_lem}
use vcs_srs_server.Control.Interceptor.{
  after_prefix, auth_interceptor, authenticate, handled, service_and_method, split, trim_prefix,
}
use vcs_srs_server.Control.Interceptor.Laws.{
  Verified, auth_interceptor-generate_token, auth_interceptor_sound,
}
use vcs_srs_server.Tests.Packages.{plain_jwt, plain_jwt-IsJwt, stroke_uuids, token_text}
use vcs_srs_server.Tests.Yaml.{plain_saved}
use vcs_srs_server.Tests.VoiceServer.{two_known}
use vcs_srs_server.Tests.RadioServer.{empty_bus}
use vcs_srs_server.Base.{
  ◌*◌, String, ◌≡◌, refl, ◌≢◌, ◌⊎◌, true, false, Option, none, some, [], ◌∷◌, arith, Uuid, Time,
  second, returns, nat_eq, string_eq, lookup, retain, IsUnique, has,
}

abbrev blue : Coalition
blue = record { name = "Blue"; description = ""; color = "#00f"; password = "sky" }

abbrev tokens : TokenSettings
tokens = record {
  expiration = 60;
  private_key_file = "key";
  public_key_file = "pub";
  issuer = "vcs";
  subject = "srs";
}

abbrev open_settings : SettingsState
open_settings = record {
  saved = record (plain_saved 20) {
    coalitions = blue ∷ [];
    security = record {
      plugins = [];
      enable_plugin_auth = true;
      enable_guest_auth = true;
      token = tokens;
    };
  };
  file = "settings.yaml";
}

abbrev pub member_body : LoginBody
member_body = record {
  player_name = "Dan";
  available_roles = 1 ∷ 2 ∷ [];
  available_units = record { unit_id = "AB1"; unit_name = "Alpha" } ∷ [];
}

abbrev pub always_accepts : PluginClient
always_accepts = λ credentials. accepted_with_result member_body

abbrev pub own_keys : KeyPair
own_keys = record { private_key = 1; public_key = 2 }

abbrev pub door : AuthServer
door = record {
  state = two_known;
  settings = open_settings;
  distribution = standalone_mode;
  bus = empty_bus;
  locked = false;
  authenticating_clients = (3, fresh_client 1000) ∷ (4, offered 10 "red-fox" member_body) ∷ [];
  plugin_clients = ("forum", always_accepts) ∷ [];
  keys = some own_keys;
}

abbrev pub plain_bcrypt : Bcrypt
plain_bcrypt = record { generate_from_password = λ salt password. some (String.◌∷◌ "#" password) }

abbrev guest_call : GuestCall
guest_call = record { now = 10; salts = λ k. k; made = none }

abbrev wrong_password : GuestRequest
wrong_password = record { client_guid = "|||"; name = "Cid"; unit_id = "AB1"; password = "sea" }

abbrev right_password : GuestRequest
right_password = record wrong_password { password = "#sky" }

waiting_once : IsUnique door.authenticating_clients
unfolding lookup
waiting_once = (refl, (refl, tt))

waits : has 3 (remove_expired 10 door).authenticating_clients ≡ true
unfolding remove_expired retain lookup
waits = refl

cid_valid : check_username "Cid" ≡ true
unfolding check_username
cid_valid = refl

no_coalition :
    select_coalition stroke_uuids plain_bcrypt plain_jwt (λ k. k) 0 "sea" (blue ∷ []) ≡ none
unfolding select_coalition hash_password
no_coalition = refl

abbrev pub chosen : SelectRequest
chosen = record {
  client_guid = "||||";
  secret = "red-fox";
  unit_id = "AB1";
  role = 2;
  coalition = "Blue";
}

finds_offer : lookup 4 door.authenticating_clients ≡ some (offered 10 "red-fox" member_body)
unfolding lookup
finds_offer = refl

abbrev pub alpha : UnitSelection
alpha = record { unit_id = "AB1"; unit_name = "Alpha" }

finds_unit : selected_unit (offered 10 "red-fox" member_body) "AB1" ≡ some alpha
unfolding selected_unit get_selected_unit find_unit
finds_unit = refl

blue_exists : does_coalition_exist "Blue" open_settings ≡ true
unfolding does_coalition_exist coalition_named
blue_exists = refl

pub signs : (g : Grant) → (token : String) × (plain_jwt.sign own_keys.private_key g ≡ some token)
signs g = (token_text g.claims.role_id g.claims.client_guid, refl)

sync_path : service_and_method "/srs.SRSService/SyncClient" ≡ some ("SRSService", "SyncClient")
unfolding service_and_method split
sync_path = refl

makes_token :
    (generate_token plain_jwt "|||||||" 1 "vcs" "srs" (60 * second) 10 none (some own_keys)).0
    ≡ some (token_text 1 "|||||||")
unfolding generate_token get_keys
makes_token = refl

keys_match :
    IsMatching plain_jwt
      (generate_token plain_jwt "|||||||" 1 "vcs" "srs" (60 * second) 10 none (some own_keys)).1
unfolding generate_token get_keys
keys_match = refl

abbrev speaker_id : Option String
speaker_id = some "|||||||"

passes_token :
    (auth_interceptor plain_jwt "/srs.SRSService/SyncClient"
      (some ("Bearer |.|||||||" ∷ []))
      20
      none
      (some own_keys)).0
    ≡ returns (handled (some "|||||||"))
unfolding auth_interceptor authenticate trim_prefix after_prefix get_token_claims get_jwt_claims
    get_keys minimum_role lookup service_and_method split
passes_token = refl

unit_select_lem_example :
    let after = (unit_select stroke_uuids plain_jwt 20 none chosen door).1 in
    (after ≡ door) ⊎ SelectAdmits stroke_uuids chosen door after
unit_select_lem_example = unit_select_lem stroke_uuids plain_jwt 20 none chosen door

guest_login_lem_example :
    let after =
      (guest_login stroke_uuids plain_bcrypt plain_jwt guest_call right_password door).1 in
    (after.state ≡ door.state)
    ⊎ GuestAdmits stroke_uuids plain_bcrypt plain_jwt guest_call right_password door after
guest_login_lem_example =
    guest_login_lem stroke_uuids plain_bcrypt plain_jwt guest_call right_password door waiting_once

guest_login_leaks_lock_example :
    let (reply, after) =
      guest_login stroke_uuids plain_bcrypt plain_jwt guest_call wrong_password door in
    (reply ≡ done (failure "No Coalition found with that password"))
    × ((fresh : Uuid) (now : Time) (c : Capabilities)
        → init_auth stroke_uuids fresh now (some c) after ≡ (blocked, after))
    × ((later : GuestCall) (p : GuestRequest)
        → guest_login stroke_uuids plain_bcrypt plain_jwt later p after ≡ (blocked, after))
guest_login_leaks_lock_example =
    guest_login_leaks_lock stroke_uuids plain_bcrypt plain_jwt guest_call wrong_password 3 door refl
      refl refl waits cid_valid no_coalition

auth_interceptor_sound_example :
    ((speaker_id ≡ none)
      × ((method : String) × ((service_and_method "/srs.SRSService/SyncClient"
              ≡ some ("AuthService", method))
            ⊎ (service_and_method "/srs.SRSService/SyncClient"
                ≡ some ("VoiceControlService", method)))))
    ⊎ ((service : String) × (method : String) × (service_and_method "/srs.SRSService/SyncClient"
          ≡ some (service, method))
        × (service ≢ "AuthService")
        × (service ≢ "VoiceControlService")
        × Verified plain_jwt (some ("Bearer |.|||||||" ∷ [])) 20 none (some own_keys) speaker_id)
auth_interceptor_sound_example =
    auth_interceptor_sound plain_jwt "/srs.SRSService/SyncClient" (some ("Bearer |.|||||||" ∷ []))
      20 none (some own_keys) speaker_id passes_token

auth_interceptor-generate_token_example :
    (auth_interceptor plain_jwt "/srs.SRSService/SyncClient"
      (some (str_append "Bearer " (token_text 1 "|||||||") ∷ []))
      50
      none
      (generate_token plain_jwt "|||||||" 1 "vcs" "srs" (60 * second) 10 none (some own_keys)).1).0
    ≡ returns (handled (some "|||||||"))
auth_interceptor-generate_token_example =
    auth_interceptor-generate_token plain_jwt plain_jwt-IsJwt "/srs.SRSService/SyncClient"
      "SRSService" "SyncClient" "|||||||" "vcs" "srs" (token_text 1 "|||||||") [] 1 (60 * second) 10
      50 none none (some own_keys) sync_path refl makes_token keys_match (omega arith)
      (ground arith)
