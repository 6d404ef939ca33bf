-- ===== src/Srs/Auth/Plugin/Laws.antt =====
-- What a login by a plugin leads to.
use vcs_srs_server.State.Server.{add_client}
use vcs_srs_server.State.Settings.{does_coalition_exist}
use vcs_srs_server.Srs.Checks.{AuthenticatingClient, UnitSelection, UuidText, is_role_available}
use vcs_srs_server.Srs.Updates.{uint8}
use vcs_srs_server.Srs.Auth.{
  AuthServer, LoginBody, PluginClient, accepted_with_result, done, remove_expired, result,
}
use vcs_srs_server.Utils.Auth.{
  new_numeric_date, add_duration, seconds, Grant, Jwt, KeyPair, generate_token, get_keys,
}
use vcs_srs_server.Srs.Auth.Plugin.{
  LoginRequest, LoginResult, built_role, login, login_answered, plugin_login, selected,
}
use vcs_srs_server.Srs.Auth.Select.{
  SelectRequest, admit_selected, is_coalition_available, select_checks, selected_state,
  selected_unit, unit_select,
}
use vcs_srs_server.Base.{
  ◌+◌, ◌*◌, String, ◌≡◌, refl, sym, true, false, Option, some, map, arith, eq_iff, Uuid, Time,
  minute, nat_eq, string_eq, contains, lookup, has, map_laws,
}

-- The place that a plugin's answer makes for a client.
abbrev pub offered : Time → String → LoginBody → AuthenticatingClient
offered now secret body = record {
  name = body.player_name;
  secret = secret;
  expires = now + 5 * minute;
  available_roles = map uint8 body.available_roles;
  available_units = body.available_units;
}

module _ (u : UuidText) where
  -- A login with an identifier that was handed out and has not expired, through a plugin that accepts
  -- the credentials, gives out the secret, and makes a place for five minutes with that secret and
  -- what the plugin offers. The clients of the server stay as they are.
  pub login_lem :
      (now : Time) (secret : String) (i : Uuid) (q : LoginRequest) (plugin : PluginClient)
      (body : LoginBody) (s : AuthServer)
      → s.locked ≡ false
      → s.settings.security.enable_plugin_auth ≡ true
      → u.parse q.client_guid ≡ some i
      → has i (remove_expired now s).authenticating_clients ≡ true
      → lookup q.authentication_plugin s.plugin_clients ≡ some plugin
      → plugin q.credentials ≡ accepted_with_result body
      → let (reply, after) = login u now (some secret) q s in
        ((r : LoginResult) × (reply ≡ done (result r)) × (r.secret ≡ secret))
        × (lookup i after.authenticating_clients ≡ some (offered now secret body))
        × (after.state ≡ s.state)
  unfolding login login_answered plugin_login remove_expired
  login_lem now secret i q plugin body s l h e w p a =
      let swept = remove_expired now s in
      let told : LoginResult = record {
        secret = secret;
        available_roles = map built_role body.available_roles;
        available_units = body.available_units;
        available_coalitions = map selected s.settings.coalitions;
        player_name = body.player_name;
      } in
      (
        (told, ground (arith, l, h, e, w, p, a), refl),
        grind (map_laws, l, h, e, w, p, a),
        ground (arith, l, h, e, w, p, a),
      )

  -- The client that then selects a unit with that secret, one of the offered roles, a unit that is
  -- offered or valid and a coalition that exists, gets a token and is on the server with what it
  -- chose, provided that the server has its keys and can sign.
  pub offered_gets_in :
      (j : Jwt) (now later : Time) (secret : String) (i : Uuid) (body : LoginBody)
      (q : SelectRequest) (unit : UnitSelection) (k : KeyPair) (made : Option KeyPair)
      (s : AuthServer)
      → s.locked ≡ false
      → u.parse q.client_guid ≡ some i
      → lookup i s.authenticating_clients ≡ some (offered now secret body)
      → q.secret ≡ secret
      → selected_unit (offered now secret body) q.unit_id ≡ some unit
      → contains (map uint8 body.available_roles) (uint8 q.role) ≡ true
      → does_coalition_exist q.coalition s.settings ≡ true
      → s.keys ≡ some k
      → ((g : Grant) → (token : String) × (j.sign k.private_key g ≡ some token))
      → let (reply, after) = unit_select u j later made q s in
        ((token : String) × (reply ≡ done (result token)))
        × (lookup i after.state.clients ≡ some (selected_state (offered now secret body) q unit))
  unfolding unit_select select_checks is_role_available is_coalition_available does_coalition_exist
      admit_selected generate_token get_keys add_client
  offered_gets_in j now later secret i body q unit k made s l e w known chosen role coalition keys
        signs =
      let t = s.settings.security.token in
      let (token, signed) = signs (record {
        claims = record { client_guid = q.client_guid; role_id = uint8 q.role };
        expires_at = new_numeric_date (add_duration later (seconds t.expiration));
        issued_at = new_numeric_date later;
        issuer = t.issuer;
        subject = t.subject;
        id = q.client_guid;
      }) in
      let same = (eq_iff secret q.secret).1 (sym known) in
      let c = selected_state (offered now secret body) q unit in
      (
        (token, ground (arith, l, e, w, same, chosen, role, coalition, keys, signed)),
        grind (map_laws, l, e, w, same, chosen, role, coalition, keys, signed),
      )
