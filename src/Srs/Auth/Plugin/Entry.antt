-- ===== src/Srs/Auth/Plugin/Entry.antt =====
-- The whole way of a client through InitAuth, Login and UnitSelect.
use Prim.Native.String.{◌++◌ as str_append}
use vcs_srs_server.State.Settings.{Coalition, coalition_named, does_coalition_exist}
use vcs_srs_server.Utils.Auth.{Grant, Jwt, KeyPair}
use vcs_srs_server.Srs.Checks.{
  AuthenticatingClient, IsUuidText, UnitSelection, UuidText, check_version, get_selected_unit,
}
use vcs_srs_server.Srs.Checks.Laws.{HasUnitForm, check_unit_id_iff}
use vcs_srs_server.Srs.Updates.{uint8}
use vcs_srs_server.Srs.Auth.{
  AuthServer, Capabilities, LoginBody, PluginClient, accepted_with_result,
  check_distribution_capabilities, done, fresh_client, init_auth, remove_expired, result,
}
use vcs_srs_server.Srs.Auth.Starting.{RunsAs, init_auth_iff, init_auth_waits}
use vcs_srs_server.Srs.Auth.Plugin.{LoginRequest, login, login_answered, plugin_login}
use vcs_srs_server.Srs.Auth.Plugin.Laws.{login_lem, offered, offered_gets_in}
use vcs_srs_server.Srs.Auth.Select.{SelectRequest, selected_unit, unit_select}
use vcs_srs_server.Srs.Auth.Select.Laws.{selected_unit-id}
use vcs_srs_server.Base.{
  ℕ, ◌+◌, ◌*◌, ◌%◌, ◌^◌, ◌≤◌, String, ◌≡◌, refl, ◌∙◌, inl, inr, Bool, true, false, Option, some,
  List, [], ◌∷◌, map, arith, eq_iff, Uuid, Time, minute, leb, ◌==◌, nat_eq, string_eq, Bool-cases,
  Option-cases, Any, contains, Map, lookup, retain, has,
}

lookup-retain_kept :
    (keep : Uuid → AuthenticatingClient → Bool) (i : Uuid) (c : AuthenticatingClient)
    (m : Map Uuid AuthenticatingClient)
    → lookup i m ≡ some c
    → keep i c ≡ true
    → lookup i (retain keep m) ≡ some c
unfolding lookup retain
lookup-retain_kept keep i c [] h kept = h
lookup-retain_kept keep i c ((k, d) ∷ m) h kept = elim (Bool-cases (k == i)) [
  | inl e ↦
      let same : (k ≡ i) × (d ≡ c) = ground arith in
      let fits : keep k d ≡ true = rw (same.0, same.1) kept in ground (arith, e, fits)
  | inr e ↦ ground (arith, lookup-retain_kept keep i c m, Bool-cases (keep k d), e)
]

still_waits :
    (now : Time) (i : Uuid) (c : AuthenticatingClient) (s : AuthServer)
    → lookup i s.authenticating_clients ≡ some c
    → now ≤ c.expires
    → has i (remove_expired now s).authenticating_clients ≡ true
unfolding remove_expired
still_waits now i c s h fits =
    let kept =
      lookup-retain_kept (λ _ d. leb now d.expires) i c s.authenticating_clients h (ground arith) in
    ground (arith, kept)

-- What neither InitAuth nor a Login that comes about changes.
abbrev IsSameServer : AuthServer → AuthServer → Type 0
IsSameServer s t =
    (t.locked ≡ s.locked)
    × (t.settings ≡ s.settings)
    × (t.plugin_clients ≡ s.plugin_clients)
    × (t.keys ≡ s.keys)

module _ (u : UuidText) where
  init_auth-IsSameServer :
      (fresh : Uuid) (now : Time) (c : Capabilities) (s : AuthServer)
      → IsSameServer s (init_auth u fresh now (some c) s).1
  unfolding init_auth remove_expired
  init_auth-IsSameServer fresh now c s = ground (
    arith,
    Bool-cases s.locked,
    Bool-cases (check_version c.version),
    Bool-cases
        (check_distribution_capabilities c.supported_distribution_modes (remove_expired now s)),
  )

  login-IsSameServer :
      (now : Time) (secret : String) (i : Uuid) (q : LoginRequest) (plugin : PluginClient)
      (body : LoginBody) (s : AuthServer)
      → s.locked ≡ false
      → s.settings.security.enable_plugin_auth ≡ true
      → u.parse q.client_guid ≡ some i
      → has i (remove_expired now s).authenticating_clients ≡ true
      → lookup q.authentication_plugin s.plugin_clients ≡ some plugin
      → plugin q.credentials ≡ accepted_with_result body
      → IsSameServer s (login u now (some secret) q s).1
  unfolding login login_answered plugin_login remove_expired
  login-IsSameServer now secret i q plugin body s l h e w p a = ground (arith, l, h, e, w, p, a)

role_offered :
    (roles : List ℕ) (role : ℕ)
    → Any (λ r. uint8 r ≡ uint8 role) roles
    → contains (map uint8 roles) (uint8 role) ≡ true
role_offered [] role h = absurd h
role_offered (r ∷ roles) role (inl e) = ground arith
role_offered (r ∷ roles) role (inr h) = ground (arith, role_offered roles role h)

coalition_there :
    (name : String) (cs : List Coalition)
    → Any (λ (c : Coalition). c.name ≡ name) cs
    → coalition_named name cs ≡ true
unfolding coalition_named
coalition_there name [] h = absurd h
coalition_there name (c ∷ cs) (inl e) = ground (arith, eq_iff c.name name)
coalition_there name (c ∷ cs) (inr h) = ground (arith, coalition_there name cs h)

-- A unit with a valid identifier is selected, with that identifier.
valid_unit :
    (c : AuthenticatingClient) (unit_id : String)
    → HasUnitForm unit_id
    → (unit : UnitSelection) × (selected_unit c unit_id ≡ some unit) × (unit.unit_id ≡ unit_id)
unfolding selected_unit
valid_unit c unit_id form = elim (Option-cases (get_selected_unit c unit_id)) [
  | inr (unit, e) ↦
      let chosen : selected_unit c unit_id ≡ some unit = ground (arith, e) in
      (unit, chosen, selected_unit-id c unit_id unit chosen)
  | inl e ↦
      let valid = (check_unit_id_iff unit_id).1 form in
      (
        record { unit_id = unit_id; unit_name = str_append "Unit " unit_id },
        ground (arith, e, valid),
        refl,
      )
]

-- The parts of an honest entry: the three requests agree with each other and with the server.
pub record IsHonest (u : UuidText) (s : AuthServer) (fresh : Uuid) (c : Capabilities)
    (p : LoginRequest) (body : LoginBody) (q : SelectRequest) (secret : String) : Type 0 where
  pub version : c.version ≡ "0.1.0"
  pub mode : Any (λ m. RunsAs m s) c.supported_distribution_modes
  pub enabled : s.settings.security.enable_plugin_auth ≡ true
  pub login_guid : p.client_guid ≡ u.to_string fresh
  pub plugin : PluginClient
  pub known : lookup p.authentication_plugin s.plugin_clients ≡ some plugin
  pub accepted : plugin p.credentials ≡ accepted_with_result body
  pub select_guid : q.client_guid ≡ u.to_string fresh
  pub secret_given : q.secret ≡ secret
  pub unit_form : HasUnitForm q.unit_id
  pub role : Any (λ r. uint8 r ≡ uint8 q.role) body.available_roles
  pub coalition : Any (λ (k : Coalition). k.name ≡ q.coalition) s.settings.coalitions

-- On a server whose mutex is not left locked and that has its keys and can sign: a client that knows
-- the version and the mode starts, logs in within twenty minutes through an enabled plugin that accepts
-- its credentials, and selects with the secret a unit with a valid identifier, one of the offered roles
-- and a coalition that exists. It then gets a token, and is on the server with the name that the plugin
-- gives and what it selected.
pub honest_client_gets_in :
    (u : UuidText) (laws : IsUuidText u) (j : Jwt) (fresh : Uuid) (now soon later : Time)
    (c : Capabilities) (p : LoginRequest) (body : LoginBody) (q : SelectRequest) (secret : String)
    (k : KeyPair) (made : Option KeyPair) (s : AuthServer)
    → s.locked ≡ false
    → IsHonest u s fresh c p body q secret
    → soon ≤ now + 20 * minute
    → s.keys ≡ some k
    → ((g : Grant) → (token : String) × (j.sign k.private_key g ≡ some token))
    → let started = (init_auth u fresh now (some c) s).1 in
      let logged_in = (login u soon (some secret) p started).1 in
      let (reply, after) = unit_select u j later made q logged_in in
      ((token : String) × (reply ≡ done (result token)))
      × (lookup fresh after.state.clients
          ≡ some (record {
            name = body.player_name;
            unit_id = q.unit_id;
            coalition = q.coalition;
            role = q.role % 2 ^ 8;
            last_update = 0;
          }))
unfolding does_coalition_exist
honest_client_gets_in u laws j fresh now soon later c p body q secret k made s free h soon_enough
      keys signs =
    let started = (init_auth u fresh now (some c) s).1 in
    let (lock1, settings1, plugins1, keys1) = init_auth-IsSameServer u fresh now c s in
    let (r, ok) = (init_auth_iff u fresh now c s free).0.1 (h.version, h.mode) in
    let waits = (init_auth_waits u fresh now c r s ok).1 in
    let parsed : u.parse p.client_guid ≡ some fresh =
      rw h.login_guid (laws.parse-to_string fresh) in
    let parsed_again : u.parse q.client_guid ≡ some fresh =
      rw h.select_guid (laws.parse-to_string fresh) in
    let free1 : started.locked ≡ false = lock1 ∙ free in
    let enabled1 : started.settings.security.enable_plugin_auth ≡ true = rw settings1 h.enabled in
    let there : has fresh (remove_expired soon started).authenticating_clients ≡ true =
      still_waits soon fresh (fresh_client (now + 20 * minute)) started waits soon_enough in
    let known1 : lookup p.authentication_plugin started.plugin_clients ≡ some h.plugin =
      rw plugins1 h.known in
    let logged_in = (login u soon (some secret) p started).1 in
    let (lock2, settings2, plugins2, keys2) =
      login-IsSameServer u soon secret fresh p h.plugin body started free1 enabled1 parsed there
        known1 h.accepted in
    let (_, placed, _) =
      login_lem u soon secret fresh p h.plugin body started free1 enabled1 parsed there known1
        h.accepted in
    let (unit, chosen, asked) = valid_unit (offered soon secret body) q.unit_id h.unit_form in
    let exists : does_coalition_exist q.coalition logged_in.settings ≡ true =
      rw (settings2, settings1) (coalition_there q.coalition s.settings.coalitions h.coalition) in
    let (token, in_now) =
      offered_gets_in u j soon later secret fresh body q unit k made logged_in (lock2 ∙ free1)
        parsed_again placed h.secret_given chosen (role_offered body.available_roles q.role h.role)
        exists (keys2 ∙ keys1 ∙ keys) signs in
    (token, in_now ∙ ground (arith, asked))
