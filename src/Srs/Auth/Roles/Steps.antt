-- ===== src/Srs/Auth/Roles/Steps.antt =====
-- What each call of the service does with the roles.
use vcs_srs_server.Events.{publish}
use vcs_srs_server.State.Server.{add_client}
use vcs_srs_server.State.Settings.{Coalition}
use vcs_srs_server.Srs.Auth.{
  AuthServer, Capabilities, PluginAnswer, PluginClient, Reply, accepted_with_message,
  accepted_with_result, accepted_without_result, call_failed, check_distribution_capabilities,
  declined, declined_without_message, fresh_client, init_auth, remove_expired,
}
use vcs_srs_server.Srs.Auth.Guest.{
  Bcrypt, GuestCall, GuestRequest, GuestResult, admit_guest, guest_login, guest_state,
  search_coalition, select_coalition,
}
use vcs_srs_server.Srs.Auth.Plugin.{LoginRequest, login, login_answered, plugin_login}
use vcs_srs_server.Srs.Auth.Select.{
  SelectRequest, admit_selected, is_coalition_available, select_checks, selected_state,
  selected_unit, unit_select,
}
use vcs_srs_server.Srs.Checks.{
  AuthenticatingClient, UnitSelection, UuidText, check_unit_id, check_username, check_version,
  is_role_available,
}
use vcs_srs_server.Srs.Radio.{clients_event}
use vcs_srs_server.Srs.Updates.{uint8}
use vcs_srs_server.Utils.Auth.{seconds, seconds, Jwt, KeyPair, generate_token, guest_role}
use vcs_srs_server.Srs.Auth.Roles.{
  AreGranted, IsGranted, added-AreGranted, other_parts-AreGranted, place-AreGranted,
  remove_expired-AreGranted, taken-AreGranted,
}
use vcs_srs_server.Srs.Auth.Plugin.Laws.{offered}
use vcs_srs_server.Base.{
  ◌+◌, ◌*◌, String, ◌≡◌, refl, inl, inr, true, not, Option, none, some, arith, Uuid, Time, minute,
  ◌==◌, nat_eq, string_eq, contains, Map, lookup, delete, has, if_rule, Option_rule,
}

module _ (plugins : Map String PluginClient) (u : UuidText) where
  -- The server that comes with an answer.
  abbrev After : {A : Type 0} → A × AuthServer → Type 0
  After p = AreGranted plugins p.1

  pub init_auth-AreGranted :
      (fresh : Uuid) (now : Time) (c : Option Capabilities) (s : AuthServer)
      → AreGranted plugins s
      → After (init_auth u fresh now c s)
  unfolding init_auth
  init_auth-AreGranted fresh now none s g = g
  init_auth-AreGranted fresh now (some c) s g =
      let t = remove_expired now s in
      let swept = remove_expired-AreGranted plugins now s g in
      if_rule After s.locked _ _ (λ held. g)
        (λ free.
          if_rule After (not (check_version c.version)) _ _ (λ old. swept)
            (λ new.
              if_rule After (not (check_distribution_capabilities c.supported_distribution_modes t))
                _ _ (λ unable. swept)
                (λ able.
                  place-AreGranted plugins fresh (fresh_client (now + 20 * minute)) t
                    (λ role offers. absurd (ground arith)) swept)))

  login_answered-AreGranted :
      (now : Time) (secret : Option String) (i : Uuid) (name : String) (plugin : PluginClient)
      (credentials : Map String String) (answer : PluginAnswer) (s : AuthServer)
      → lookup name plugins ≡ some plugin
      → plugin credentials ≡ answer
      → AreGranted plugins s
      → After (login_answered now secret i answer s)
  unfolding login_answered plugin_login
  login_answered-AreGranted now secret i name plugin credentials (call_failed e) s known said g = g
  login_answered-AreGranted now secret i name plugin credentials (declined e) s known said g = g
  login_answered-AreGranted now secret i name plugin credentials declined_without_message s known
        said g =
      g
  login_answered-AreGranted now secret i name plugin credentials (accepted_with_message e) s known
        said g =
      Option_rule After secret _ _ (λ no. g) (λ words yes. g)
  login_answered-AreGranted now secret i name plugin credentials accepted_without_result s known
        said g =
      Option_rule After secret _ _ (λ no. g) (λ words yes. g)
  login_answered-AreGranted now secret i name plugin credentials (accepted_with_result body) s known
        said g =
      Option_rule After secret _ _ (λ no. g)
        (λ words yes.
          place-AreGranted plugins i (offered now words body) s
            (λ role offers. record {
              name = name;
              plugin = plugin;
              credentials = credentials;
              body = body;
              known = known;
              accepted = said;
              offers = offers;
            })
            g)

  pub login-AreGranted :
      (now : Time) (secret : Option String) (q : LoginRequest) (s : AuthServer)
      → AreGranted plugins s
      → After (login u now secret q s)
  unfolding login
  login-AreGranted now secret q s g =
      let t = remove_expired now s in
      let swept = remove_expired-AreGranted plugins now s g in
      if_rule After (not s.settings.security.enable_plugin_auth) _ _ (λ off. g)
        (λ on.
          if_rule After s.locked _ _ (λ held. g)
            (λ free.
              Option_rule After (u.parse q.client_guid) _ _ (λ bad. swept)
                (λ i parsed.
                  if_rule After (not (has i t.authenticating_clients)) _ _ (λ away. swept)
                    (λ there.
                      Option_rule After (lookup q.authentication_plugin t.plugin_clients) _ _
                        (λ absent. swept)
                        (λ plugin found.
                          login_answered-AreGranted now secret i q.authentication_plugin plugin
                            q.credentials (plugin q.credentials) t
                            (ground (arith, swept.same_plugins, found)) refl swept)))))

  module _ (b : Bcrypt) (j : Jwt) where
    admit_guest-AreGranted :
        (call : GuestCall) (i : Uuid) (q : GuestRequest) (c : Coalition) (s : AuthServer)
        → AreGranted plugins s
        → After (admit_guest u b j call i q c s)
    unfolding admit_guest
    admit_guest-AreGranted call i q c s g =
        let t = s.settings.security.token in
        let (token, keys) =
          generate_token j (u.to_string i) guest_role t.issuer t.subject (seconds t.expiration)
            call.now call.made s.keys in
        let added = added-AreGranted plugins i (guest_state u b j q c) keys s (inl refl) g in
        if_rule After (not (check_unit_id q.unit_id)) _ _ (λ bad. g)
          (λ good.
            let after : AuthServer = record s {
              state = add_client i (guest_state u b j q c) s.state;
              keys = keys;
            } in
            Option_rule {B = AuthServer → Reply GuestResult × AuthServer}
              (λ reply. AreGranted plugins (reply after).1) token _ _ (λ failed. added)
              (λ signed e.
                other_parts-AreGranted plugins (publish clients_event s.bus) s.locked keys after
                  added))

    pub guest_login-AreGranted :
        (call : GuestCall) (q : GuestRequest) (s : AuthServer)
        → AreGranted plugins s
        → After (guest_login u b j call q s)
    unfolding guest_login search_coalition
    guest_login-AreGranted call q s g =
        let t = remove_expired call.now s in
        let swept = remove_expired-AreGranted plugins call.now s g in
        if_rule After (not s.settings.security.enable_guest_auth) _ _ (λ off. g)
          (λ on.
            if_rule After s.locked _ _ (λ held. g)
              (λ free.
                Option_rule After (u.parse q.client_guid) _ _ (λ bad. swept)
                  (λ i parsed.
                    if_rule After (not (has i t.authenticating_clients)) _ _ (λ away. swept)
                      (λ there.
                        if_rule After (not (check_username q.name)) _ _ (λ bad. swept)
                          (λ named.
                            Option_rule After
                              (select_coalition u b j call.salts 0 q.password t.settings.coalitions)
                              _ _
                              (λ wrong. other_parts-AreGranted plugins t.bus true t.keys t swept)
                              (λ c right. admit_guest-AreGranted call i q c t swept))))))

    admit_selected-AreGranted :
        (now : Time) (made : Option KeyPair) (i : Uuid) (c : AuthenticatingClient)
        (q : SelectRequest) (unit : UnitSelection) (s : AuthServer)
        → IsGranted plugins (uint8 q.role)
        → AreGranted plugins s
        → After (admit_selected u j now made i c q unit s)
    unfolding admit_selected
    admit_selected-AreGranted now made i c q unit s role g =
        let t = s.settings.security.token in
        let (token, keys) =
          generate_token j q.client_guid (uint8 q.role) t.issuer t.subject (seconds t.expiration)
            now made s.keys in
        let state = add_client i (selected_state c q unit) s.state in
        let after : AuthServer = record s {
          state = state;
          authenticating_clients = delete i s.authenticating_clients;
          keys = keys;
        } in
        let added =
          taken-AreGranted plugins i (record s { state = state; keys = keys })
            (added-AreGranted plugins i (selected_state c q unit) keys s (inr role) g) in
        Option_rule {B = AuthServer → Reply String × AuthServer}
          (λ reply. AreGranted plugins (reply after).1) token _ _ (λ failed. added)
          (λ signed e.
            other_parts-AreGranted plugins (publish clients_event s.bus) s.locked keys after added)

    pub unit_select-AreGranted :
        (now : Time) (made : Option KeyPair) (q : SelectRequest) (s : AuthServer)
        → AreGranted plugins s
        → After (unit_select u j now made q s)
    unfolding unit_select select_checks is_role_available
    unit_select-AreGranted now made q s g =
        Option_rule After (u.parse q.client_guid) _ _ (λ bad. g)
          (λ i parsed.
            Option_rule After (lookup i s.authenticating_clients) _ _
              (λ away. if_rule After s.locked _ _ (λ held. g) (λ free. g))
              (λ c there.
                if_rule After s.locked _ _ (λ held. g)
                  (λ free.
                    if_rule After (not (c.secret == q.secret)) _ _ (λ bad. g)
                      (λ known.
                        Option_rule After (selected_unit c q.unit_id) _ _ (λ bad. g)
                          (λ unit chosen.
                            if_rule After (not (contains c.available_roles (uint8 q.role))) _ _
                              (λ bad. g)
                              (λ role.
                                if_rule After (not (is_coalition_available q.coalition s)) _ _
                                  (λ bad. g)
                                  (λ coalition.
                                    admit_selected-AreGranted now made i c q unit s
                                      (g.waiting i c there (uint8 q.role) (ground (arith, role)))
                                      g)))))))
