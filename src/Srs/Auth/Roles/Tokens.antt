-- ===== src/Srs/Auth/Roles/Tokens.antt =====
-- The tokens that UnitSelect gives out, after any calls of the service.
use vcs_srs_server.Srs.Auth.{Attempt, AuthServer, PluginClient, Reply, done, result}
use vcs_srs_server.Srs.Auth.Guest.{Bcrypt}
use vcs_srs_server.Srs.Auth.Select.{
  SelectRequest, admit_selected, is_coalition_available, select_checks, selected_unit, unit_select,
}
use vcs_srs_server.Srs.Checks.{AuthenticatingClient, UnitSelection, UuidText, is_role_available}
use vcs_srs_server.Srs.Updates.{answer, uint8}
use vcs_srs_server.Utils.Auth.{
  seconds, new_numeric_date, add_duration, IsMatching, seconds, new_numeric_date, add_duration,
  IsMatching, IsJwt, Jwt, KeyPair, generate_token, get_token_claims, granted, insufficient_role,
}
use vcs_srs_server.Utils.Auth.Tokens.{get_token_claims-generate_token}
use vcs_srs_server.Srs.Auth.Roles.{AreGranted, Calls, IsGranted, OffersGranted}
use vcs_srs_server.Srs.Auth.Roles.Reach.{Calls-AreGranted, start-AreGranted}
use vcs_srs_server.Base.{
  ℕ, ◌*◌, ◌<◌, String, ◌≡◌, inl, inr, not, Option, some, [], arith, Uuid, Time, second, returns,
  ltb, if◌then◌else◌, ◌==◌, nat_eq, string_eq, Option-cases, contains, Map, lookup, if_rule,
  Option_rule, subst,
}

module _ (plugins : Map String PluginClient) (u : UuidText) (j : Jwt) where
  -- The token was made for the request, whose role is granted.
  abbrev IsMadeFor :
      Time → Option KeyPair → SelectRequest → AuthServer → String → AuthServer → Type 0
  IsMadeFor now made q s token after =
      let t = s.settings.security.token in
      let made_token =
        generate_token j q.client_guid (uint8 q.role) t.issuer t.subject (seconds t.expiration) now
          made s.keys in
      IsGranted plugins (uint8 q.role) × (made_token.0 ≡ some token) × (after.keys ≡ made_token.1)

  admit_selected-IsMadeFor :
      (now : Time) (made : Option KeyPair) (i : Uuid) (c : AuthenticatingClient) (q : SelectRequest)
      (unit : UnitSelection) (s : AuthServer) (token : String)
      → IsGranted plugins (uint8 q.role)
      → (admit_selected u j now made i c q unit s).0 ≡ result token
      → IsMadeFor now made q s token (admit_selected u j now made i c q unit s).1
  unfolding admit_selected
  admit_selected-IsMadeFor now made i c q unit s token role ok =
      let t = s.settings.security.token in
      let (answer, keys) =
        generate_token j q.client_guid (uint8 q.role) t.issuer t.subject (seconds t.expiration) now
          made s.keys in
      elim (Option-cases answer) [
        | inl e ↦ absurd (ground (arith, e))
        | inr (x, e) ↦ (role, ground (arith, e), ground (arith, e))
      ]

  select_checks-IsMadeFor :
      (now : Time) (made : Option KeyPair) (i : Uuid) (c : AuthenticatingClient) (q : SelectRequest)
      (s : AuthServer) (token : String)
      → OffersGranted plugins c
      → (select_checks u j now made i c q s).0 ≡ result token
      → IsMadeFor now made q s token (select_checks u j now made i c q s).1
  unfolding select_checks is_role_available
  select_checks-IsMadeFor now made i c q s token offers =
      let Fits : Reply String × AuthServer → Type 0 =
        λ p. p.0 ≡ result token → IsMadeFor now made q s token p.1 in
      if_rule Fits (not (c.secret == q.secret)) _ _ (λ bad ok. absurd cc)
        (λ known.
          Option_rule Fits (selected_unit c q.unit_id) _ _ (λ bad ok. absurd cc)
            (λ unit chosen.
              if_rule Fits (not (contains c.available_roles (uint8 q.role))) _ _
                (λ bad ok. absurd cc)
                (λ role.
                  if_rule Fits (not (is_coalition_available q.coalition s)) _ _
                    (λ bad ok. absurd cc)
                    (λ coalition.
                      admit_selected-IsMadeFor now made i c q unit s token
                        (offers (uint8 q.role) (ground (arith, role)))))))

  unit_select-IsMadeFor :
      (now : Time) (made : Option KeyPair) (q : SelectRequest) (s : AuthServer) (token : String)
      → AreGranted plugins s
      → (unit_select u j now made q s).0 ≡ done (result token)
      → IsMadeFor now made q s token (unit_select u j now made q s).1
  unfolding unit_select select_checks is_role_available
  unit_select-IsMadeFor now made q s token g =
      let Fits : Attempt (Reply String) × AuthServer → Type 0 =
        λ p. p.0 ≡ done (result token) → IsMadeFor now made q s token p.1 in
      Option_rule Fits (u.parse q.client_guid) _ _ (λ bad ok. absurd cc)
        (λ i parsed.
          Option_rule Fits (lookup i s.authenticating_clients) _ _
            (λ away. if_rule Fits s.locked _ _ (λ held ok. absurd cc) (λ free ok. absurd cc))
            (λ c there.
              if_rule Fits s.locked _ _ (λ held ok. absurd cc)
                (λ free ok.
                  select_checks-IsMadeFor now made i c q s token (g.waiting i c there) cc)))

-- On a server that begins with no client and no login under way, and then gets calls of InitAuth,
-- GuestLogin, Login and UnitSelect in any order: a token that UnitSelect answers with is read back,
-- until the whole second in which it expires and where the private and the public key in use belong
-- together, as one for the client and the role of the request, the role cut to a byte, and refused
-- exactly where that role is below the one that is asked for. The role is one that a configured plugin
-- offered to credentials it accepted.
pub token-IsGranted :
    (u : UuidText) (b : Bcrypt) (j : Jwt) (laws : IsJwt j) (s t : AuthServer) (q : SelectRequest)
    (min_role : ℕ) (now later : Time) (made made' : Option KeyPair) (token : String)
    → s.authenticating_clients ≡ []
    → s.state.clients ≡ []
    → Calls u b j s t
    → (unit_select u j now made q t).0 ≡ done (result token)
    → IsMatching j (unit_select u j now made q t).1.keys
    → later
      < new_numeric_date (add_duration now (seconds t.settings.security.token.expiration)) * second
    → IsGranted s.plugin_clients (uint8 q.role)
      × ((get_token_claims j token min_role later made' (unit_select u j now made q t).1.keys).0
          ≡ returns (
              if ltb (uint8 q.role) min_role
              then insufficient_role (uint8 q.role) min_role
              else granted (record { client_guid = q.client_guid; role_id = uint8 q.role })))
token-IsGranted u b j laws s t q min_role now later made made' token none_waits none_in calls ok
      matching valid =
    let tokens = t.settings.security.token in
    let (role, answered, keys) =
      unit_select-IsMadeFor s.plugin_clients u j now made q t token
        (Calls-AreGranted s.plugin_clients u b j s t (start-AreGranted s none_waits none_in) calls)
        ok in
    (
      role,
      rw keys (
          get_token_claims-generate_token j laws q.client_guid tokens.issuer tokens.subject token
            (uint8 q.role) min_role (seconds tokens.expiration) now later made made' t.keys answered
            (subst (IsMatching j) keys matching) (omega arith) valid),
    )
