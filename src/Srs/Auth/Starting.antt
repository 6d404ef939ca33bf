-- ===== src/Srs/Auth/Starting.antt =====
-- Who may start a login, how long that lasts, and that it admits nobody by itself.
use vcs_srs_server.State.Settings.{get_all_plugin_names}
use vcs_srs_server.Srs.Checks.{AuthenticatingClient, UuidText, check_version, is_role_available}
use vcs_srs_server.Srs.Updates.{uint8}
use vcs_srs_server.Srs.Auth.{
  AuthInitResult, AuthServer, Capabilities, DistributionMode, ProtoMode,
  check_distribution_capabilities, control_mode, distributed, done, fresh_client,
  get_proto_distribution_mode, init_auth, remove_expired, result, standalone, standalone_mode,
  supports, voice_mode,
}
use vcs_srs_server.Utils.Auth.{Jwt, KeyPair}
use vcs_srs_server.Srs.Auth.Select.{SelectRequest, select_checks, selected_unit, unit_select}
use vcs_srs_server.Base.{
  ◌+◌, ◌*◌, ◌≡◌, refl, ◌↔◌, ◌⊎◌, inl, inr, true, false, Option, some, List, [], ◌∷◌, arith, eq_iff,
  Uuid, Time, minute, leb, ◌==◌, nat_eq, string_eq, Bool-cases, Option-cases, Any, contains, lookup,
  lookup-insert, IsUnique, retained, lookup-retain,
}

pub lookup-remove_expired :
    (now : Time) (s : AuthServer) (i : Uuid)
    → IsUnique s.authenticating_clients
    → lookup i (remove_expired now s).authenticating_clients
      ≡ retained (λ _ c. leb now c.expires) i (lookup i s.authenticating_clients)
unfolding remove_expired
lookup-remove_expired now s i h =
    lookup-retain (λ _ c. leb now c.expires) i s.authenticating_clients h

-- The mode that a server runs in, as the client has to know it.
abbrev pub RunsAs : ProtoMode → AuthServer → Type 0
RunsAs m s =
    ((m ≡ distributed) × (s.distribution ≡ control_mode))
    ⊎ ((m ≡ standalone) × (s.distribution ≡ standalone_mode))

supports_iff : (m : ProtoMode) (s : AuthServer) → (supports m s.distribution ≡ true) ↔ RunsAs m s
unfolding supports
supports_iff m s = by_mode m s.distribution
  where
    by_mode :
        (m : ProtoMode) (d : DistributionMode)
        → (supports m d ≡ true)
          ↔ (((m ≡ distributed) × (d ≡ control_mode)) ⊎ ((m ≡ standalone) × (d ≡ standalone_mode)))
    by_mode standalone standalone_mode = (λ h. inr (refl, refl), λ h. refl)
    by_mode standalone control_mode = (λ h. ground arith, λ h. ground arith)
    by_mode standalone voice_mode = (λ h. ground arith, λ h. ground arith)
    by_mode distributed standalone_mode = (λ h. ground arith, λ h. ground arith)
    by_mode distributed control_mode = (λ h. inl (refl, refl), λ h. refl)
    by_mode distributed voice_mode = (λ h. ground arith, λ h. ground arith)

check_iff :
    (ms : List ProtoMode) (s : AuthServer)
    → (check_distribution_capabilities ms s ≡ true) ↔ Any (λ m. RunsAs m s) ms
unfolding check_distribution_capabilities
check_iff [] s = (λ h. ground arith, λ h. absurd h)
check_iff (m ∷ ms) s = (
  λ h. ground (arith, supports_iff m s, check_iff ms s),
  λ h. ground (arith, supports_iff m s, check_iff ms s),
)

module _ (u : UuidText) where
  abbrev started : Uuid → AuthServer → AuthInitResult
  started fresh s = record {
    distribution_mode = get_proto_distribution_mode s;
    available_plugins = get_all_plugin_names s.settings;
    client_guid = u.to_string fresh;
    has_guest_login = s.settings.security.enable_guest_auth;
  }

  -- A start is a success exactly for version 0.1.0 and a client that knows the mode in which the
  -- server runs (a voice server has none); in every case the clients of the server stay as they are.
  pub init_auth_iff :
      (fresh : Uuid) (now : Time) (c : Capabilities) (s : AuthServer)
      → s.locked ≡ false
      → let (reply, after) = init_auth u fresh now (some c) s in
        (((r : AuthInitResult) × (reply ≡ done (result r)))
          ↔ ((c.version ≡ "0.1.0") × Any (λ m. RunsAs m s) c.supported_distribution_modes))
        × (after.state ≡ s.state)
  unfolding init_auth check_version remove_expired get_proto_distribution_mode
  init_auth_iff fresh now c s l = elim (Bool-cases (c.version == "0.1.0")) [
    | inr v ↦ (
      ((λ h. ground (arith, l, v)), λ h. ground (arith, l, v, eq_iff c.version "0.1.0")),
      ground (arith, l, v),
    )
    | inl v ↦
        let swept = remove_expired now s in
        let known = check_iff c.supported_distribution_modes swept in
        let version = (eq_iff c.version "0.1.0").0 v in
        elim (Bool-cases (check_distribution_capabilities c.supported_distribution_modes swept)) [
          | inr d ↦ (
            ((λ h. ground (arith, l, v, d)), λ h. absurd (ground (arith, d, known.1 h.1))),
            ground (arith, l, v, d),
          )
          | inl d ↦ (
            ((λ h. (version, known.0 d)), λ h. (started fresh swept, ground (arith, l, v, d))),
            ground (arith, l, v, d),
          )
        ]
  ]

  -- A start that is a success hands out the new identifier and makes a place for twenty minutes
  -- under it.
  pub init_auth_waits :
      (fresh : Uuid) (now : Time) (c : Capabilities) (r : AuthInitResult) (s : AuthServer)
      → (init_auth u fresh now (some c) s).0 ≡ done (result r)
      → (r.client_guid ≡ u.to_string fresh)
        × (lookup fresh (init_auth u fresh now (some c) s).1.authenticating_clients
            ≡ some (fresh_client (now + 20 * minute)))
  unfolding init_auth remove_expired
  init_auth_waits fresh now c r s ok = elim (Bool-cases s.locked) [
    | inl l ↦ absurd (ground (arith, l))
    | inr l ↦
        let swept = remove_expired now s in
        let put =
          lookup-insert fresh fresh (fresh_client (now + 20 * minute))
            swept.authenticating_clients in
        elim (Bool-cases (check_version c.version)) [
          | inr v ↦ absurd (ground (arith, l, v))
          | inl v ↦
              elim (Bool-cases
                (check_distribution_capabilities c.supported_distribution_modes swept)) [
                  | inr d ↦ absurd (ground (arith, l, v, d))
                  | inl d ↦ (ground (arith, l, v, d), ground (arith, l, v, d, put))
                ]
        ]
  ]

  unoffered_stays_out :
      (j : Jwt) (later : Time) (made : Option KeyPair) (i : Uuid) (c : AuthenticatingClient)
      (q : SelectRequest) (s : AuthServer)
      → u.parse q.client_guid ≡ some i
      → lookup i s.authenticating_clients ≡ some c
      → c.available_roles ≡ []
      → (unit_select u j later made q s).1 ≡ s
  unfolding unit_select select_checks is_role_available
  unoffered_stays_out j later made i c q s parsed waits none_offered =
      let role : contains c.available_roles (uint8 q.role) ≡ false = rw (none_offered) refl in
      ground (
        arith,
        parsed,
        waits,
        role,
        Bool-cases (c.secret == q.secret),
        Option-cases (selected_unit c q.unit_id),
        Bool-cases s.locked,
      )

  -- Having started admits nobody: UnitSelect with the identifier that InitAuth handed out changes
  -- nothing, whatever else it is given, as long as no plugin has offered a role.
  pub started_is_not_admitted :
      (j : Jwt) (fresh : Uuid) (now later : Time) (c : Capabilities) (r : AuthInitResult)
      (q : SelectRequest) (made : Option KeyPair) (s : AuthServer)
      → (init_auth u fresh now (some c) s).0 ≡ done (result r)
      → u.parse q.client_guid ≡ some fresh
      → let after = (init_auth u fresh now (some c) s).1 in
        (unit_select u j later made q after).1 ≡ after
  started_is_not_admitted j fresh now later c r q made s ok parsed =
      unoffered_stays_out j later made fresh (fresh_client (now + 20 * minute)) q
        (init_auth u fresh now (some c) s).1 parsed (init_auth_waits fresh now c r s ok).1 refl
