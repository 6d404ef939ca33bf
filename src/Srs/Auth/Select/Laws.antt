-- ===== src/Srs/Auth/Select/Laws.antt =====
-- Whom UnitSelect lets in.
use mathlib.Core.Path.{subst}
use vcs_srs_server.State.Server.{add_client}
use vcs_srs_server.State.Settings.{Coalition, coalition_named}
use vcs_srs_server.Utils.Auth.{Jwt, KeyPair, generate_token, seconds}
use vcs_srs_server.Srs.Checks.{
  AuthenticatingClient, UnitSelection, UuidText, check_unit_id, find_unit, get_selected_unit,
  is_role_available,
}
use vcs_srs_server.Srs.Checks.Laws.{HasUnitForm, check_unit_id_iff}
use vcs_srs_server.Srs.Updates.{uint8}
use vcs_srs_server.Srs.Auth.{AuthServer}
use vcs_srs_server.Srs.Auth.Select.{
  SelectRequest, admit_selected, is_coalition_available, select_checks, selected_state,
  selected_unit, unit_select,
}
use vcs_srs_server.Base.{
  ℕ, ◌%◌, ◌^◌, String, ◌≡◌, sym, ◌⊎◌, inl, inr, true, Option, none, some, List, [], ◌∷◌, arith,
  eq_iff, Uuid, Time, ◌==◌, nat_eq, string_eq, Bool-cases, Option-cases, Any, contains, lookup,
  lookup-delete,
}

-- What has to hold of a request for the client `i` to be let in, and what is then the case.
pub record SelectAdmits (u : UuidText) (q : SelectRequest) (s after : AuthServer) : Type 0 where
  pub guid : Uuid
  pub client : AuthenticatingClient
  pub unit : UnitSelection
  pub guid_known : u.parse q.client_guid ≡ some guid
  pub waiting : lookup guid s.authenticating_clients ≡ some client
  pub secret_known : client.secret ≡ q.secret
  pub unit_asked : unit.unit_id ≡ q.unit_id
  pub unit_offered : Any (λ v. v ≡ unit) client.available_units ⊎ HasUnitForm q.unit_id
  pub role_offered : Any (λ r. r ≡ q.role % 2 ^ 8) client.available_roles
  pub coalition_exists : Any (λ (c : Coalition). c.name ≡ q.coalition) s.settings.coalitions
  pub added :
      after.state
      ≡ add_client guid
          (record {
            name = client.name;
            unit_id = q.unit_id;
            coalition = q.coalition;
            role = q.role % 2 ^ 8;
            last_update = 0;
          })
          s.state
  pub waits_no_more : lookup guid after.authenticating_clients ≡ none

find_unit-id :
    (unit_id : String) (us : List UnitSelection) (v : UnitSelection)
    → find_unit unit_id us ≡ some v
    → v.unit_id ≡ unit_id
unfolding find_unit
find_unit-id unit_id [] v h = absurd (ground arith)
find_unit-id unit_id (w ∷ us) v h =
    ground (arith, eq_iff w.unit_id unit_id, find_unit-id unit_id us v)

-- The unit that a client gets is the one that it asked for.
pub selected_unit-id :
    (c : AuthenticatingClient) (unit_id : String) (unit : UnitSelection)
    → selected_unit c unit_id ≡ some unit
    → unit.unit_id ≡ unit_id
unfolding selected_unit get_selected_unit
selected_unit-id c unit_id unit h = elim (Option-cases (find_unit unit_id c.available_units)) [
  | inl e ↦ ground (arith, e)
  | inr (v, e) ↦ ground (arith, e, find_unit-id unit_id c.available_units v e)
]

find_unit-Any :
    (unit_id : String) (us : List UnitSelection) (v : UnitSelection)
    → find_unit unit_id us ≡ some v
    → Any (λ w. w ≡ v) us
unfolding find_unit
find_unit-Any unit_id [] v h = absurd (ground arith)
find_unit-Any unit_id (w ∷ us) v h = elim (Bool-cases (w.unit_id == unit_id)) [
  | inl e ↦ inl (ground (arith, e))
  | inr e ↦ inr (find_unit-Any unit_id us v (ground (arith, e)))
]

-- The unit that a client gets is one that it was offered, or has a valid identifier.
selected_unit-Any :
    (c : AuthenticatingClient) (unit_id : String) (unit : UnitSelection)
    → selected_unit c unit_id ≡ some unit
    → Any (λ v. v ≡ unit) c.available_units ⊎ HasUnitForm unit_id
unfolding selected_unit get_selected_unit
selected_unit-Any c unit_id unit h = elim (Option-cases (find_unit unit_id c.available_units)) [
  | inr (v, e) ↦ inl (find_unit-Any unit_id c.available_units unit (ground (arith, e)))
  | inl e ↦ elim (Bool-cases (check_unit_id unit_id)) [
    | inl valid ↦ inr ((check_unit_id_iff unit_id).0 valid)
    | inr bad ↦ absurd (ground (arith, e, bad))
  ]
]

available-Any : (roles : List ℕ) (role : ℕ) → contains roles role ≡ true → Any (λ r. r ≡ role) roles
available-Any [] role h = absurd (ground arith)
available-Any (r ∷ roles) role h = elim (Bool-cases (r == role)) [
  | inl e ↦ inl (ground (arith, e))
  | inr e ↦ inr (available-Any roles role (ground (arith, e)))
]

coalition_named-Any :
    (name : String) (cs : List Coalition)
    → coalition_named name cs ≡ true
    → Any (λ (c : Coalition). c.name ≡ name) cs
unfolding coalition_named
coalition_named-Any name [] h = absurd (ground arith)
coalition_named-Any name (c ∷ cs) h = elim (Bool-cases (c.name == name)) [
  | inl e ↦ inl ((eq_iff c.name name).0 e)
  | inr e ↦ inr (coalition_named-Any name cs (ground (arith, e)))
]

module _ (u : UuidText) (j : Jwt) where
  admit_selected_lem :
      (now : Time) (made : Option KeyPair) (i : Uuid) (c : AuthenticatingClient) (q : SelectRequest)
      (unit : UnitSelection) (s : AuthServer)
      → let after = (admit_selected u j now made i c q unit s).1 in
        (after.state ≡ add_client i (selected_state c q unit) s.state)
        × (lookup i after.authenticating_clients ≡ none)
  unfolding admit_selected
  admit_selected_lem now made i c q unit s =
      let d = lookup-delete i i s.authenticating_clients in
      let t = s.settings.security.token in
      let (token, keys) =
        generate_token j q.client_guid (uint8 q.role) t.issuer t.subject (seconds t.expiration) now
          made s.keys in
      elim (Option-cases token) [
        | inl e ↦ (ground (arith, e), ground (arith, e, d))
        | inr (x, e) ↦ (ground (arith, e), ground (arith, e, d))
      ]

  -- From the secret on: either nothing changes, or the client is let in.
  select_checks_lem :
      (now : Time) (made : Option KeyPair) (i : Uuid) (c : AuthenticatingClient) (q : SelectRequest)
      (s : AuthServer)
      → u.parse q.client_guid ≡ some i
      → lookup i s.authenticating_clients ≡ some c
      → let after = (select_checks u j now made i c q s).1 in (after ≡ s) ⊎ SelectAdmits u q s after
  unfolding select_checks is_coalition_available is_role_available
  select_checks_lem now made i c q s parsed known = elim (Bool-cases (c.secret == q.secret)) [
    | inr h ↦ inl (ground (arith, h))
    | inl h ↦ elim (Option-cases (selected_unit c q.unit_id)) [
      | inl e ↦ inl (ground (arith, h, e))
      | inr (unit, e) ↦ elim (Bool-cases (contains c.available_roles (uint8 q.role))) [
        | inr f ↦ inl (ground (arith, h, e, f))
        | inl f ↦ elim (Bool-cases (coalition_named q.coalition s.settings.coalitions)) [
          | inr g ↦ inl (ground (arith, h, e, f, g))
          | inl g ↦
              let a = admit_selected_lem now made i c q unit s in
              inr (record {
                guid = i;
                client = c;
                unit = unit;
                guid_known = parsed;
                waiting = known;
                secret_known = (eq_iff c.secret q.secret).0 h;
                unit_asked = selected_unit-id c q.unit_id unit e;
                unit_offered = selected_unit-Any c q.unit_id unit e;
                role_offered = available-Any c.available_roles (uint8 q.role) f;
                coalition_exists = coalition_named-Any q.coalition s.settings.coalitions g;
                added = ground (arith, h, e, f, g, a, selected_unit-id c q.unit_id unit e);
                waits_no_more = ground (arith, h, e, f, g, a);
              })
        ]
      ]
    ]
  ]

  -- UnitSelect either changes nothing or lets in one client: one that waits under the identifier of
  -- the request, with its secret, a unit that is among the offered ones or whose identifier is two to
  -- four capital letters or digits, a role, cut to a byte, that is among the offered ones, and the name
  -- of a coalition of the settings. That client is added with what was chosen, and waits no more.
  pub unit_select_lem :
      (now : Time) (made : Option KeyPair) (q : SelectRequest) (s : AuthServer)
      → let after = (unit_select u j now made q s).1 in (after ≡ s) ⊎ SelectAdmits u q s after
  unfolding unit_select
  unit_select_lem now made q s = elim (Option-cases (u.parse q.client_guid)) [
    | inl e ↦ inl (ground (arith, e))
    | inr (i, e) ↦ elim (Option-cases (lookup i s.authenticating_clients)) [
      | inl f ↦ inl (ground (arith, e, f, Bool-cases s.locked))
      | inr (c, f) ↦ elim (Bool-cases s.locked) [
        | inl l ↦ inl (ground (arith, e, f, l))
        | inr l ↦
            let same : (unit_select u j now made q s).1 ≡ (select_checks u j now made i c q s).1 =
              ground (arith, e, f, l) in
            subst (λ a. (a ≡ s) ⊎ SelectAdmits u q s a) (sym same)
              (select_checks_lem now made i c q s e f)
      ]
    ]
  ]
