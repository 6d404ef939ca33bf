-- ===== src/Srs/Auth/Guest/Laws.antt =====
-- Whom GuestLogin lets in, and what a wrong password does.
use mathlib.Core.Path.{subst}
use Prim.Native.String.{len}
use vcs_srs_server.State.Server.{add_client}
use vcs_srs_server.State.Settings.{Coalition}
use vcs_srs_server.Utils.Auth.{Jwt, generate_token, guest_role, seconds}
use vcs_srs_server.Srs.Checks.{AuthenticatingClient, UuidText, check_unit_id, check_username}
use vcs_srs_server.Srs.Checks.Laws.{HasUnitForm, check_unit_id_iff, check_username_iff}
use vcs_srs_server.Srs.Auth.{
  AuthServer, Capabilities, blocked, done, failure, init_auth, remove_expired,
}
use vcs_srs_server.Srs.Auth.Starting.{lookup-remove_expired}
use vcs_srs_server.Srs.Auth.Guest.{
  Bcrypt, GuestCall, GuestRequest, Salt, admit_guest, guest_login, guest_state, hash_password,
  search_coalition, select_coalition,
}
use vcs_srs_server.Base.{
  ℕ, suc, ◌+◌, ◌≤◌, String, ◌≡◌, sym, ap, ◌⊎◌, inl, inr, true, false, none, some, List, [], ◌∷◌,
  arith, eq_iff, Uuid, Time, ◌==◌, nat_eq, string_eq, Bool-cases, Option-cases, get_elem?, lookup,
  IsUnique, has,
}

-- The given text is the hash of the password under the salt; where bcrypt fails, the empty text.
abbrev pub IsHash : Bcrypt → Salt → String → String → Type 0
IsHash b salt password given =
    (b.generate_from_password salt password ≡ some given)
    ⊎ ((b.generate_from_password salt password ≡ none) × (given ≡ ""))

-- What has to hold of a request for a guest to be let in, and what is then the case.
pub record GuestAdmits (u : UuidText) (b : Bcrypt) (j : Jwt) (call : GuestCall) (q : GuestRequest)
    (s after : AuthServer) : Type 0 where
  pub guid : Uuid
  pub coalition : Coalition
  pub enabled : s.settings.security.enable_guest_auth ≡ true
  pub guid_known : u.parse q.client_guid ≡ some guid
  pub client : AuthenticatingClient
  pub waiting : lookup guid s.authenticating_clients ≡ some client
  pub in_time : call.now ≤ client.expires
  pub name_valid : (1 ≤ len q.name) × (len q.name ≤ 32)
  pub place : ℕ
  pub stands : get_elem? s.settings.coalitions place ≡ some coalition
  pub password_known : IsHash b (call.salts place) coalition.password q.password
  pub unit_valid : HasUnitForm q.unit_id
  pub added :
      after.state
      ≡ add_client guid
          (record {
            name = q.name;
            unit_id = q.unit_id;
            coalition = coalition.name;
            role = guest_role;
            last_update = 0;
          })
          s.state

waiting_client :
    (now : Time) (i : Uuid) (s : AuthServer)
    → IsUnique s.authenticating_clients
    → has i (remove_expired now s).authenticating_clients ≡ true
    → (c : AuthenticatingClient) × (lookup i s.authenticating_clients ≡ some c) × (now ≤ c.expires)
waiting_client now i s unique w =
    let kept = lookup-remove_expired now s i unique in
    elim (Option-cases (lookup i s.authenticating_clients)) [
      | inl e ↦ absurd (ground (arith, kept, e))
      | inr (c, e) ↦ (c, e, ground (arith, kept, e))
    ]

module _ (u : UuidText) (b : Bcrypt) (j : Jwt) where
  hash_password-IsHash :
      (salt : Salt) (password given : String)
      → hash_password u b j salt password ≡ given
      → IsHash b salt password given
  unfolding hash_password
  hash_password-IsHash salt password given h =
      elim (Option-cases (b.generate_from_password salt password)) [
        | inl e ↦ inr (e, ground (arith, e))
        | inr (text, e) ↦ inl (ground (arith, e))
      ]

  -- A coalition that is selected stands in the list, and its password is the one that is given.
  selected_place :
      (salts : ℕ → Salt) (first : ℕ) (password : String) (cs : List Coalition) (c : Coalition)
      → select_coalition u b j salts first password cs ≡ some c
      → (k : ℕ) × (get_elem? cs k ≡ some c) × IsHash b (salts (first + k)) c.password password
  unfolding select_coalition
  selected_place salts first password [] c h = absurd (ground arith)
  selected_place salts first password (d ∷ cs) c h =
      elim (Bool-cases (hash_password u b j (salts first) d.password == password)) [
        | inl e ↦
            let same : d ≡ c = ground (arith, e) in
            let hashed =
              hash_password-IsHash (salts first) d.password password
                ((eq_iff (hash_password u b j (salts first) d.password) password).0 e) in
            (
              0,
              ap some same,
              subst (λ x. IsHash b (salts (first + 0)) x.password password) same
                  (subst (λ n. IsHash b (salts n) d.password password)
                    (let z : first ≡ first + 0 = omega arith in z) hashed),
            )
        | inr e ↦
            let (k, there, hashed) =
              selected_place salts (suc first) password cs c (ground (arith, e)) in
            (
              suc k,
              there,
              subst (λ n. IsHash b (salts n) c.password password)
                  (let z : suc first + k ≡ first + suc k = omega arith in z) hashed,
            )
      ]

  admit_guest-state :
      (call : GuestCall) (i : Uuid) (q : GuestRequest) (c : Coalition) (s : AuthServer)
      → check_unit_id q.unit_id ≡ true
      → (admit_guest u b j call i q c s).1.state ≡ add_client i (guest_state u b j q c) s.state
  unfolding admit_guest
  admit_guest-state call i q c s h =
      let t = s.settings.security.token in
      let (token, keys) =
        generate_token j (u.to_string i) guest_role t.issuer t.subject (seconds t.expiration)
          call.now call.made s.keys in
      elim (Option-cases token) [ inl e ↦ ground (arith, h, e) | inr (x, e) ↦ ground (arith, h, e) ]

  admit_guest_refused :
      (call : GuestCall) (i : Uuid) (q : GuestRequest) (c : Coalition) (s : AuthServer)
      → check_unit_id q.unit_id ≡ false
      → (admit_guest u b j call i q c s).1 ≡ s
  unfolding admit_guest
  admit_guest_refused call i q c s h = ground (arith, h)

  -- From the search for a coalition on.
  search_coalition_lem :
      (call : GuestCall) (i : Uuid) (client : AuthenticatingClient) (q : GuestRequest)
      (s : AuthServer)
      → s.settings.security.enable_guest_auth ≡ true
      → u.parse q.client_guid ≡ some i
      → lookup i s.authenticating_clients ≡ some client
      → call.now ≤ client.expires
      → check_username q.name ≡ true
      → let after = (search_coalition u b j call i q (remove_expired call.now s)).1 in
        (after.state ≡ s.state) ⊎ GuestAdmits u b j call q s after
  unfolding search_coalition remove_expired
  search_coalition_lem call i client q s h e found alive n =
      let swept = remove_expired call.now s in
      elim (Option-cases (select_coalition u b j call.salts 0 q.password s.settings.coalitions)) [
        | inl k ↦ inl (ground (arith, k))
        | inr (c, k) ↦
            let (place, stands, hashed) =
              selected_place call.salts 0 q.password s.settings.coalitions c k in
            elim (Bool-cases (check_unit_id q.unit_id)) [
              | inr v ↦ inl (ground (arith, k, v, admit_guest_refused call i q c swept v))
              | inl v ↦ inr (record {
                guid = i;
                client = client;
                coalition = c;
                enabled = h;
                guid_known = e;
                waiting = found;
                in_time = alive;
                name_valid = (check_username_iff q.name).0 n;
                place = place;
                stands = stands;
                password_known =
                    subst (λ m. IsHash b (call.salts m) c.password q.password)
                      (let z : 0 + place ≡ place = omega arith in z) hashed;
                unit_valid = (check_unit_id_iff q.unit_id).0 v;
                added = ground (arith, k, v, admit_guest-state call i q c swept v);
              })
            ]
      ]

  -- A guest login either leaves all clients as they are or lets one guest in: guest logins are
  -- enabled, the identifier is one that was handed out and has not expired, the name has 1 to 32 bytes,
  -- the unit is two to four capital letters or digits, and the password is what bcrypt makes, under the
  -- salt of its place, of the password of a coalition of the settings (or empty, where bcrypt fails).
  -- The guest is added to that coalition, with the guest role.
  pub guest_login_lem :
      (call : GuestCall) (q : GuestRequest) (s : AuthServer)
      → IsUnique s.authenticating_clients
      → let after = (guest_login u b j call q s).1 in
        (after.state ≡ s.state) ⊎ GuestAdmits u b j call q s after
  unfolding guest_login remove_expired
  guest_login_lem call q s unique = elim (Bool-cases s.settings.security.enable_guest_auth) [
    | inr h ↦ inl (ground (arith, h))
    | inl h ↦ elim (Bool-cases s.locked) [
      | inl l ↦ inl (ground (arith, h, l))
      | inr l ↦ elim (Option-cases (u.parse q.client_guid)) [
        | inl e ↦ inl (ground (arith, h, l, e))
        | inr (i, e) ↦
            elim (Bool-cases (has i (remove_expired call.now s).authenticating_clients)) [
              | inr w ↦ inl (ground (arith, h, l, e, w))
              | inl w ↦ elim (Bool-cases (check_username q.name)) [
                | inr n ↦ inl (ground (arith, h, l, e, w, n))
                | inl n ↦
                    let (client, found, alive) = waiting_client call.now i s unique w in
                    let searched =
                      (search_coalition u b j call i q (remove_expired call.now s)).1 in
                    let same : (guest_login u b j call q s).1 ≡ searched =
                      ground (arith, h, l, e, w, n) in
                    subst (λ a. (a.state ≡ s.state) ⊎ GuestAdmits u b j call q s a) (sym same)
                      (search_coalition_lem call i client q s h e found alive n)
              ]
            ]
      ]
    ]
  ]

  -- A guest login with a password of no coalition, where all before it is in order, is answered, but
  -- leaves the mutex locked: from then on each InitAuth and each GuestLogin is blocked for good.
  pub guest_login_leaks_lock :
      (call : GuestCall) (q : GuestRequest) (i : Uuid) (s : AuthServer)
      → s.locked ≡ false
      → s.settings.security.enable_guest_auth ≡ true
      → u.parse q.client_guid ≡ some i
      → has i (remove_expired call.now s).authenticating_clients ≡ true
      → check_username q.name ≡ true
      → select_coalition u b j call.salts 0 q.password s.settings.coalitions ≡ none
      → let (reply, after) = guest_login u b j call q s in
        (reply ≡ done (failure "No Coalition found with that password"))
        × ((fresh : Uuid) (now : Time) (c : Capabilities)
            → init_auth u fresh now (some c) after ≡ (blocked, after))
        × ((later : GuestCall) (p : GuestRequest)
            → guest_login u b j later p after ≡ (blocked, after))
  unfolding guest_login search_coalition remove_expired init_auth
  guest_login_leaks_lock call q i s l h e w n k = (
    ground (arith, l, h, e, w, n, k),
    λ fresh now c. ground (arith, l, h, e, w, n, k),
    λ later p. ground (arith, l, h, e, w, n, k),
  )
