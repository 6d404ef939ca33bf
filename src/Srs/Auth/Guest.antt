-- ===== src/Srs/Auth/Guest.antt =====
-- srs/auth_service.go: GuestLogin, and utils/general.go: HashPassword. The package bcrypt is a
-- parameter: it hashes under a salt that it draws anew on each call, and fails on some passwords.
pub mod Laws
use vcs_srs_server.State.Server.{ClientState, add_client}
use vcs_srs_server.State.Settings.{Coalition}
use vcs_srs_server.Utils.Auth.{
  seconds, new_numeric_date, add_duration, IsMatching, Jwt, KeyPair, generate_token, guest_role,
}
use vcs_srs_server.Srs.Checks.{UuidText, check_unit_id, check_username}
use vcs_srs_server.Srs.Radio.{clients_event}
use vcs_srs_server.Events.{publish}
use vcs_srs_server.Srs.Auth.{
  Attempt, AuthServer, Reply, done, failure, failure_with_error, holding, remove_expired, result,
}
use vcs_srs_server.Base.{
  ℕ, suc, String, true, not, Option, none, some, List, [], ◌∷◌, Uuid, Time, if◌then◌else◌, ◌==◌,
  nat_eq, string_eq, has,
}

abbrev pub Salt : Type 0
Salt = ℕ

pub record Bcrypt : Type 0 where
  pub generate_from_password : Salt → String → Option String

pub record GuestRequest : Type 0 where
  pub client_guid : String
  pub name : String
  pub unit_id : String
  pub password : String

pub record GuestResult : Type 0 where
  pub token : String
  pub coalition : String

-- What a call takes from outside: the time, the salts by the place of the coalition, and the pair
-- that generateKey yields.
pub record GuestCall : Type 0 where
  pub now : Time
  pub salts : ℕ → Salt
  pub made : Option KeyPair

module _ (u : UuidText) (b : Bcrypt) (j : Jwt) where
  unfoldable pub hash_password : Salt → String → String
  hash_password salt password = elim (b.generate_from_password salt password) [
    | none ↦ ""
    | some hash ↦ hash
  ]

  -- The first coalition whose hashed password is the one of the request; `k` counts the coalitions.
  unfoldable pub select_coalition : (ℕ → Salt) → ℕ → String → List Coalition → Option Coalition
  select_coalition salts k password [] = none
  select_coalition salts k password (c ∷ cs) =
      if hash_password (salts k) c.password == password
      then some c
      else select_coalition salts (suc k) password cs

  abbrev pub guest_state : GuestRequest → Coalition → ClientState
  guest_state q c = record {
    name = q.name;
    unit_id = q.unit_id;
    coalition = c.name;
    role = guest_role;
    last_update = 0;
  }

  token_reply : Coalition → Option String → AuthServer → Reply GuestResult × AuthServer
  token_reply c none s = (failure_with_error "Failed to generate token", s)
  token_reply c (some token) s = (
    result (record { token = token; coalition = c.name }),
    record s { bus = publish clients_event s.bus },
  )

  -- From the selected coalition on.
  unfoldable pub admit_guest :
      GuestCall → Uuid → GuestRequest → Coalition → AuthServer → Reply GuestResult × AuthServer
  unfolding token_reply
  admit_guest call i q c s =
      if not (check_unit_id q.unit_id)
      then (failure "Invalid UnitId", s)
      else let t = s.settings.security.token in
        let (token, keys) =
          generate_token j (u.to_string i) guest_role t.issuer t.subject (seconds t.expiration)
            call.now call.made s.keys in
        token_reply c token
          (record s { state = add_client i (guest_state q c) s.state; keys = keys })

  -- From the search for a coalition on: where none is found, the mutex stays locked.
  unfoldable pub search_coalition :
      GuestCall → Uuid → GuestRequest → AuthServer → Reply GuestResult × AuthServer
  search_coalition call i q s =
      elim (select_coalition call.salts 0 q.password s.settings.coalitions) [
        | none ↦ (failure "No Coalition found with that password", record s { locked = true })
        | some c ↦ admit_guest call i q c s
      ]

  guest_checks : GuestCall → GuestRequest → AuthServer → Reply GuestResult × AuthServer
  guest_checks call q s = elim (u.parse q.client_guid) [
    | none ↦ (failure_with_error "Invalid ClientGuid", s)
    | some i ↦
        if not (has i s.authenticating_clients)
        then (failure "ClientGuid not found, please initialize first", s)
        else if not (check_username q.name)
        then (failure "Invalid username", s)
        else search_coalition call i q s
  ]

  unfoldable pub guest_login :
      GuestCall → GuestRequest → AuthServer → Attempt (Reply GuestResult) × AuthServer
  unfolding guest_checks
  guest_login call q s =
      if not s.settings.security.enable_guest_auth
      then (done (failure "Guest login is disabled"), s)
      else let (reply, s') = guest_checks call q (remove_expired call.now s) in
        holding s (done reply, s')
