-- ===== src/Utils/Auth.antt =====
-- utils/auth.go: roles, and the tokens that carry them. Keys and signatures are those of the
-- packages ecdsa and jwt: a key is known by a number. The program keeps the first private and public
-- key that it loads or makes; they need not belong together.
pub mod Tokens
use vcs_srs_server.Base.{
  ℕ, ◌+◌, ◌-◌, ◌*◌, ◌/◌, ◌%◌, ◌^◌, ◌<◌, String, ◌≡◌, Option, none, some, [], ◌∷◌, Time, second,
  Outcome, returns, panics, ltb, if◌then◌else◌, ◌==◌, nat_eq, string_eq, Map, lookup,
}

abbrev pub guest_role : ℕ
guest_role = 0

abbrev pub member_role : ℕ
member_role = 1

abbrev pub officer_role : ℕ
officer_role = 2

abbrev pub admin_role : ℕ
admin_role = 3

-- SrsServiceMinimumRoleMap; a missing key reads as 0.
abbrev pub srs_service_minimum_role_map : Map String ℕ
srs_service_minimum_role_map =
    ("UpdateClientInfo", guest_role)
    ∷ ("UpdateRadioInfo", guest_role)
    ∷ ("SyncClient", guest_role)
    ∷ ("Disconnect", guest_role)
    ∷ ("GetServerSettings", guest_role)
    ∷ ("SubscribeToUpdates", guest_role)
    ∷ []

unfoldable pub minimum_role : String → ℕ
minimum_role path = elim (lookup path srs_service_minimum_role_map) [ none ↦ 0 | some r ↦ r ]

unfoldable pub srs_role_name : ℕ → String
srs_role_name r =
    if r == guest_role
    then "Guest"
    else if r == member_role
    then "Member"
    else if r == officer_role
    then "Officer"
    else if r == admin_role
    then "Admin"
    else ""

pub record TokenClaims : Type 0 where
  pub client_guid : String
  pub role_id : ℕ

-- What is signed; the dates are in seconds.
pub record Grant : Type 0 where
  pub claims : TokenClaims
  pub expires_at : ℕ
  pub issued_at : ℕ
  pub issuer : String
  pub subject : String
  pub id : String

abbrev pub Key : Type 0
Key = ℕ

pub record KeyPair : Type 0 where
  pub private_key : Key
  pub public_key : Key

-- A value of jwt.MapClaims: a string, a number (by its integral part), or anything else, nil included.
pub data ClaimValue : Type 0 where
  text_claim : String → ClaimValue
  number_claim : ℕ → ClaimValue
  other_claim : ClaimValue

pub record MapClaims : Type 0 where
  pub client_guid : ClaimValue
  pub role_id : ClaimValue

-- `verify` answers the claims of a token that a public key finds valid at the time; `public_of` is
-- the method Public of a private key.
pub record Jwt : Type 0 where
  pub sign : Key → Grant → Option String
  pub verify : Key → Time → String → Option MapClaims
  pub public_of : Key → Key

-- Documented behaviour: a token verifies under the public key of the key that signed it until it
-- expires, with the claims that were signed.
pub record IsJwt (j : Jwt) : Type 0 where
  pub verify-sign :
      (k : Key) (now : Time) (g : Grant) (token : String)
      → j.sign k g ≡ some token
      → now < g.expires_at * second
      → j.verify (j.public_of k) now token
        ≡ some (record {
          client_guid = text_claim g.claims.client_guid;
          role_id = number_claim g.claims.role_id;
        })

-- The time after a time.Duration, which is an int64 as a word of 64 bits.
abbrev pub add_duration : Time → ℕ → Time
add_duration t d = if ltb d (2 ^ 63) then t + d else t - (2 ^ 64 - d)

-- time.Duration(n) * time.Second, on words of 64 bits
abbrev pub seconds : ℕ → ℕ
seconds n = n * second % 2 ^ 64

-- jwt.NewNumericDate: the whole seconds, here from Go's zero time.
abbrev pub new_numeric_date : Time → ℕ
new_numeric_date t = t / second

-- The two keys belong together.
abbrev pub IsMatching : Jwt → Option KeyPair → Type 0
IsMatching j none = Unit {0}
IsMatching j (some k) = k.public_key ≡ j.public_of k.private_key

-- The variables privateKey and publicKey, which hold a pair once one was had.
abbrev pub KeyCache : Type 0
KeyCache = Option KeyPair

-- getKeys; `made` is what generateKey yields, `none` for an error.
unfoldable pub get_keys : Option KeyPair → KeyCache → Option KeyPair × KeyCache
get_keys made none = (made, made)
get_keys made (some k) = (some k, some k)

pub data TokenResult : Type 0 where
  granted : TokenClaims → TokenResult
  no_keys invalid_token : TokenResult
  insufficient_role : ℕ → ℕ → TokenResult

abbrev pub with_role : ℕ → TokenResult → TokenResult
with_role min_role (granted claims) =
    if ltb claims.role_id min_role
    then insufficient_role claims.role_id min_role
    else granted claims
with_role min_role no_keys = no_keys
with_role min_role invalid_token = invalid_token
with_role min_role (insufficient_role a b) = insufficient_role a b

abbrev pub with_role_outcome : ℕ → Outcome TokenResult → Outcome TokenResult
with_role_outcome min_role (returns r) = returns (with_role min_role r)
with_role_outcome min_role panics = panics

-- The two type assertions on the claims.
abbrev pub read_role : String → ClaimValue → Outcome TokenResult
read_role guid (number_claim n) =
    returns (granted (record { client_guid = guid; role_id = n % 2 ^ 8 }))
read_role guid (text_claim s) = panics
read_role guid other_claim = panics

abbrev pub read_claims : ClaimValue → ClaimValue → Outcome TokenResult
read_claims (text_claim guid) role = read_role guid role
read_claims (number_claim n) role = panics
read_claims other_claim role = panics

abbrev pub grant_of : String → ℕ → String → String → ℕ → Time → Grant
grant_of client_guid role_id issuer subject expiration now = record {
  claims = record { client_guid = client_guid; role_id = role_id };
  expires_at = new_numeric_date (add_duration now expiration);
  issued_at = new_numeric_date now;
  issuer = issuer;
  subject = subject;
  id = client_guid;
}

module _ (j : Jwt) where
  unfoldable pub generate_token :
      String → ℕ → String → String → ℕ → Time → Option KeyPair → KeyCache → Option String × KeyCache
  generate_token client_guid role_id issuer subject expiration now made cache =
      let (key, cache') = get_keys made cache in
      elim key [
        | none ↦ (none, cache')
        | some k ↦ (
          j.sign k.private_key (grant_of client_guid role_id issuer subject expiration now),
          cache',
        )
      ]

  unfoldable pub get_jwt_claims :
      String → Time → Option KeyPair → KeyCache → Outcome TokenResult × KeyCache
  get_jwt_claims token now made cache =
      let (key, cache') = get_keys made cache in
      elim key [
        | none ↦ (returns no_keys, cache')
        | some k ↦ elim (j.verify k.public_key now token) [
          | none ↦ (returns invalid_token, cache')
          | some claims ↦ (read_claims claims.client_guid claims.role_id, cache')
        ]
      ]

  unfoldable pub get_token_claims :
      String → ℕ → Time → Option KeyPair → KeyCache → Outcome TokenResult × KeyCache
  get_token_claims token min_role now made cache =
      let (r, cache') = get_jwt_claims token now made cache in
      (with_role_outcome min_role r, cache')
