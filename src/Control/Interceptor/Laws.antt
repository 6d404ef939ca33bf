-- ===== src/Control/Interceptor/Laws.antt =====
-- Which calls get past the interceptor.
use Prim.Native.String.{◌++◌ as str_append}
use Prim.Native.String.append.{nil, cons}
use vcs_srs_server.Utils.Auth.{
  ClaimValue, IsJwt, IsMatching, Jwt, KeyCache, KeyPair, add_duration, generate_token,
  get_jwt_claims, get_keys, get_token_claims, minimum_role, new_numeric_date, number_claim,
  other_claim, read_claims, text_claim, with_role_outcome,
}
use vcs_srs_server.Utils.Auth.Tokens.{get_token_claims-generate_token}
use vcs_srs_server.Control.Interceptor.{
  after_prefix, auth_interceptor, authenticate, handled, service_and_method, skips_authentication,
  trim_prefix, verdict_outcome,
}
use vcs_srs_server.Base.{
  ℕ, ◌*◌, ◌^◌, ◌<◌, String, ◌≡◌, refl, ap, ◌≢◌, ◌⊎◌, inl, inr, false, Option, none, some, List, [],
  ◌∷◌, arith, eq_iff, Time, second, returns, nat_eq, string_eq, Bool-cases, Option-cases, lookup,
}

after_prefix-append : (p s : String) → after_prefix p (str_append p s) ≡ some s
unfolding after_prefix
after_prefix-append String.[] s = ap some (nil s)
after_prefix-append (String.◌∷◌ c p) s =
    let step : str_append (String.◌∷◌ c p) s ≡ String.◌∷◌ c (str_append p s) = cons c p s in
    rw (step) (ground (arith, after_prefix-append p s))

-- Every method is open to every role.
minimum_role_zero : (method : String) → minimum_role method ≡ 0
unfolding minimum_role lookup
minimum_role_zero method = ground (arith)

-- The token of a call verifies for a client.
pub record Verified (j : Jwt) (md : Option (List String)) (now : Time) (made : Option KeyPair)
    (cache : KeyCache) (client_id : Option String) : Type 0 where
  pub header : String
  pub more : List String
  pub key : KeyPair
  pub guid : String
  pub role : ℕ
  pub has_header : md ≡ some (header ∷ more)
  pub has_key : (get_keys made cache).0 ≡ some key
  pub verified :
      j.verify key.public_key now (trim_prefix "Bearer " header)
      ≡ some (record { client_guid = text_claim guid; role_id = number_claim role })
  pub is_client : client_id ≡ some guid

-- Claims that get past are a string and a number.
read_back :
    (guid role : ClaimValue) (min_role : ℕ) (client_id : Option String)
    → verdict_outcome (with_role_outcome min_role (read_claims guid role))
      ≡ returns (handled client_id)
    → (s : String) × (n : ℕ) × ((guid ≡ text_claim s) × (role ≡ number_claim n))
      × (client_id ≡ some s)
read_back (text_claim s) (number_claim n) min_role client_id h = (s, n, (refl, refl), ground arith)
read_back (text_claim s) (text_claim t) min_role client_id h = absurd (ground arith)
read_back (text_claim s) other_claim min_role client_id h = absurd (ground arith)
read_back (number_claim n) role min_role client_id h = absurd (ground arith)
read_back other_claim role min_role client_id h = absurd (ground arith)

module _ (j : Jwt) where
  handled_token :
      (t method : String) (ts : List String) (now : Time) (made : Option KeyPair) (cache : KeyCache)
      (client_id : Option String)
      → (authenticate j method (some (t ∷ ts)) now made cache).0 ≡ returns (handled client_id)
      → Verified j (some (t ∷ ts)) now made cache client_id
  unfolding authenticate get_token_claims get_jwt_claims
  handled_token t method ts now made cache client_id h =
      elim (Option-cases (get_keys made cache).0) [
        | inl e ↦ absurd (ground (arith, e))
        | inr (k, e) ↦ elim (Option-cases (j.verify k.public_key now (trim_prefix "Bearer " t))) [
          | inl f ↦ absurd (ground (arith, e, f))
          | inr (claims, f) ↦
              let (guid, role, read, same) =
                read_back claims.client_guid claims.role_id (minimum_role method) client_id
                  (ground (arith, e, f)) in
              record {
                header = t;
                more = ts;
                key = k;
                guid = guid;
                role = role;
                has_header = refl;
                has_key = e;
                verified = ground (arith, f, read);
                is_client = same;
              }
        ]
      ]

  -- A call that gets past is either one for AuthService or VoiceControlService, and then has no
  -- client; or one for another service, whose first authorization value, less the word Bearer, is a
  -- token that verifies under the public key in use, and it then has the client of that token.
  pub auth_interceptor_sound :
      (full_method : String) (md : Option (List String)) (now : Time) (made : Option KeyPair)
      (cache : KeyCache) (client_id : Option String)
      → (auth_interceptor j full_method md now made cache).0 ≡ returns (handled client_id)
      → ((client_id ≡ none)
          × ((method : String) × ((service_and_method full_method ≡ some ("AuthService", method))
                ⊎ (service_and_method full_method ≡ some ("VoiceControlService", method)))))
        ⊎ ((service : String) × (method : String) × (service_and_method full_method
              ≡ some (service, method))
            × (service ≢ "AuthService")
            × (service ≢ "VoiceControlService")
            × Verified j md now made cache client_id)
  unfolding auth_interceptor authenticate
  auth_interceptor_sound full_method md now made cache client_id h =
      elim (Option-cases (service_and_method full_method)) [
        | inl e ↦ absurd (ground (arith, e))
        | inr ((service, method), e) ↦ elim (Bool-cases (skips_authentication service)) [
          | inl f ↦ inl (
            ground (arith, e, f),
            (
              method,
              ground
                  (arith, e, f, eq_iff service "AuthService", eq_iff service "VoiceControlService"),
            ),
          )
          | inr f ↦ inr (
            service,
            method,
            e,
            (λ is_auth. absurd (ground (arith, f, eq_iff service "AuthService", is_auth))),
            (λ is_voice.
                absurd (ground (arith, f, eq_iff service "VoiceControlService", is_voice))),
            asked md method (ground (arith, e, f)),
          )
        ]
      ]
    where
      asked :
          (md : Option (List String)) (method : String)
          → (authenticate j method md now made cache).0 ≡ returns (handled client_id)
          → Verified j md now made cache client_id
      asked none method g = absurd (ground arith)
      asked (some []) method g = absurd (ground arith)
      asked (some (t ∷ ts)) method g = handled_token t method ts now made cache client_id g

  -- A token that the server made for a role of one byte lets its client call every method of a service
  -- that asks for one, until the whole second in which it expires, where the private and the public
  -- key in use belong together.
  pub auth_interceptor-generate_token :
      (laws : IsJwt j) (full_method service method guid issuer subject token : String)
      (ts : List String) (role expiration : ℕ) (now later : Time) (made made' : Option KeyPair)
      (cache : KeyCache)
      → service_and_method full_method ≡ some (service, method)
      → skips_authentication service ≡ false
      → (generate_token j guid role issuer subject expiration now made cache).0 ≡ some token
      → IsMatching j (generate_token j guid role issuer subject expiration now made cache).1
      → role < 2 ^ 8
      → later < new_numeric_date (add_duration now expiration) * second
      → (auth_interceptor j full_method
          (some (str_append "Bearer " token ∷ ts))
          later
          made'
          (generate_token j guid role issuer subject expiration now made cache).1).0
        ≡ returns (handled (some guid))
  unfolding auth_interceptor authenticate trim_prefix
  auth_interceptor-generate_token laws full_method service method guid issuer subject token ts role
        expiration now later made made' cache path asks made_token matching byte valid =
      let cache' = (generate_token j guid role issuer subject expiration now made cache).1 in
      ground (
        arith,
        path,
        asks,
        after_prefix-append "Bearer " token,
        minimum_role_zero method,
        get_token_claims-generate_token j laws guid issuer subject token role 0 expiration now later
            made made' cache made_token matching byte valid,
      )
