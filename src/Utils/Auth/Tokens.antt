-- ===== src/Utils/Auth/Tokens.antt =====
-- Tokens that the server made are accepted by it.
use vcs_srs_server.Utils.Auth.{
  Grant, IsJwt, IsMatching, Jwt, KeyCache, KeyPair, add_duration, generate_token, get_jwt_claims,
  get_keys, get_token_claims, grant_of, granted, insufficient_role, new_numeric_date, number_claim,
  text_claim,
}
use vcs_srs_server.Base.{
  ℕ, ◌*◌, ◌%◌, ◌^◌, ◌<◌, String, ◌≡◌, refl, Option, none, some, arith, Time, second, returns, ltb,
  if◌then◌else◌,
}

module _ (j : Jwt) (laws : IsJwt j) where
  -- The token verifies under the other key of the pair.
  verified :
      (k : KeyPair) (later : Time) (grant : Grant) (token : String)
      → j.sign k.private_key grant ≡ some token
      → k.public_key ≡ j.public_of k.private_key
      → later < grant.expires_at * second
      → j.verify k.public_key later token
        ≡ some (record {
          client_guid = text_claim grant.claims.client_guid;
          role_id = number_claim grant.claims.role_id;
        })
  verified k later grant token signed matching valid =
      rw matching (laws.verify-sign k.private_key later grant token signed valid)

  -- A token that was generated for a role of one byte is read back, until the whole second in which
  -- it expires and with keys that belong together, with the client and the role that it was made for;
  -- it is refused exactly where that role is below the one that is asked for.
  pub get_token_claims-generate_token :
      (guid issuer subject token : String) (role min_role expiration : ℕ) (now later : Time)
      (made made' : Option KeyPair) (cache : KeyCache)
      → (generate_token j guid role issuer subject expiration now made cache).0 ≡ some token
      → IsMatching j (generate_token j guid role issuer subject expiration now made cache).1
      → role < 2 ^ 8
      → later < new_numeric_date (add_duration now expiration) * second
      → (get_token_claims j token min_role later made'
          (generate_token j guid role issuer subject expiration now made cache).1).0
        ≡ returns (
            if ltb role min_role
            then insufficient_role role min_role
            else granted (record { client_guid = guid; role_id = role }))
  unfolding generate_token get_token_claims get_jwt_claims get_keys
  get_token_claims-generate_token guid issuer subject token role min_role expiration now later made
        made' (some k) signed matching byte valid =
      let grant = grant_of guid role issuer subject expiration now in
      let small : role % 2 ^ 8 ≡ role = omega arith in
      rw (verified k later grant token signed matching valid, small) refl
  get_token_claims-generate_token guid issuer subject token role min_role expiration now later
        (some k) made' none signed matching byte valid =
      let grant = grant_of guid role issuer subject expiration now in
      let small : role % 2 ^ 8 ≡ role = omega arith in
      rw (verified k later grant token signed matching valid, small) refl
  get_token_claims-generate_token guid issuer subject token role min_role expiration now later none
        made' none signed matching byte valid =
      absurd cc
