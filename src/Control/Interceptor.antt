-- ===== src/Control/Interceptor.antt =====
-- control/server.go: the interceptor that every unary call passes before its handler. Streams pass
-- none.
pub mod Laws
use Prim.Native.Char.{Char, code}
use vcs_srs_server.Utils.Auth.{
  Jwt, KeyCache, KeyPair, TokenResult, get_token_claims, granted, insufficient_role, invalid_token,
  minimum_role, no_keys,
}
use vcs_srs_server.Base.{
  ℕ, String, Bool, ◌||◌, Option, none, some, List, [], ◌∷◌, Time, Outcome, returns, panics,
  if◌then◌else◌, ◌==◌, nat_eq, string_eq, get_elem?, ◌>>=◌,
}

abbrev pub onto_first : Char → List String → List String
onto_first c [] = String.◌∷◌ c String.[] ∷ []
onto_first c (w ∷ ws) = String.◌∷◌ c w ∷ ws

-- strings.Split by a single character.
unfoldable pub split : ℕ → String → List String
split sep String.[] = "" ∷ []
split sep (String.◌∷◌ c s) =
    let rest = split sep s in if code c == sep then "" ∷ rest else onto_first c rest

-- strings.HasPrefix and what follows.
unfoldable pub after_prefix : String → String → Option String
after_prefix String.[] s = some s
after_prefix (String.◌∷◌ c p) String.[] = none
after_prefix (String.◌∷◌ c p) (String.◌∷◌ d s) =
    let rest = after_prefix p s in if code c == code d then rest else none

-- strings.TrimPrefix
unfoldable pub trim_prefix : String → String → String
trim_prefix prefix s = elim (after_prefix prefix s) [ none ↦ s | some rest ↦ rest ]

-- The name of the service without its package, and the method; `none` is an index out of range.
unfoldable pub service_and_method : String → Option (String × String)
service_and_method full_method = do
  full_service_name ← get_elem? (split b'/' full_method) 1
  path_name ← get_elem? (split b'/' full_method) 2
  service_name ← get_elem? (split b'.' full_service_name) 1
  some (service_name, path_name)

-- The handler runs, with the client_id that its context has, or the call is refused.
pub data Verdict : Type 0 where
  handled : Option String → Verdict
  missing_metadata missing_token : Verdict
  authentication_error : TokenResult → Verdict

abbrev pub verdict : TokenResult → Verdict
verdict (granted claims) = handled (some claims.client_guid)
verdict no_keys = authentication_error no_keys
verdict invalid_token = authentication_error invalid_token
verdict (insufficient_role a b) = authentication_error (insufficient_role a b)

abbrev pub verdict_outcome : Outcome TokenResult → Outcome Verdict
verdict_outcome (returns r) = returns (verdict r)
verdict_outcome panics = panics

abbrev pub skips_authentication : String → Bool
skips_authentication service = service == "AuthService" || service == "VoiceControlService"

module _ (j : Jwt) where
  -- `md` is the metadata of the call: the values of its header "authorization".
  unfoldable pub authenticate :
      String → Option (List String) → Time → Option KeyPair → KeyCache → Outcome Verdict × KeyCache
  authenticate path_name none now made cache = (returns missing_metadata, cache)
  authenticate path_name (some []) now made cache = (returns missing_token, cache)
  authenticate path_name (some (t ∷ ts)) now made cache =
      let (claims, cache') =
        get_token_claims j (trim_prefix "Bearer " t) (minimum_role path_name) now made cache in
      (verdict_outcome claims, cache')

  unfoldable pub auth_interceptor :
      String → Option (List String) → Time → Option KeyPair → KeyCache → Outcome Verdict × KeyCache
  auth_interceptor full_method md now made cache = elim (service_and_method full_method) [
    | none ↦ (panics, cache)
    | some (service, method) ↦
        if skips_authentication service
        then (returns (handled none), cache)
        else authenticate method md now made cache
  ]
