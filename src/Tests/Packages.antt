-- ===== src/Tests/Packages.antt =====
-- Concrete packages in place of those that the sources call.
use Prim.Native.Char.{Char, code}
use vcs_srs_server.Voice.Protocol.{IsByte, IsUuidBytes, UuidBytes}
use vcs_srs_server.Srs.Checks.{IsUuidText, UuidText}
use vcs_srs_server.State.Bans.{IsJson, Json}
use vcs_srs_server.State.Server.{BannedClient}
use vcs_srs_server.Utils.Auth.{IsJwt, Jwt, MapClaims, number_claim, text_claim}
use vcs_srs_server.Base.{
  ℕ, zero, suc, ◌+◌, ◌*◌, ◌/◌, ◌%◌, ◌^◌, ◌<◌, String, ◌≡◌, refl, ap, Option, none, some, List, [],
  ◌∷◌, arith, if◌then◌else◌, ◌==◌, nat_eq, string_eq, length, All,
}

-- Identifiers as bytes, the lowest first.
abbrev digits : ℕ → ℕ → List ℕ
digits zero i = []
digits (suc n) i = i % 256 ∷ digits n (i / 256)

abbrev value : List ℕ → ℕ
value [] = 0
value (b ∷ bs) = b + 256 * value bs

abbrev pub byte_uuids : UuidBytes
byte_uuids = record {
  from_bytes = λ bs. if length bs == 16 then some (value bs) else none;
  marshal_binary = digits 16;
}

length-digits : (n i : ℕ) → length (digits n i) ≡ n
length-digits zero i = refl
length-digits (suc n) i = omega (arith, length-digits n (i / 256))

All-digits : (n i : ℕ) → All IsByte (digits n i)
All-digits zero i = tt
All-digits (suc n) i = (omega arith, All-digits n (i / 256))

value-digits : (n i : ℕ) → i < 256 ^ n → value (digits n i) ≡ i
value-digits zero i h = omega arith
value-digits (suc n) i h = omega (arith, value-digits n (i / 256) (omega arith))

digits-value :
    (n : ℕ) (bs : List ℕ)
    → length bs ≡ n
    → All IsByte bs
    → (digits n (value bs) ≡ bs) × (value bs < 256 ^ n)
digits-value zero [] e h = (refl, omega arith)
digits-value zero (b ∷ bs) e h = absurd (omega arith)
digits-value (suc n) [] e h = absurd (omega arith)
digits-value (suc n) (b ∷ bs) e h =
    let (same, fits) = digits-value n bs (omega arith) h.1 in
    let low : (b + 256 * value bs) % 256 ≡ b = omega (arith, h.0) in
    let high : (b + 256 * value bs) / 256 ≡ value bs = omega (arith, h.0) in
    (rw (low, high, same) refl, omega (arith, h.0))

pub byte_uuids-IsUuidBytes : IsUuidBytes byte_uuids
byte_uuids-IsUuidBytes = record {
  marshal_length = length-digits 16;
  marshal_bytes = All-digits 16;
  from_marshal = λ i h. ground (arith, length-digits 16 i, value-digits 16 i h);
  marshal_from = λ bs e h.
      let (same, fits) = digits-value 16 bs e h in (value bs, ground (arith, e), fits, same);
}

-- The text of an identifier: one stroke for each unit.
abbrev pub strokes : ℕ → String
strokes zero = ""
strokes (suc n) = String.◌∷◌ "|" (strokes n)

abbrev pub count_strokes : String → Option ℕ
count_strokes String.[] = some 0
count_strokes (String.◌∷◌ c s) = elim (count_strokes s) [
  | none ↦ none
  | some n ↦ if code c == b'|' then some (suc n) else none
]

abbrev pub stroke_uuids : UuidText
stroke_uuids = record { parse = count_strokes; to_string = strokes }

pub count_strokes-strokes : (n : ℕ) → count_strokes (strokes n) ≡ some n
count_strokes-strokes zero = refl
count_strokes-strokes (suc n) = ground (arith, count_strokes-strokes n)

pub stroke_uuids-IsUuidText : IsUuidText stroke_uuids
stroke_uuids-IsUuidText = record { parse-to_string = count_strokes-strokes }

-- A token is its role in strokes, a point, and the client.
abbrev pub token_text : ℕ → String → String
token_text zero guid = String.◌∷◌ "." guid
token_text (suc n) guid = String.◌∷◌ "|" (token_text n guid)

abbrev one_role_more : Option (ℕ × String) → Option (ℕ × String)
one_role_more none = none
one_role_more (some (role, guid)) = some (suc role, guid)

abbrev map_claims : Option (ℕ × String) → Option MapClaims
map_claims none = none
map_claims (some (role, guid)) =
    some (record { client_guid = text_claim guid; role_id = number_claim role })

abbrev read_token : String → Option (ℕ × String)
read_token String.[] = none
read_token (String.◌∷◌ c s) =
    let rest = read_token s in if code c == b'.' then some (0, s) else one_role_more rest

abbrev pub plain_jwt : Jwt
plain_jwt = record {
  sign = λ k g. some (token_text g.claims.role_id g.claims.client_guid);
  verify = λ k now t. map_claims (read_token t);
  public_of = λ k. suc k;
}

read_token-token_text :
    (role : ℕ) (guid : String) → read_token (token_text role guid) ≡ some (role, guid)
read_token-token_text zero guid = refl
read_token-token_text (suc n) guid = rw (read_token-token_text n guid) refl

pub plain_jwt-IsJwt : IsJwt plain_jwt
plain_jwt-IsJwt = record {
  verify-sign = λ k now g t signed valid.
      ground (arith, read_token-token_text g.claims.role_id g.claims.client_guid);
}

-- Bans as text: each field with a sign before each of its characters and a point at its end.
abbrev field_text : String → String → String
field_text String.[] rest = String.◌∷◌ "." rest
field_text (String.◌∷◌ c s) rest = String.◌∷◌ "+" (String.◌∷◌ c (field_text s rest))

abbrev onto_field : Char → List String → List String
onto_field c [] = []
onto_field c (f ∷ fs) = String.◌∷◌ c f ∷ fs

abbrev read_fields : String → List String
read_fields String.[] = []
read_fields (String.◌∷◌ d String.[]) = "" ∷ []
read_fields (String.◌∷◌ d (String.◌∷◌ c s)) =
    let after = read_fields (String.◌∷◌ c s) in
    let inside = read_fields s in if code d == b'.' then "" ∷ after else onto_field c inside

read_fields-point : (s : String) → read_fields (String.◌∷◌ "." s) ≡ "" ∷ read_fields s
read_fields-point String.[] = refl
read_fields-point (String.◌∷◌ c s) = refl

read_fields-field_text : (f rest : String) → read_fields (field_text f rest) ≡ f ∷ read_fields rest
read_fields-field_text String.[] rest = read_fields-point rest
read_fields-field_text (String.◌∷◌ c s) rest = ap (onto_field c) (read_fields-field_text s rest)

abbrev bans_text : List BannedClient → String
bans_text [] = ""
bans_text (b ∷ bs) =
    field_text b.client_id
      (field_text b.name (field_text b.ip_address (field_text b.reason (bans_text bs))))

abbrev read_bans : List String → List BannedClient
read_bans (i ∷ n ∷ a ∷ r ∷ fs) =
    record { client_id = i; name = n; ip_address = a; reason = r } ∷ read_bans fs
read_bans _ = []

abbrev pub plain_json : Json
plain_json = record { encode = bans_text; decode = λ t. some (read_bans (read_fields t)) }

read-bans_text : (bs : List BannedClient) → read_bans (read_fields (bans_text bs)) ≡ bs
read-bans_text [] = refl
read-bans_text (b ∷ bs) =
    rw
      (
        read_fields-field_text b.client_id
            (field_text b.name (field_text b.ip_address (field_text b.reason (bans_text bs)))),
        read_fields-field_text b.name
            (field_text b.ip_address (field_text b.reason (bans_text bs))),
        read_fields-field_text b.ip_address (field_text b.reason (bans_text bs)),
        read_fields-field_text b.reason (bans_text bs),
        read-bans_text bs,
      )
      refl

pub plain_json-IsJson : IsJson plain_json
plain_json-IsJson = record { decode-encode = λ bs. ap some (read-bans_text bs) }
