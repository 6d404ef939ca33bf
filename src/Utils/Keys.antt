-- ===== src/Utils/Keys.antt =====
-- utils/auth.go: the key files. The packages ecdsa, x509 and encoding/pem are parameters. A key pair that is
-- made is known by a number, as is each of its two keys.
pub mod Files
use vcs_srs_server.Disk.{Disk, contents, failed, is_missing, read_file, write_file}
use vcs_srs_server.Utils.Auth.{Key}
use vcs_srs_server.Base.{
  String, ◌≡◌, ◌||◌, Option, none, some, second, Outcome, returns, panics, if◌then◌else◌,
}

-- pem.EncodeToMemory, of a type and its bytes, and pem.Decode, which may find no block.
pub record Pem : Type 0 where
  pub encode : String → String → String
  pub decode : String → Option String

-- Its documented behaviour: what was encoded is decoded.
pub record IsPem (p : Pem) : Type 0 where
  pub decode-encode : (kind bytes : String) → p.decode (p.encode kind bytes) ≡ some bytes

-- What ParsePKIXPublicKey answers.
pub data PublicKey : Type 0 where
  invalid other_kind : PublicKey
  ecdsa_key : Key → PublicKey

-- The functions of x509 on the keys of ecdsa.
pub record X509 : Type 0 where
  pub marshal_private : Key → Option String
  pub parse_private : String → Option Key
  pub marshal_public : Key → Option String
  pub parse_public : String → PublicKey

-- Their documented behaviour: what was marshalled is parsed.
pub record IsX509 (x : X509) : Type 0 where
  pub parse-private :
      (k : Key) (bytes : String) → x.marshal_private k ≡ some bytes → x.parse_private bytes ≡ some k
  pub parse-public :
      (k : Key) (bytes : String)
      → x.marshal_public k ≡ some bytes
      → x.parse_public bytes ≡ ecdsa_key k

-- A private and a public key, or an error.
abbrev pub Keys : Type 0
Keys = Option (Key × Key)

abbrev pub written : Disk → Option Disk → Disk
written d none = d
written d (some e) = e

-- Both files are written, also where the first one fails.
unfoldable pub write_keys : Key → String → String → String × String → Disk → Keys × Disk
write_keys k private_file public_file (private, public) d =
    let first = write_file d private_file private in
    let second = write_file (written d first) public_file public in
    let keys : Keys = elim first [
      | none ↦ none
      | some _ ↦ elim second [ none ↦ none | some _ ↦ some (k, k) ]
    ] in
    (keys, written (written d first) second)

module _ (p : Pem) (x : X509) where
  -- The private and the public text.
  unfoldable pub encode : Key → Option (String × String)
  encode k = elim (x.marshal_private k) [
    | none ↦ none
    | some private ↦ elim (x.marshal_public k) [
      | none ↦ none
      | some public ↦ some (p.encode "PRIVATE KEY" private, p.encode "PUBLIC KEY" public)
    ]
  ]

  unfoldable pub decode_public : Key → String → Outcome Keys
  decode_public k text = elim (p.decode text) [
    | none ↦ panics
    | some bytes ↦ elim (x.parse_public bytes) [
      | invalid ↦ returns none
      | other_kind ↦ panics
      | ecdsa_key m ↦ returns (some (k, m))
    ]
  ]

  -- A text without a block is a nil dereference.
  unfoldable pub decode : String → String → Outcome Keys
  decode private public = elim (p.decode private) [
    | none ↦ panics
    | some bytes ↦ elim (x.parse_private bytes) [
      | none ↦ returns none
      | some k ↦ decode_public k public
    ]
  ]

  unfoldable pub load_key_from_file : String → String → Disk → Outcome Keys
  load_key_from_file private_file public_file d =
      if is_missing d private_file || is_missing d public_file
      then returns none
      else elim (read_file d private_file) [
        | failed _ ↦ returns none
        | contents private ↦ elim (read_file d public_file) [
          | failed _ ↦ returns none
          | contents public ↦ decode private public
        ]
      ]

  -- `made` is what ecdsa.GenerateKey would answer.
  unfoldable pub generate_key : Option Key → String → String → Disk → Outcome Keys × Disk
  generate_key made private_file public_file d =
      elim (load_key_from_file private_file public_file d) [
        | panics ↦ (panics, d)
        | returns (some keys) ↦ (returns (some keys), d)
        | returns none ↦ elim made [
          | none ↦ (returns none, d)
          | some k ↦ elim (encode k) [
            | none ↦ (returns none, d)
            | some texts ↦
                let (keys, e) = write_keys k private_file public_file texts d in (returns keys, e)
          ]
        ]
      ]
