-- ===== src/Utils/Keys/Files.antt =====
-- What the key files hold after a start, and what a later start makes of them.
use vcs_srs_server.Disk.{Disk, is_missing, read_file, write_file}
use vcs_srs_server.Utils.Keys.{
  encode, decode, IsPem, IsX509, Pem, X509, decode_public, ecdsa_key, generate_key,
  load_key_from_file, write_keys,
}
use vcs_srs_server.Base.{
  ℕ, String, ◌≡◌, ◌≢◌, inl, inr, true, false, Option, none, some, arith, eq_iff, returns, nat_eq,
  string_eq, Option-cases, lookup, insert, map_laws,
}

-- The files can be read and written, and are two.
pub record AreUsable (private_file public_file : String) (d : Disk) : Type 0 where
  pub differ : private_file ≢ public_file
  pub private_named : private_file ≢ ""
  pub public_named : public_file ≢ ""
  pub private_read : d.read_fails private_file ≡ false
  pub public_read : d.read_fails public_file ≡ false
  pub private_written : d.write_fails private_file ≡ false
  pub public_written : d.write_fails public_file ≡ false

abbrev both_written : String → String → String → String → Disk → Disk
both_written private_file public_file private public d = record d {
  files = insert public_file public (insert private_file private d.files);
}

write_keys_lem :
    (k : ℕ) (private_file public_file private public : String) (d : Disk)
    → AreUsable private_file public_file d
    → write_keys k private_file public_file (private, public) d
      ≡ (some (k, k), both_written private_file public_file private public d)
unfolding write_keys write_file
write_keys_lem k private_file public_file private public d u =
    ground (arith, eq_iff private_file "", eq_iff public_file "", u.private_named, u.public_named)

load_both :
    (p : Pem) (x : X509) (private_file public_file private public : String) (d : Disk)
    → AreUsable private_file public_file d
    → load_key_from_file p x private_file public_file
        (both_written private_file public_file private public d)
      ≡ decode p x private public
unfolding load_key_from_file is_missing read_file
load_both p x private_file public_file private public d u =
    let mid = insert private_file private d.files in grind (map_laws, u.differ)

module _ (p : Pem) (x : X509) (pem : IsPem p) (x509 : IsX509 x) where
  decode-encode :
      (k : ℕ) (texts : String × String)
      → encode p x k ≡ some texts
      → decode p x texts.0 texts.1 ≡ returns (some (k, k))
  unfolding encode decode decode_public
  decode-encode k texts e = elim (Option-cases (x.marshal_private k)) [
    | inl none_private ↦ absurd (ground arith)
    | inr (private, at_private) ↦ elim (Option-cases (x.marshal_public k)) [
      | inl none_public ↦ absurd (ground arith)
      | inr (public, at_public) ↦ ground (
        arith,
        pem.decode-encode "PRIVATE KEY" private,
        pem.decode-encode "PUBLIC KEY" public,
        x509.parse-private k private at_private,
        x509.parse-public k public at_public,
      )
    ]
  ]

  -- Where the key files cannot be loaded, but can be read and written, and a new pair can be made and
  -- encoded, generateKey answers that pair; and every later start loads both its keys from the files,
  -- which it leaves as they are.
  pub generate_key_twice :
      (k : ℕ) (again : Option ℕ) (private_file public_file : String) (texts : String × String)
      (d : Disk)
      → AreUsable private_file public_file d
      → load_key_from_file p x private_file public_file d ≡ returns none
      → encode p x k ≡ some texts
      → let (keys, e) = generate_key p x (some k) private_file public_file d in
        (keys ≡ returns (some (k, k)))
        × (generate_key p x again private_file public_file e ≡ (returns (some (k, k)), e))
  unfolding generate_key
  generate_key_twice k again private_file public_file texts d u absent encoded =
      let made = write_keys_lem k private_file public_file texts.0 texts.1 d u in
      let loaded = load_both p x private_file public_file texts.0 texts.1 d u in
      let back = decode-encode k texts encoded in ground arith

-- Where the new private key can be written but the new public key cannot, and an old public key is in
-- its file, generateKey answers an error; but the next start loads the new private key beside the old
-- public one, of another pair.
pub half_written_lem :
    (p : Pem) (x : X509) (k old : ℕ) (again : Option ℕ) (private_file public_file : String)
    (private_bytes old_bytes old_text : String) (texts : String × String) (d : Disk)
    → private_file ≢ public_file
    → private_file ≢ ""
    → d.read_fails private_file ≡ false
    → d.read_fails public_file ≡ false
    → d.write_fails private_file ≡ false
    → d.write_fails public_file ≡ true
    → lookup private_file d.files ≡ none
    → lookup public_file d.files ≡ some old_text
    → p.decode old_text ≡ some old_bytes
    → x.parse_public old_bytes ≡ ecdsa_key old
    → encode p x k ≡ some texts
    → p.decode texts.0 ≡ some private_bytes
    → x.parse_private private_bytes ≡ some k
    → let (keys, e) = generate_key p x (some k) private_file public_file d in
      (keys ≡ returns none)
      × ((generate_key p x again private_file public_file e).0 ≡ returns (some (k, old)))
unfolding generate_key load_key_from_file is_missing read_file write_keys write_file decode
    decode_public
half_written_lem p x k old again private_file public_file private_bytes old_bytes old_text texts d
      differ named rp rq wp wq absent there dec parsed encoded decp parsep =
    grind map_laws
