-- ===== src/VoiceControl/Certificates/Files.antt =====
-- What the certificate files hold after a start of the control node.
use vcs_srs_server.Disk.{Disk, is_missing, read_file, write_file}
use vcs_srs_server.VoiceControl.Certificates.{
  Rsa, cert_file_name, encode, load_certificate_only, load_key_pair, load_or_generate_key_pair,
  private_key_file_name,
}
use vcs_srs_server.Utils.Keys.{Pem, IsPem}
use vcs_srs_server.Base.{
  ℕ, String, ◌≡◌, false, Option, none, some, nat_eq, string_eq, lookup, insert, map_laws,
}

-- The documented behaviour of the packages: what was encoded and marshalled is decoded and parsed.
pub record IsRsa (p : Pem) (r : Rsa) : Type 0 where
  pub parse-key : (n : ℕ) → r.parse_key (r.marshal_key n) ≡ some n
  pub parse-certificate : (n : ℕ) → r.parse_certificate (r.raw_certificate n) ≡ some n
  pub pair :
      (n : ℕ)
      → r.key_pair
          (p.encode "CERTIFICATE" (r.raw_certificate n))
          (p.encode "RSA PRIVATE KEY" (r.marshal_key n))
        ≡ some n

-- The two files can be read and written.
pub record AreUsable (d : Disk) : Type 0 where
  pub certificate_read : d.read_fails cert_file_name ≡ false
  pub key_read : d.read_fails private_key_file_name ≡ false
  pub certificate_written : d.write_fails cert_file_name ≡ false
  pub key_written : d.write_fails private_key_file_name ≡ false

abbrev both_written : String → String → Disk → Disk
both_written certificate key d = record d {
  files = insert private_key_file_name key (insert cert_file_name certificate d.files);
}

module _ (p : Pem) (r : Rsa) (pem : IsPem p) (rsa : IsRsa p r) where
  -- A control node without a private key makes a certificate and a key and stores them. Every later
  -- start loads that certificate and that key, and changes no file; and a voice node that reads the
  -- certificate file alone trusts that certificate.
  pub load_or_generate_twice :
      (n : ℕ) (again : Option ℕ) (d : Disk)
      → AreUsable d
      → lookup private_key_file_name d.files ≡ none
      → let (pair, e) = load_or_generate_key_pair p r (some n) d in
        (pair ≡ some (n, n))
        × (load_or_generate_key_pair p r again e ≡ (some (n, n), e))
        × (load_certificate_only p r e ≡ some n)
  unfolding load_or_generate_key_pair load_key_pair load_certificate_only encode is_missing
      read_file write_file
  load_or_generate_twice n again d u absent =
      let certificate = p.encode "CERTIFICATE" (r.raw_certificate n) in
      let key = p.encode "RSA PRIVATE KEY" (r.marshal_key n) in
      let mid = insert cert_file_name certificate d.files in
      grind (
        map_laws,
        pem.decode-encode "CERTIFICATE" (r.raw_certificate n),
        pem.decode-encode "RSA PRIVATE KEY" (r.marshal_key n),
        rsa.pair n,
        rsa.parse-key n,
        rsa.parse-certificate n,
      )
