-- ===== src/VoiceControl/Certificates.antt =====
-- voiceontrol/utils.go: the certificate of the control node and its private key. A certificate and the
-- key that it was made with are known by one number; rsa, x509, tls and encoding/pem are parameters.
pub mod Files
use vcs_srs_server.Disk.{Disk, contents, failed, is_missing, read_file, write_file}
use vcs_srs_server.Utils.Keys.{Pem}
use vcs_srs_server.Base.{ℕ, String, Option, none, some, if◌then◌else◌, ◌>>=◌}

-- The functions of x509 on keys of rsa and on certificates; `key_pair` is tls.X509KeyPair on the texts
-- of the two files.
pub record Rsa : Type 0 where
  pub marshal_key : ℕ → String
  pub parse_key : String → Option ℕ
  pub raw_certificate : ℕ → String
  pub parse_certificate : String → Option ℕ
  pub key_pair : String → String → Option ℕ

abbrev pub cert_file_name : String
cert_file_name = "voicecontrol-cert.pem"

abbrev pub private_key_file_name : String
private_key_file_name = "voicecontrol-private-key.pem"

-- The contents of a file, if it can be read.
abbrev pub read_text : Disk → String → Option String
read_text d f = elim (read_file d f) [ failed _ ↦ none | contents text ↦ some text ]

module _ (p : Pem) (r : Rsa) where
  -- encode: the key and the certificate.
  unfoldable pub encode : ℕ → String × String
  encode n =
      (p.encode "RSA PRIVATE KEY" (r.marshal_key n), p.encode "CERTIFICATE" (r.raw_certificate n))

  -- What is there is loaded; the file of the key is read once for the pair, and once for the key.
  unfoldable pub load_key_pair : Disk → Option (ℕ × ℕ)
  load_key_pair d = do
    certificate ← read_text d cert_file_name
    key ← read_text d private_key_file_name
    n ← r.key_pair certificate key
    bytes ← p.decode key
    k ← r.parse_key bytes
    some (n, k)

  -- The certificate and the key, if there is no error, and the disk. `made` is what
  -- generateSelfSignedCert answers.
  unfoldable pub load_or_generate_key_pair : Option ℕ → Disk → Option (ℕ × ℕ) × Disk
  load_or_generate_key_pair made d =
      if is_missing d private_key_file_name
      then elim made [
        | none ↦ (none, d)
        | some n ↦ elim (write_file d cert_file_name (encode n).1) [
          | none ↦ (none, d)
          | some e ↦ elim (write_file e private_key_file_name (encode n).0) [
            | none ↦ (none, e)
            | some f ↦ (some (n, n), f)
          ]
        ]
      ]
      else (load_key_pair d, d)

  unfoldable pub load_certificate_only : Disk → Option ℕ
  load_certificate_only d = do
    text ← read_text d cert_file_name
    bytes ← p.decode text
    r.parse_certificate bytes
