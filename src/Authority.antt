-- ===== src/Authority.antt =====
-- The certificate authority of cauth/ca.go: its key and its certificate, their files, and the
-- handler that signs the requests of the other parts. RSA and the making of certificates are
-- parameters, with X.509, PEM and the disk of the crypto unit.
pub mod Issued
mod Tests
use lohpi.Common.{
  if◌then◌else◌, empty_argument, codec_error, file_error, format_error, Outcome, ok, err, ◌>>=◌,
  or_err, ℕ, String, ◌≡◌, Bool, Option, none, some, str_eq,
}
use lohpi.Crypto.{Bytes, X509, Disk, CertResponse, load_pem, closed}

-- crypto/rsa and the parts of crypto/x509 that make certificates; a random serial number is given
pub record Issuer (x509 : X509) : Type 1 where
  pub Key : Type 0
  pub Request : Type 0
  pub generate_key : Option Key
  pub marshal_key : Key → Bytes
  pub parse_key : Bytes → Option Key
  pub parse_request : Bytes → Option Request
  -- the authority's own certificate, signed with its key
  pub create_own : ℕ → Key → Option Bytes
  -- a certificate for the subject, the key and the names of the request
  pub create : ℕ → Request → x509.Certificate → Key → Option Bytes
  pub parse_key-marshal : (k : Key) → parse_key (marshal_key k) ≡ some k

module _ (x509 : X509) (disk : Disk) (issuer : Issuer x509) where
  open x509 use {Certificate}
  open disk use {Fs}

  pub record Ca : Type 0 where
    pub priv_key : issuer.Key
    pub ca_cert : Certificate
    pub dir_path : String
    pub key_file_path : String
    pub cert_file_path : String

  -- the authority, with the names that its files always have
  abbrev pub ca_in : String → issuer.Key → Certificate → Ca
  ca_in path key cert = record {
    priv_key = key;
    ca_cert = cert;
    dir_path = path;
    key_file_path = "key.pem";
    cert_file_path = "cert.pem";
  }

  -- `generateCaCert`; `none` is a failure of the source of serial numbers
  unfoldable pub generate_ca_cert : Option ℕ → issuer.Key → Outcome Certificate
  generate_ca_cert serial key =
      or_err codec_error serial >>= (λ n. or_err codec_error (issuer.create_own n key)) >>= λ b.
      or_err format_error (x509.parse_certificate b)

  -- `NewCa`
  unfoldable pub new_ca : Option ℕ → String → Outcome Ca
  unfolding generate_ca_cert
  new_ca serial path = or_err codec_error issuer.generate_key >>= λ key.
      generate_ca_cert serial key >>= λ cert. ok (ca_in path key cert)

  -- `LoadCa`
  unfoldable pub load_ca : String → Fs → Outcome Ca
  load_ca path fs =
      load_pem x509 disk fs (path, "key.pem")
      >>= (λ b. or_err format_error (issuer.parse_key b))
      >>= λ key.
          load_pem x509 disk fs (path, "cert.pem")
          >>= (λ b. or_err format_error (x509.parse_certificate b))
          >>= λ cert. ok (ca_in path key cert)

  -- the error of creating or of writing the file
  abbrev pub written : Fs × (Bool × Bool) → Fs × Outcome (Unit {0})
  written (fs, (whole, closed)) = (fs, if whole then ok tt else err file_error)

  -- `SavePrivateKey`
  unfoldable pub save_private_key : Ca → Fs → Fs × Outcome (Unit {0})
  save_private_key c fs =
      if str_eq c.key_file_path ""
      then (fs, err empty_argument)
      else written (
          disk.save fs (c.dir_path, c.key_file_path)
            (x509.pem_encode "RSA PRIVATE KEY" (issuer.marshal_key c.priv_key)))

  -- `SaveCertificate`
  unfoldable pub save_certificate : Ca → Fs → Fs × Outcome (Unit {0})
  save_certificate c fs =
      if str_eq c.cert_file_path ""
      then (fs, err empty_argument)
      else written (
          disk.save fs (c.dir_path, c.cert_file_path)
            (x509.pem_encode "CERTIFICATE" (x509.raw c.ca_cert)))

  -- `certificateSigning`: on an error nothing is written to the client
  unfoldable pub certificate_signing : Option ℕ → Ca → Bytes → Outcome CertResponse
  certificate_signing serial c body = or_err format_error (issuer.parse_request body) >>= λ req.
      or_err codec_error serial >>= λ n.
      or_err codec_error (issuer.create n req c.ca_cert c.priv_key) >>= λ cert.
      ok (record { own_cert = cert; ca_cert = x509.raw c.ca_cert })

  -- what a client decodes of the reply; an empty reply is an error
  abbrev pub reply_to : Outcome CertResponse → Option CertResponse
  reply_to (ok r) = some r
  reply_to _ = none
