-- ===== src/Crypto.antt =====
-- `CryptoUnit` of core/comm/crypto_unit.go: a private key and two certificates, which come from the
-- certificate authority or from files. X.509, PEM, the file system and the network are parameters.
pub mod Memory
pub mod Reloaded
mod Tests
use lohpi.Common.{
  if◌then◌else◌, nil_argument, empty_argument, codec_error, network_error, file_error, format_error,
  Outcome, ok, err, panic, ◌>>=◌, or_err, ℕ, String, ◌≡◌, Bool, true, false, Option, none, some,
  List, [], str_eq,
}

-- a file: its directory and its name
abbrev pub FilePath : Type 0
FilePath = String × String

abbrev pub Bytes : Type 0
Bytes = List ℕ

-- crypto/x509, crypto/ecdsa and encoding/pem; `none` is an error, and of `pem_decode` a nil block
pub record X509 : Type 1 where
  pub Key : Type 0
  pub PublicKey : Type 0
  pub Certificate : Type 0
  pub generate_key : Option Key
  pub marshal_key : Key → Option Bytes
  pub parse_key : Bytes → Option Key
  pub public_key : Key → PublicKey
  pub marshal_public_key : PublicKey → Option Bytes
  -- a key of another kind is `some none`
  pub parse_public_key : Bytes → Option (Option PublicKey)
  pub raw : Certificate → Bytes
  pub parse_certificate : Bytes → Option Certificate
  pub pem_encode : String → Bytes → Bytes
  pub pem_decode : Bytes → Option Bytes
  pub parse_key-marshal : (k : Key) (b : Bytes) → marshal_key k ≡ some b → parse_key b ≡ some k
  pub parse_public_key-marshal :
      (k : PublicKey) (b : Bytes)
      → marshal_public_key k ≡ some b
      → parse_public_key b ≡ some (some k)
  pub parse_certificate-raw : (c : Certificate) → parse_certificate (raw c) ≡ some c
  pub pem_decode-encode : (t : String) (b : Bytes) → pem_decode (pem_encode t b) ≡ some b

-- `save` creates a file, writes its content and closes it: whether all of it was written, and
-- whether closing it was no error. A save touches one file only.
pub record Disk : Type 1 where
  pub Fs : Type 0
  pub make_directory : Fs → String → Option Fs
  pub read_file : Fs → FilePath → Option Bytes
  pub save : Fs → FilePath → Bytes → Fs × (Bool × Bool)
  pub read_saved :
      (fs : Fs) (p : FilePath) (b : Bytes)
      → (save fs p b).1.0 ≡ true
      → read_file (save fs p b).0 p ≡ some b
  pub read_other :
      (fs : Fs) (d n n' : String) (b : Bytes)
      → str_eq n n' ≡ false
      → read_file (save fs (d, n) b).0 (d, n') ≡ read_file fs (d, n')

-- the two certificates of a reply of the certificate authority, encoded
pub record CertResponse : Type 0 where
  pub own_cert : Bytes
  pub ca_cert : Bytes

module _ (x509 : X509) (disk : Disk) where
  open x509 use {Key, PublicKey, Certificate}
  open disk use {Fs}

  pub record CryptoUnit : Type 0 where
    pub ca : Certificate
    pub self : Certificate
    pub priv : Key
    pub key_file_path : String
    pub self_cert_file_path : String
    pub ca_cert_file_path : String
    pub working_directory : String

  -- the unit, with the names that its files always have
  abbrev pub unit_in : String → Certificate → Certificate → Key → CryptoUnit
  unit_in directory ca self priv = record {
    ca = ca;
    self = self;
    priv = priv;
    key_file_path = "key.pem";
    self_cert_file_path = "owncert.pem";
    ca_cert_file_path = "cacert.pem";
    working_directory = directory;
  }

  -- `sendCertRequest`: what the authority replies to a request for a key, and the two certificates
  unfoldable pub send_cert_request :
      (Key → Option Bytes)
      → (Bytes → Option CertResponse)
      → Key
      → Outcome (Certificate × Certificate)
  send_cert_request make_request post priv = or_err codec_error (make_request priv) >>= λ req.
      or_err network_error (post req) >>= λ resp.
      or_err format_error (x509.parse_certificate resp.own_cert) >>= λ own.
      or_err format_error (x509.parse_certificate resp.ca_cert) >>= λ ca. ok (own, ca)

  -- `NewCu`; `none` is a nil configuration, and the address of the authority may be empty
  unfoldable pub new_cu :
      (Key → Option Bytes)
      → (Bytes → Option CertResponse)
      → String
      → Option String
      → Fs
      → Outcome (CryptoUnit × Fs)
  unfolding send_cert_request
  new_cu make_request post directory none fs = err nil_argument
  new_cu make_request post directory (some ca_address) fs =
      or_err codec_error x509.generate_key >>= λ priv.
      or_err file_error (disk.make_directory fs directory) >>= λ fs'.
      if str_eq ca_address ""
      then err empty_argument
      else send_cert_request make_request post priv >>= λ certs.
          ok (unit_in directory certs.1 certs.0 priv, fs')

  -- the content of a PEM file; `certBlock.Bytes` of a nil block panics
  abbrev pub pem_block : Option Bytes → Outcome Bytes
  pem_block none = panic
  pem_block (some b) = ok b

  abbrev pub load_pem : Fs → FilePath → Outcome Bytes
  load_pem fs path =
      or_err file_error (disk.read_file fs path) >>= λ b. pem_block (x509.pem_decode b)

  -- `LoadCu`
  unfoldable pub load_cu : String → Fs → Outcome CryptoUnit
  load_cu path fs =
      load_pem fs (path, "owncert.pem")
      >>= (λ b. or_err format_error (x509.parse_certificate b))
      >>= λ own.
          load_pem fs (path, "cacert.pem")
          >>= (λ b. or_err format_error (x509.parse_certificate b))
          >>= λ ca.
              load_pem fs (path, "key.pem")
              >>= (λ b. or_err format_error (x509.parse_key b))
              >>= λ key. ok (unit_in path ca own key)

  -- a key that cannot be marshalled is saved as an empty block
  abbrev pub or_no_bytes : Option Bytes → Bytes
  or_no_bytes none = []
  or_no_bytes (some b) = b

  abbrev pub key_saved : CryptoUnit → Fs → Fs × (Bool × Bool)
  key_saved cu fs =
      disk.save fs (cu.working_directory, cu.key_file_path)
        (x509.pem_encode "EC PRIVATE KEY" (or_no_bytes (x509.marshal_key cu.priv)))

  abbrev pub ca_saved : CryptoUnit → Fs → Fs × (Bool × Bool)
  ca_saved cu fs =
      disk.save fs (cu.working_directory, cu.ca_cert_file_path)
        (x509.pem_encode "CERTIFICATE" (x509.raw cu.ca))

  abbrev pub self_saved : CryptoUnit → Fs → Fs × (Bool × Bool)
  self_saved cu fs =
      disk.save fs (cu.working_directory, cu.self_cert_file_path)
        (x509.pem_encode "CERTIFICATE" (x509.raw cu.self))

  -- what `Close` of the last file returns
  abbrev pub closed : Fs × (Bool × Bool) → Fs × Outcome (Unit {0})
  closed (fs, (written, fine)) = (fs, if fine then ok tt else err file_error)

  -- `SaveState`: the errors before the last `Close` are logged only
  unfoldable pub save_state : CryptoUnit → Fs → Fs × Outcome (Unit {0})
  save_state cu fs = closed (self_saved cu (ca_saved cu (key_saved cu fs).0).0)

  -- `EncodePublicKey`
  unfoldable pub encode_public_key : CryptoUnit → Outcome Bytes
  encode_public_key cu =
      or_err codec_error (x509.marshal_public_key (x509.public_key cu.priv)) >>= λ b.
      ok (x509.pem_encode "ECDSA PUBLIC KEY" b)

  abbrev pub ecdsa_key : Option (Option PublicKey) → Outcome PublicKey
  ecdsa_key none = err codec_error
  ecdsa_key (some none) = err format_error
  ecdsa_key (some (some k)) = ok k

  -- `DecodePublicKey`
  unfoldable pub decode_public_key : Bytes → Outcome PublicKey
  decode_public_key key =
      or_err format_error (x509.pem_decode key) >>= λ b. ecdsa_key (x509.parse_public_key b)
