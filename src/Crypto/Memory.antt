-- ===== src/Crypto/Memory.antt =====
-- X.509 whose encodings are the values, and a disk in memory.
use lohpi.Common.{
  if◌then◌else◌, String, ◌≡◌, refl, sym, ap, true, false, Option, none, some, [], str_eq, eq_iff,
}
use lohpi.Crypto.{Bytes, X509, Disk}

-- keys and certificates are their own encodings; a PEM file is its content
abbrev pub plain_x509 : X509
plain_x509 = record {
  Key = Bytes;
  PublicKey = Bytes;
  Certificate = Bytes;
  generate_key = some [];
  marshal_key = λ k. some k;
  parse_key = λ b. some b;
  public_key = λ k. k;
  marshal_public_key = λ k. some k;
  parse_public_key = λ b. some (some b);
  raw = λ c. c;
  parse_certificate = λ b. some b;
  pem_encode = λ t b. b;
  pem_decode = λ b. some b;
  parse_key-marshal = λ k b h. sym h;
  parse_public_key-marshal = λ k b h. ap some (sym h);
  parse_certificate-raw = λ c. refl;
  pem_decode-encode = λ t b. refl;
}

-- the content of a file of one directory, by its name
abbrev pub saved_in : (String → Option Bytes) → String → Bytes → String → Option Bytes
saved_in fs name b n = if str_eq name n then some b else fs n

pub saved_in-same :
    (fs : String → Option Bytes) (n : String) (b : Bytes) → saved_in fs n b n ≡ some b
saved_in-same fs n b = rw ((eq_iff n n).1 refl) refl

pub saved_in-other :
    (fs : String → Option Bytes) (n n' : String) (b : Bytes)
    → str_eq n n' ≡ false
    → saved_in fs n b n' ≡ fs n'
saved_in-other fs n n' b other = rw other refl

-- one directory, whatever it is called
unfoldable pub one_directory : Disk
one_directory = record {
  Fs = String → Option Bytes;
  make_directory = λ fs d. some fs;
  read_file = λ fs p. fs p.1;
  save = λ fs p b. (saved_in fs p.1 b, (true, true));
  read_saved = λ fs p b written. saved_in-same fs p.1 b;
  read_other = λ fs d n n' b other. saved_in-other fs n n' b other;
}

unfoldable pub no_files : one_directory.Fs
unfolding one_directory
no_files = λ n. none
