-- ===== src/Crypto/Reloaded.antt =====
-- What is loaded after the state was saved.
use lohpi.Common.{
  codec_error, ok, or_err, ok-eq, bind_ok, or_err-ok, String, ◌≡◌, refl, ap, ◌∙◌, true, some,
}
use lohpi.Crypto.{
  FilePath, Bytes, X509, Disk, CryptoUnit, unit_in, load_pem, load_cu, or_no_bytes, key_saved,
  ca_saved, self_saved, save_state, encode_public_key, decode_public_key,
}

module _ (x509 : X509) (disk : Disk) where
  -- every file was written as a whole, and the key can be marshalled
  pub record IsWritten (cu : CryptoUnit x509 disk) (fs : disk.Fs) : Type 0 where
    pub key_bytes : Bytes
    pub marshalled : x509.marshal_key cu.priv ≡ some key_bytes
    pub key_written : (key_saved x509 disk cu fs).1.0 ≡ true
    pub ca_written : (ca_saved x509 disk cu (key_saved x509 disk cu fs).0).1.0 ≡ true
    pub self_written :
        (self_saved x509 disk cu (ca_saved x509 disk cu (key_saved x509 disk cu fs).0).0).1.0 ≡ true

  pub load_pem-saved :
      (fs : disk.Fs) (path : FilePath) (t : String) (b : Bytes)
      → disk.read_file fs path ≡ some (x509.pem_encode t b)
      → load_pem x509 disk fs path ≡ ok b
  load_pem-saved fs path t b e = rw (e, x509.pem_decode-encode t b) refl

  -- A unit whose files were all written by `SaveState` is what `LoadCu` of its directory loads,
  -- whatever else the directory held before.
  pub load_cu-save_state :
      (directory : String) (ca self : x509.Certificate) (priv : x509.Key) (fs : disk.Fs)
      → let cu = unit_in x509 disk directory ca self priv in
        IsWritten cu fs → load_cu x509 disk directory (save_state x509 disk cu fs).0 ≡ ok cu
  unfolding load_cu save_state
  load_cu-save_state directory ca self priv fs w =
      let cu = unit_in x509 disk directory ca self priv in
      let fs1 = (key_saved x509 disk cu fs).0 in
      let fs2 = (ca_saved x509 disk cu fs1).0 in
      let fs3 = (self_saved x509 disk cu fs2).0 in
      let own_read = disk.read_saved fs2 (directory, "owncert.pem") _ w.self_written in
      let ca_read =
        disk.read_other fs2 directory "owncert.pem" "cacert.pem" _ refl
        ∙ disk.read_saved fs1 (directory, "cacert.pem") _ w.ca_written in
      let key_read =
        disk.read_other fs2 directory "owncert.pem" "key.pem" _ refl
        ∙ disk.read_other fs1 directory "cacert.pem" "key.pem" _ refl
        ∙ disk.read_saved fs (directory, "key.pem") _ w.key_written
        ∙ ap (λ o. some (x509.pem_encode "EC PRIVATE KEY" (or_no_bytes x509 disk o)))
            w.marshalled in
      rw
        (
          load_pem-saved fs3 (directory, "owncert.pem") "CERTIFICATE" (x509.raw self) own_read,
          load_pem-saved fs3 (directory, "cacert.pem") "CERTIFICATE" (x509.raw ca) ca_read,
          load_pem-saved fs3 (directory, "key.pem") "EC PRIVATE KEY" w.key_bytes key_read,
          x509.parse_certificate-raw self,
          x509.parse_certificate-raw ca,
          x509.parse_key-marshal priv w.key_bytes w.marshalled,
        )
        refl

  -- A public key that `EncodePublicKey` encodes is what `DecodePublicKey` decodes.
  pub decode_public_key-encode :
      (cu : CryptoUnit x509 disk) (b : Bytes)
      → encode_public_key x509 disk cu ≡ ok b
      → decode_public_key x509 disk b ≡ ok (x509.public_key cu.priv)
  unfolding encode_public_key decode_public_key
  decode_public_key-encode cu b h =
      let (asn1, marshalled, made) =
        bind_ok (or_err codec_error (x509.marshal_public_key (x509.public_key cu.priv)))
          (λ asn1. ok (x509.pem_encode "ECDSA PUBLIC KEY" asn1)) b h in
      rw
        (
          ← (ok-eq _ _ made),
          x509.pem_decode-encode "ECDSA PUBLIC KEY" asn1,
          x509.parse_public_key-marshal (x509.public_key cu.priv) asn1
              (or_err-ok codec_error _ asn1 marshalled),
        )
        refl
