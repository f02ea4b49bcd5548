-- ===== src/Authority/Issued.antt =====
-- The certificates that a unit gets from the authority, and the files of the authority.
use lohpi.Common.{
  codec_error, network_error, format_error, Outcome, ok, err, panic, or_err, ok-eq, bind_ok,
  or_err-ok, ℕ, String, ◌≡◌, refl, sym, ap, ◌∙◌, Bool, true, false, Option, some, arith,
}
use lohpi.Crypto.{Bytes, X509, Disk, CertResponse, send_cert_request, closed}
use lohpi.Crypto.Reloaded.{load_pem-saved}
use lohpi.Extern.Memory.{some-eq}
use lohpi.Authority.{
  Issuer, Ca, ca_in, load_ca, written, save_private_key, save_certificate, certificate_signing,
  reply_to,
}

module _ (x509 : X509) (disk : Disk) (issuer : Issuer x509) where
  -- the certificate was made by the authority for the request of the key
  pub record Issued (make_request : x509.Key → Option Bytes) (c : Ca x509 disk issuer)
      (priv : x509.Key) (own : x509.Certificate) : Type 0 where
    pub body : Bytes
    pub req : issuer.Request
    pub serial : ℕ
    pub der : Bytes
    pub requested : make_request priv ≡ some body
    pub understood : issuer.parse_request body ≡ some req
    pub created : issuer.create serial req c.ca_cert c.priv_key ≡ some der
    pub parsed : x509.parse_certificate der ≡ some own

  reply_to-some :
      (o : Outcome CertResponse) (r : CertResponse)
      → reply_to x509 disk issuer o ≡ some r
      → o ≡ ok r
  reply_to-some (ok r') r h = ap ok (some-eq r' r h)
  reply_to-some (err e) r h = absurd (cc)
  reply_to-some panic r h = absurd (cc)

  -- what the handler has made of a request
  signing-made :
      (serial : Option ℕ) (c : Ca x509 disk issuer) (body : Bytes) (r : CertResponse)
      → certificate_signing x509 disk issuer serial c body ≡ ok r
      → (req : issuer.Request) × (n : ℕ) × (issuer.parse_request body ≡ some req)
        × (issuer.create n req c.ca_cert c.priv_key ≡ some r.own_cert)
        × (r.ca_cert ≡ x509.raw c.ca_cert)
  unfolding certificate_signing
  signing-made serial c body r h =
      let (req, understood, h1) = bind_ok (or_err format_error (issuer.parse_request body)) _ r h in
      let (n, _, h2) = bind_ok (or_err codec_error serial) _ r h1 in
      let (cert, created, h3) =
        bind_ok (or_err codec_error (issuer.create n req c.ca_cert c.priv_key)) _ r h2 in
      let same = ok-eq _ r h3 in
      (
        req,
        n,
        or_err-ok format_error _ req understood,
        or_err-ok codec_error _ cert created ∙ ap (λ x. some x.own_cert) same,
        sym (ap (λ x. x.ca_cert) same),
      )

  -- Where `sendCertRequest` of a unit reaches the authority and returns without an error, the first
  -- certificate was made by the authority, with its key, for the request of the unit, and the second
  -- is the certificate of the authority.
  pub send_cert_request-Issued :
      (make_request : x509.Key → Option Bytes) (serial : Option ℕ) (c : Ca x509 disk issuer)
      (priv : x509.Key) (own ca : x509.Certificate)
      → send_cert_request x509 disk make_request
          (λ body. reply_to x509 disk issuer (certificate_signing x509 disk issuer serial c body))
          priv
        ≡ ok (own, ca)
      → Issued make_request c priv own × (ca ≡ c.ca_cert)
  unfolding send_cert_request
  send_cert_request-Issued make_request serial c priv own ca h =
      let (body, requested, h1) = bind_ok (or_err codec_error (make_request priv)) _ (own, ca) h in
      let (r, posted, h2) =
        bind_ok
          (or_err network_error
            (reply_to x509 disk issuer (certificate_signing x509 disk issuer serial c body)))
          _ (own, ca) h1 in
      let (own', parsed, h3) =
        bind_ok (or_err format_error (x509.parse_certificate r.own_cert)) _ (own, ca) h2 in
      let (ca', parsed_ca, h4) =
        bind_ok (or_err format_error (x509.parse_certificate r.ca_cert)) _ (own, ca) h3 in
      let both = ok-eq (own', ca') (own, ca) h4 in
      let (req, n, understood, created, raw) =
        signing-made serial c body r (reply_to-some _ r (or_err-ok network_error _ r posted)) in
      let read : x509.parse_certificate r.ca_cert ≡ some ca' =
        or_err-ok format_error _ ca' parsed_ca in
      (
        record {
          body = body;
          req = req;
          serial = n;
          der = r.own_cert;
          requested = or_err-ok codec_error _ body requested;
          understood = understood;
          created = created;
          parsed = or_err-ok format_error _ own' parsed ∙ ap (λ x. some x.0) both;
        },
        sym (ap (λ x. x.1) both)
            ∙ some-eq ca' c.ca_cert
                (sym read ∙ ap x509.parse_certificate raw ∙ x509.parse_certificate-raw c.ca_cert),
      )

  whole_file :
      (fs' : disk.Fs) (x : disk.Fs × (Bool × Bool))
      → written x509 disk issuer x ≡ (fs', ok tt)
      → (x.0 ≡ fs') × (x.1.0 ≡ true)
  whole_file fs' (fs1, (true, closed)) h = (ap (λ y. y.0) h, refl)
  whole_file fs' (fs1, (false, closed)) h = absurd (ground (arith, ap (λ y. y.1) h))

  -- An authority whose key and certificate were saved without an error is what `LoadCa` of its
  -- directory loads.
  pub load_ca-save_certificate :
      (path : String) (key : issuer.Key) (cert : x509.Certificate) (fs fs1 fs2 : disk.Fs)
      → let c = ca_in x509 disk issuer path key cert in
        save_private_key x509 disk issuer c fs ≡ (fs1, ok tt)
        → save_certificate x509 disk issuer c fs1 ≡ (fs2, ok tt)
        → load_ca x509 disk issuer path fs2 ≡ ok c
  unfolding load_ca save_private_key save_certificate
  load_ca-save_certificate path key cert fs fs1 fs2 key_saved_ cert_saved =
      let (to1, whole1) =
        whole_file fs1
          (disk.save fs (path, "key.pem")
            (x509.pem_encode "RSA PRIVATE KEY" (issuer.marshal_key key)))
          key_saved_ in
      let (to2, whole2) =
        whole_file fs2
          (disk.save fs1 (path, "cert.pem") (x509.pem_encode "CERTIFICATE" (x509.raw cert)))
          cert_saved in
      let cert_read =
        ap (λ f. disk.read_file f (path, "cert.pem")) (sym to2)
        ∙ disk.read_saved fs1 (path, "cert.pem") _ whole2 in
      let key_read =
        ap (λ f. disk.read_file f (path, "key.pem")) (sym to2)
        ∙ disk.read_other fs1 path "cert.pem" "key.pem" _ refl
        ∙ ap (λ f. disk.read_file f (path, "key.pem")) (sym to1)
        ∙ disk.read_saved fs (path, "key.pem") _ whole1 in
      rw
        (
          load_pem-saved x509 disk fs2 (path, "key.pem") "RSA PRIVATE KEY" (issuer.marshal_key key)
              key_read,
          load_pem-saved x509 disk fs2 (path, "cert.pem") "CERTIFICATE" (x509.raw cert) cert_read,
          issuer.parse_key-marshal key,
          x509.parse_certificate-raw cert,
        )
        refl
