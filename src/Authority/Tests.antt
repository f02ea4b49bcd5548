-- ===== src/Authority/Tests.antt =====
-- An authority on a disk in memory, and a unit that asks it for a certificate.
use lohpi.Common.{ok, ◌≡◌, refl, some, [], ◌∷◌}
use lohpi.Crypto.{Bytes, send_cert_request}
use lohpi.Crypto.Memory.{plain_x509, one_directory}
use lohpi.Authority.{Issuer, Ca, ca_in, certificate_signing, reply_to}
use lohpi.Authority.Issued.{send_cert_request-Issued, Issued}

-- a certificate is the serial number and the request
abbrev plain_issuer : Issuer plain_x509
plain_issuer = record {
  Key = Bytes;
  Request = Bytes;
  generate_key = some (7 ∷ []);
  marshal_key = λ k. k;
  parse_key = λ b. some b;
  parse_request = λ b. some b;
  create_own = λ n k. some (n ∷ k);
  create = λ n req ca k. some (n ∷ req);
  parse_key-marshal = λ k. refl;
}

abbrev authority : Ca plain_x509 one_directory plain_issuer
authority = ca_in plain_x509 one_directory plain_issuer "ca" (7 ∷ []) (8 ∷ [])

is_made :
    send_cert_request plain_x509 one_directory
      (λ k. some k)
      (λ body.
        reply_to plain_x509 one_directory plain_issuer
          (certificate_signing plain_x509 one_directory plain_issuer (some 1) authority body))
      (3 ∷ [])
    ≡ ok (1 ∷ 3 ∷ [], 8 ∷ [])
unfolding send_cert_request certificate_signing
is_made = refl

send_cert_request-Issued_example :
    Issued plain_x509 one_directory plain_issuer (λ k. some k) authority (3 ∷ []) (1 ∷ 3 ∷ [])
    × (8 ∷ [] ≡ authority.ca_cert)
send_cert_request-Issued_example =
    send_cert_request-Issued plain_x509 one_directory plain_issuer (λ k. some k) (some 1) authority
      (3 ∷ []) (1 ∷ 3 ∷ []) (8 ∷ []) is_made
