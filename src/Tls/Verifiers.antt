-- ===== src/Tls/Verifiers.antt =====
-- The verifiers of src/tls/config.rs that a client can carry: one that accepts everything, and one for pins. The
-- library's checks of the signature of a handshake are arguments.
use rust_network_system.Base.{ℕ, ◌≡◌, List, [], ◌∷◌}
use mathlib.Core.List.{Mem}
use rust_network_system.Tls.{CertificatePins, Verified, assertion, verify_server_cert}

pub data SignatureScheme : Type 0 where
  rsa_pkcs1_sha256 rsa_pkcs1_sha384 rsa_pkcs1_sha512 : SignatureScheme
  ecdsa_nistp256_sha256 ecdsa_nistp384_sha384 : SignatureScheme
  rsa_pss_sha256 rsa_pss_sha384 rsa_pss_sha512 : SignatureScheme
  ed25519 : SignatureScheme

-- A check of the signature `dss` of a message, with the key of a certificate.
abbrev pub SignatureCheck : Type 0
SignatureCheck = (message cert dss : List ℕ) → Verified

pub record ServerCertVerifier : Type 0 where
  pub verify_server_cert :
      (cert : List ℕ) (intermediates : List (List ℕ)) (server_name ocsp_response : List ℕ) (now : ℕ)
      → Verified
  pub verify_tls12_signature : SignatureCheck
  pub verify_tls13_signature : SignatureCheck
  pub supported_verify_schemes : List SignatureScheme

abbrev pub schemes : List SignatureScheme
schemes =
    rsa_pkcs1_sha256 ∷ rsa_pkcs1_sha384 ∷ rsa_pkcs1_sha512 ∷ ecdsa_nistp256_sha256
    ∷ ecdsa_nistp384_sha384 ∷ rsa_pss_sha256 ∷ rsa_pss_sha384 ∷ rsa_pss_sha512 ∷ ed25519 ∷ []

unfoldable pub no_verifier : ServerCertVerifier
no_verifier = record {
  verify_server_cert = λ cert intermediates server_name ocsp_response now. assertion;
  verify_tls12_signature = λ message cert dss. assertion;
  verify_tls13_signature = λ message cert dss. assertion;
  supported_verify_schemes = schemes;
}

unfoldable pub pinning_verifier :
    (sha256 : List ℕ → List ℕ)
    → (tls12 tls13 : SignatureCheck) → CertificatePins
    → ServerCertVerifier
pinning_verifier sha256 tls12 tls13 pins = record {
  verify_server_cert =
      λ cert intermediates server_name ocsp_response now. verify_server_cert sha256 pins cert;
  verify_tls12_signature = tls12;
  verify_tls13_signature = tls13;
  supported_verify_schemes = schemes;
}

pub data Version : Type 0 where
  tls12 tls13 : Version

-- The check of a version among those of two.
abbrev pub check : Version → SignatureCheck → SignatureCheck → SignatureCheck
check tls12 old recent = old
check tls13 old recent = recent

-- What a server presents: its certificate and those between it and a root, the name that it was called by, its OCSP
-- response, the time, and a signature by a scheme over the messages of the handshake.
pub record Handshake : Type 0 where
  pub cert : List ℕ
  pub intermediates : List (List ℕ)
  pub server_name : List ℕ
  pub ocsp_response : List ℕ
  pub now : ℕ
  pub scheme : SignatureScheme
  pub message : List ℕ
  pub dss : List ℕ

-- A client accepts a server that signs with a scheme of those that the client's verifier lists and offers, and whose
-- certificate and signature the verifier accepts.
abbrev pub Accepts : ServerCertVerifier → Version → Handshake → Type 0
Accepts v version h =
    Mem h.scheme v.supported_verify_schemes
    × (v.verify_server_cert h.cert h.intermediates h.server_name h.ocsp_response h.now ≡ assertion)
    × (check version v.verify_tls12_signature v.verify_tls13_signature h.message h.cert h.dss
        ≡ assertion)
