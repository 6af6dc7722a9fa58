-- ===== src/Tls/Files.antt =====
-- Configurations from files and from bytes in src/tls/config.rs.
use rust_network_system.Base.{
  ℕ, ◌≡◌, refl, ap, ◌∙◌, Option, none, some, ◌⊎◌, inl, inr, List, [], ◌∷◌, String,
}
use rust_network_system.Error.{Result, ok, err, ◌>>=◌}
use rust_network_system.Tls.Config.{
  Rustls, TlsConfig, or_tls, not_empty, found, parse_certs, load_certs, parse_private_key,
  load_private_key, with_server_cert_file, with_server_cert_pem, add_file_roots, add_pem_roots,
  with_client_ca_file, with_client_ca_pem,
}

-- The value of a result, without its error.
unfoldable pub value_of : {A : Type 0} → Result A → Option A
value_of (ok a) = some a
value_of (err e) = none

-- What follows a result cannot see its error.
after_same :
    {A B : Type 0} (x y : Result A) (f g : A → Result B)
    → value_of x ≡ value_of y
    → ((a : A) → value_of (f a) ≡ value_of (g a))
    → value_of (x >>= f) ≡ value_of (y >>= g)
unfolding value_of
after_same (ok a) (ok b) f g e h = h a ∙ ap (λ c. value_of (g c)) (cc)
after_same (ok a) (err y) f g e h = absurd (cc)
after_same (err x) (ok b) f g e h = absurd (cc)
after_same (err x) (err y) f g e h = refl

module _ (r : Rustls) where
  not_empty_same :
      (s t : String) (cs : List r.Cert) → value_of (not_empty r s cs) ≡ value_of (not_empty r t cs)
  unfolding value_of not_empty
  not_empty_same s t [] = refl
  not_empty_same s t (c ∷ cs) = refl

  certs_same :
      (bytes : List ℕ) → value_of (load_certs r (inr bytes)) ≡ value_of (parse_certs r bytes)
  unfolding load_certs parse_certs or_tls
  certs_same bytes = from_read (r.read_certs bytes)
    where
      from_read :
          (x : String ⊎ List r.Cert)
          → value_of (or_tls x >>= not_empty r "No certificates found in file")
            ≡ value_of (or_tls x >>= not_empty r "No certificates found in PEM data")
      from_read (inl text) = refl
      from_read (inr cs) =
          not_empty_same "No certificates found in file" "No certificates found in PEM data" cs

  found_same : (s t : String) (o : Option r.Key) → value_of (found r s o) ≡ value_of (found r t o)
  unfolding value_of found
  found_same s t none = refl
  found_same s t (some k) = refl

  key_same :
      (bytes : List ℕ)
      → value_of (load_private_key r (inr bytes)) ≡ value_of (parse_private_key r bytes)
  unfolding load_private_key parse_private_key or_tls
  key_same bytes = from_read (r.read_key bytes)
    where
      from_read :
          (x : String ⊎ Option r.Key)
          → value_of (or_tls x >>= found r "No private key found in file")
            ≡ value_of (or_tls x >>= found r "No private key found in PEM data")
      from_read (inl text) = refl
      from_read (inr o) =
          found_same "No private key found in file" "No private key found in PEM data" o

  -- The two loops fill the same store, and fail on the same certificate.
  roots_same :
      (store : r.Store) (cs : List r.Cert) → add_file_roots r store cs ≡ add_pem_roots r store cs
  unfolding add_file_roots add_pem_roots
  roots_same store [] = refl
  roots_same store (c ∷ cs) = ap (λ k. or_tls (r.add_root store c) >>= k) (λ i s. roots_same s cs i)

  -- Certificates and keys in readable files make the same configuration as their bytes, for the server and for the client: both ways
  -- succeed with the same configuration, or both fail.
  pub files_lem :
      (t : TlsConfig r) (certs key : List ℕ)
      → (value_of (with_server_cert_file r t (inr certs) (inr key))
          ≡ value_of (with_server_cert_pem r t certs key))
        × (value_of (with_client_ca_file r t (inr certs)) ≡ value_of (with_client_ca_pem r t certs))
  unfolding with_server_cert_file with_server_cert_pem with_client_ca_file with_client_ca_pem
  files_lem t certs key = (
    after_same (load_certs r (inr certs)) (parse_certs r certs) _ _ (certs_same certs) (λ cs.
        after_same (load_private_key r (inr key)) (parse_private_key r key) _ _ (key_same key)
          (λ k. refl)),
    after_same (load_certs r (inr certs)) (parse_certs r certs) _ _ (certs_same certs) (λ cs.
        after_same (add_file_roots r r.no_roots cs) (add_pem_roots r r.no_roots cs) _ _
          (ap value_of (roots_same r.no_roots cs)) (λ store. refl)),
  )
