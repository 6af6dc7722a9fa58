-- ===== src/Tls/Config.antt =====
-- `TlsConfig` of src/tls/config.rs. The TLS library and the reader of PEM are the parameter `Rustls`; what a file
-- holds is an argument. The texts of errors leave out the path and
-- the words that the source puts before the text of the library.
use rust_network_system.Base.{
  ℕ, Bool, true, false, Option, none, some, ◌⊎◌, inl, inr, List, [], ◌∷◌, String,
}
use rust_network_system.Error.{Result, ok, err, tls, ◌>>=◌}
use rust_network_system.Tls.{CertificatePins}

-- What the source uses of the libraries: their types, the readers of PEM, the check of a certificate with its key, the
-- stores of root certificates, and the configurations that it asks for.
pub record Rustls : Type 1 where
  pub Cert : Type 0
  pub Key : Type 0
  pub Store : Type 0
  pub Server : Type 0
  pub Client : Type 0
  pub read_certs : List ℕ → String ⊎ List Cert
  pub read_key : List ℕ → String ⊎ Option Key
  pub single_cert : List Cert → Key → String ⊎ Server
  pub no_roots : Store
  pub add_root : Store → Cert → String ⊎ Store
  pub trust_roots : Store → Client
  pub trust_pins : CertificatePins → Client
  pub trust_all : Client

unfoldable pub has_value : {A : Type 0} → Option A → Bool
has_value none = false
has_value (some a) = true

-- `map_err` with `NetworkError::tls`.
unfoldable pub or_tls : {A : Type 0} → String ⊎ A → Result A
or_tls (inl text) = err (tls text)
or_tls (inr a) = ok a

module _ (r : Rustls) where
  pub record TlsConfig : Type 0 where
    pub server_config : Option r.Server
    pub client_config : Option r.Client

  unfoldable pub new_config : TlsConfig
  new_config = record { server_config = none; client_config = none }

  unfoldable pub not_empty : String → List r.Cert → Result (List r.Cert)
  not_empty text [] = err (tls text)
  not_empty text (c ∷ cs) = ok (c ∷ cs)

  unfoldable pub found : String → Option r.Key → Result r.Key
  found text none = err (tls text)
  found text (some k) = ok k

  unfoldable pub parse_certs : List ℕ → Result (List r.Cert)
  unfolding or_tls not_empty
  parse_certs pem = or_tls (r.read_certs pem) >>= not_empty "No certificates found in PEM data"

  unfoldable pub load_certs : (file : String ⊎ List ℕ) → Result (List r.Cert)
  unfolding or_tls not_empty
  load_certs file = do
    bytes ← or_tls file
    certs ← or_tls (r.read_certs bytes)
    not_empty "No certificates found in file" certs

  unfoldable pub parse_private_key : List ℕ → Result r.Key
  unfolding or_tls found
  parse_private_key pem = or_tls (r.read_key pem) >>= found "No private key found in PEM data"

  unfoldable pub load_private_key : (file : String ⊎ List ℕ) → Result r.Key
  unfolding or_tls found
  load_private_key file = do
    bytes ← or_tls file
    key ← or_tls (r.read_key bytes)
    found "No private key found in file" key

  unfoldable pub with_server_cert_file :
      TlsConfig → (cert_file key_file : String ⊎ List ℕ) → Result TlsConfig
  unfolding load_certs load_private_key or_tls
  with_server_cert_file t cert_file key_file = do
    certs ← load_certs cert_file
    key ← load_private_key key_file
    config ← or_tls (r.single_cert certs key)
    ok (record t { server_config = some config })

  unfoldable pub with_server_cert_pem : TlsConfig → (cert_pem key_pem : List ℕ) → Result TlsConfig
  unfolding parse_certs parse_private_key or_tls
  with_server_cert_pem t cert_pem key_pem = do
    certs ← parse_certs cert_pem
    key ← parse_private_key key_pem
    config ← or_tls (r.single_cert certs key)
    ok (record t { server_config = some config })

  -- The loop of `with_client_ca_file` that fills the store.
  unfoldable pub add_file_roots : r.Store → List r.Cert → Result r.Store
  unfolding or_tls
  add_file_roots store [] = ok store
  add_file_roots store (c ∷ cs) =
      or_tls (r.add_root store c) >>= (λ store'. add_file_roots store' cs)

  unfoldable pub with_client_ca_file : TlsConfig → (file : String ⊎ List ℕ) → Result TlsConfig
  unfolding add_file_roots load_certs
  with_client_ca_file t file = do
    ca_certs ← load_certs file
    store ← add_file_roots r.no_roots ca_certs
    ok (record t { client_config = some (r.trust_roots store) })

  -- The loop of `with_client_ca_pem`.
  unfoldable pub add_pem_roots : r.Store → List r.Cert → Result r.Store
  unfolding or_tls
  add_pem_roots store [] = ok store
  add_pem_roots store (c ∷ cs) = or_tls (r.add_root store c) >>= (λ store'. add_pem_roots store' cs)

  unfoldable pub with_client_ca_pem : TlsConfig → (pem : List ℕ) → Result TlsConfig
  unfolding add_pem_roots parse_certs
  with_client_ca_pem t pem = do
    ca_certs ← parse_certs pem
    store ← add_pem_roots r.no_roots ca_certs
    ok (record t { client_config = some (r.trust_roots store) })

  -- The loop of `with_client_system_roots`.
  unfoldable pub add_system_roots : r.Store → List r.Cert → Result r.Store
  unfolding or_tls
  add_system_roots store [] = ok store
  add_system_roots store (c ∷ cs) =
      or_tls (r.add_root store c) >>= (λ store'. add_system_roots store' cs)

  -- `native` are the certificates of the system that could be loaded; the errors of the others are only logged.
  unfoldable pub with_client_system_roots : TlsConfig → (native : List r.Cert) → Result TlsConfig
  unfolding add_system_roots
  with_client_system_roots t native = do
    store ← add_system_roots r.no_roots native
    ok (record t { client_config = some (r.trust_roots store) })

  unfoldable pub with_client_certificate_pinning : TlsConfig → CertificatePins → TlsConfig
  with_client_certificate_pinning t pins = record t { client_config = some (r.trust_pins pins) }

  unfoldable pub with_client_insecure : TlsConfig → TlsConfig
  with_client_insecure t = record t { client_config = some r.trust_all }

  unfoldable pub has_server_config : TlsConfig → Bool
  unfolding has_value
  has_server_config t = has_value t.server_config

  unfoldable pub has_client_config : TlsConfig → Bool
  unfolding has_value
  has_client_config t = has_value t.client_config
