-- ===== src/Tests/IntegrationRuns.antt =====
-- src/integration/thread_pool.rs, src/tracing/mod.rs and src/tls/config.rs on concrete inputs.
use rust_network_system.Base.{ℕ, ◌≡◌, List, [], ◌∷◌, some, inr, inl, get_elem?, ◌==◌, if◌then◌else◌}
use rust_network_system.Message.{Message}
use rust_network_system.Hex.{Text}
use rust_network_system.ThreadPool.{Processor, encryption_processor}
use rust_network_system.Tracing.{TraceContext, new, child_span}
use rust_network_system.Tls.{assertion, new as no_pins}
use rust_network_system.Tls.Config.{
  Rustls, new_config, with_server_cert_file, with_server_cert_pem, with_client_ca_file,
  with_client_ca_pem,
}
use rust_network_system.Tls.Files
use rust_network_system.Tls.Files.{value_of}
use rust_network_system.Tls.Verifiers
use rust_network_system.Tls.Verifiers.{SignatureCheck, Handshake, ed25519}

abbrev hi : Message
hi = record { payload = 104 ∷ 105 ∷ 33 ∷ [] }

abbrev first_key : List ℕ
first_key = 1 ∷ 255 ∷ []

abbrev second_key : List ℕ
second_key = 7 ∷ []

abbrev twice : List (Processor × Processor)
twice =
    (encryption_processor first_key, encryption_processor first_key)
    ∷ (encryption_processor second_key, encryption_processor second_key)
    ∷ []

abbrev hidden : Message
hidden = record { payload = 110 ∷ 145 ∷ 39 ∷ [] }

-- The service "s" with the operations "a" and "b" in one nanosecond.
abbrev parent : TraceContext
parent = (new (115 ∷ []) (97 ∷ []) (some 1000) 1).0

abbrev child : TraceContext
child = (child_span parent (98 ∷ []) (some 1000) 2).0

-- A hash of two bytes, and its fingerprint "ab:0C".
abbrev hash : List ℕ → List ℕ
hash cert = 171 ∷ 12 ∷ []

abbrev pinned : List Text
pinned = (97 ∷ 98 ∷ 58 ∷ 48 ∷ 67 ∷ []) ∷ []

-- A library that accepts every signature.
abbrev check : SignatureCheck
check message cert dss = assertion

abbrev hello : Handshake
hello = record {
  cert = 1 ∷ 2 ∷ [];
  intermediates = [];
  server_name = [];
  ocsp_response = [];
  now = 0;
  scheme = ed25519;
  message = [];
  dss = [];
}

-- Certificates, keys and roots are numbers; a certificate with the number 0 is no root.
abbrev library : Rustls
library = record {
  Cert = ℕ;
  Key = ℕ;
  Store = List ℕ;
  Server = List ℕ × ℕ;
  Client = List ℕ;
  read_certs = λ bytes. inr bytes;
  read_key = λ bytes. inr (get_elem? bytes 0);
  single_cert = λ certs key. inr (certs, key);
  no_roots = [];
  add_root = λ roots c. if c == 0 then inl "no root" else inr (c ∷ roots);
  trust_roots = λ roots. roots;
  trust_pins = λ pins. [];
  trust_all = [];
}

files_lem_example :
    let t = new_config library in
    (value_of (with_server_cert_file library t (inr (3 ∷ 5 ∷ [])) (inr (7 ∷ [])))
      ≡ value_of (with_server_cert_pem library t (3 ∷ 5 ∷ []) (7 ∷ [])))
    × (value_of (with_client_ca_file library t (inr (3 ∷ 5 ∷ [])))
        ≡ value_of (with_client_ca_pem library t (3 ∷ 5 ∷ [])))
files_lem_example = Files.files_lem library (new_config library) (3 ∷ 5 ∷ []) (7 ∷ [])
