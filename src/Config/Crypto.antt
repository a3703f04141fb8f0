-- ===== src/Config/Crypto.antt =====
-- What the configurations use of the `rustls` and `quinn` crates, which the repository uses and does
-- not contain.
use wtransport.Prelude.{ℕ, ◌≡◌, List, Result}

pub record Tls : Type 1 where
  pub TlsError : Type 0
  -- `rustls::ServerConfig`, behind `with_safe_defaults` and `with_no_client_auth`.
  pub ServerTls : Type 0
  pub with_single_cert : List (List ℕ) → List ℕ → Result ServerTls TlsError
  -- The assignment of the field `alpn_protocols`, and the field.
  pub with_server_alpn : List (List ℕ) → ServerTls → ServerTls
  pub server_alpn : ServerTls → List (List ℕ)
  -- `rustls::RootCertStore`, whose `add` changes the store.
  pub RootCertStore : Type 0
  pub empty_store : RootCertStore
  pub add : List ℕ → RootCertStore → Result (Unit {0}) TlsError × RootCertStore
  -- `rustls::ClientConfig`; `Versions` is its builder behind the protocol versions.
  pub Versions : Type 0
  pub with_safe_default_protocol_versions : Result Versions TlsError
  pub ClientTls : Type 0
  pub with_root_certificates : Versions → RootCertStore → ClientTls
  pub with_client_alpn : List (List ℕ) → ClientTls → ClientTls
  pub client_alpn : ClientTls → List (List ℕ)
  -- A verifier gets the end entity, the intermediates and what else it is told of the handshake.
  pub Handshake : Type 0
  pub set_certificate_verifier :
      (List ℕ → List (List ℕ) → Handshake → Result (Unit {0}) TlsError) → ClientTls → ClientTls
  -- `quinn::ServerConfig` and `quinn::ClientConfig`
  pub QuicServerConfig : Type 0
  pub with_crypto : ServerTls → QuicServerConfig
  pub QuicClientConfig : Type 0
  pub new_client : ClientTls → QuicClientConfig

-- What was assigned to the protocols is what they are, and setting a verifier does not change them.
pub record AlpnLaws (tls : Tls) : Type 0 where
  pub server_alpn_lem :
      (ps : List (List ℕ)) (c : tls.ServerTls) → tls.server_alpn (tls.with_server_alpn ps c) ≡ ps
  pub client_alpn_lem :
      (ps : List (List ℕ)) (c : tls.ClientTls) → tls.client_alpn (tls.with_client_alpn ps c) ≡ ps
  pub verification_alpn_lem :
      (verifier : List ℕ → List (List ℕ) → tls.Handshake → Result (Unit {0}) tls.TlsError)
      (c : tls.ClientTls)
      → tls.client_alpn (tls.set_certificate_verifier verifier c) ≡ tls.client_alpn c
