-- ===== src/Config.antt =====
-- wtransport/src/config.rs: the configurations of a server and of a client, which are built in two
-- steps, and whose TLS part offers the protocol of WebTransport alone.
pub mod Crypto
pub mod Laws
mod Tests
use wtransport.Prelude.{ℕ, List, [], ◌∷◌, Result, ok, err, Outcome, done, bind, expect_ok}
use wtransport.Config.Crypto.{Tls}
use wtransport.Certificate.{Certificate}

-- `WEBTRANSPORT_ALPN` of wtransport-proto/src/lib.rs, the bytes of `h3`.
unfoldable pub webtransport_alpn : List ℕ
webtransport_alpn = 104 ∷ 51 ∷ []

-- The states of the builders; `Address` is `SocketAddr`.
pub data WantsBindAddress : Type 0 where
  wants_bind_address : WantsBindAddress

module _ (Address : Type 0) where
  pub record WantsCertificate : Type 0 where
    pub bind_address : Address

  pub record WantsRootStore : Type 0 where
    pub bind_address : Address

pub record ServerConfigBuilder (State : Type 0) : Type 0 where
  pub state : State

pub record ClientConfigBuilder (State : Type 0) : Type 0 where
  pub state : State

module _ (tls : Tls) (Address : Type 0) where
  pub record ServerConfig : Type 0 where
    pub quic_config : tls.QuicServerConfig
    pub bind_address : Address

  pub record ClientConfig : Type 0 where
    pub quic_config : tls.QuicClientConfig
    pub bind_address : Address

  -- `ServerConfig::builder`, which is `ServerConfigBuilder::default`.
  unfoldable pub server_builder : ServerConfigBuilder WantsBindAddress
  server_builder = record { state = wants_bind_address }

  -- `ServerConfigBuilder::with_bind_address`
  unfoldable pub server_bind_address :
      Address
      → ServerConfigBuilder WantsBindAddress
      → ServerConfigBuilder (WantsCertificate Address)
  server_bind_address address b = record { state = record { bind_address = address } }

  -- `ServerConfigBuilder::build_tls_config`
  unfoldable pub server_tls_config : Certificate → Outcome tls.ServerTls
  unfolding webtransport_alpn
  server_tls_config certificate =
      bind (expect_ok (tls.with_single_cert certificate.certificates certificate.key))
        λ config. done (tls.with_server_alpn (webtransport_alpn ∷ []) config)

  unfoldable pub with_certificate :
      Certificate → ServerConfigBuilder (WantsCertificate Address) → Outcome ServerConfig
  unfolding server_tls_config
  with_certificate certificate b = bind (server_tls_config certificate) λ tls_config.
      done
        (record { quic_config = tls.with_crypto tls_config; bind_address = b.state.bind_address })

  -- `ClientConfig::builder`, which is `ClientConfigBuilder::default`.
  unfoldable pub client_builder : ClientConfigBuilder WantsBindAddress
  client_builder = record { state = wants_bind_address }

  -- `ClientConfigBuilder::with_bind_address`
  unfoldable pub client_bind_address :
      Address → ClientConfigBuilder WantsBindAddress → ClientConfigBuilder (WantsRootStore Address)
  client_bind_address address b = record { state = record { bind_address = address } }

  -- The loop of `native_cert_store`; a certificate that is refused is passed over.
  unfoldable pub add_certs : List (List ℕ) → tls.RootCertStore → tls.RootCertStore
  add_certs [] root_store = root_store
  add_certs (c ∷ certs) root_store = add_certs certs ((tls.add c root_store).1)

  -- With what `load_native_certs` returns.
  unfoldable pub native_cert_store : {E : Type 0} → Result (List (List ℕ)) E → tls.RootCertStore
  unfolding add_certs
  native_cert_store (ok certs) = add_certs certs tls.empty_store
  native_cert_store (err e) = tls.empty_store

  -- `ClientConfigBuilder::build_tls_config`
  unfoldable pub client_tls_config : tls.RootCertStore → Outcome tls.ClientTls
  unfolding webtransport_alpn
  client_tls_config root_store =
      bind (expect_ok tls.with_safe_default_protocol_versions) λ versions. done (
        tls.with_client_alpn (webtransport_alpn ∷ [])
          (tls.with_root_certificates versions root_store))

  abbrev client_config : tls.ClientTls → ClientConfigBuilder (WantsRootStore Address) → ClientConfig
  client_config tls_config b = record {
    quic_config = tls.new_client tls_config;
    bind_address = b.state.bind_address;
  }

  unfoldable pub with_native_certs :
      {E : Type 0}
      → Result (List (List ℕ)) E
      → ClientConfigBuilder (WantsRootStore Address)
      → Outcome ClientConfig
  unfolding client_tls_config native_cert_store
  with_native_certs loaded b =
      bind (client_tls_config (native_cert_store loaded))
        λ tls_config. done (client_config tls_config b)

  -- `NoServerVerification::verify_server_cert`
  unfoldable pub verify_server_cert :
      List ℕ → List (List ℕ) → tls.Handshake → Result (Unit {0}) tls.TlsError
  verify_server_cert end_entity intermediates handshake = ok tt

  unfoldable pub with_no_cert_validation :
      ClientConfigBuilder (WantsRootStore Address) → Outcome ClientConfig
  unfolding client_tls_config
  with_no_cert_validation b = bind (client_tls_config tls.empty_store) λ tls_config.
      done (client_config (tls.set_certificate_verifier verify_server_cert tls_config) b)
