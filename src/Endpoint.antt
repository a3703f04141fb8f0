-- ===== src/Endpoint.antt =====
-- wtransport/src/endpoint.rs: the endpoints of a server and of a client. What `quinn` returns is an
-- argument, or a function of the configuration that it gets.
use wtransport.Prelude.{
  Bool, true, false, Option, none, some, Result, ok, err, Outcome, done, bind, expect_ok,
}
use wtransport.Config.Crypto.{Tls}
use wtransport.Config.{ServerConfig, ClientConfig}

-- `Endpoint<Side>`, whose side is a marker.
pub record Endpoint (Side Quic : Type 0) : Type 0 where
  pub endpoint : Quic

pub data Server : Type 0 where
  server : Server

pub data Client : Type 0 where
  client : Client

-- What `Connecting::new` gets.
pub record Attempt (Incoming : Type 0) : Type 0 where
  pub is_server : Bool
  pub quic_connecting : Incoming

module _ (tls : Tls) (Address Quic IoError : Type 0) where
  abbrev made : {Side : Type 0} → Result Quic IoError → Result (Endpoint Side Quic) IoError
  made (err e) = err e
  made (ok endpoint) = ok (record { endpoint = endpoint })

  -- `Endpoint::server`, with `QuicEndpoint::server`.
  unfoldable pub new_server :
      (tls.QuicServerConfig → Address → Result Quic IoError)
      → ServerConfig tls Address
      → Result (Endpoint Server Quic) IoError
  new_server quic_server config = made (quic_server config.quic_config config.bind_address)

  abbrev configured :
      (tls.QuicClientConfig → Quic → Quic)
      → tls.QuicClientConfig
      → Result Quic IoError
      → Result (Endpoint Client Quic) IoError
  configured set_default quic_config (err e) = err e
  configured set_default quic_config (ok endpoint) =
      ok (record { endpoint = set_default quic_config endpoint })

  -- `Endpoint::client`, with `QuicEndpoint::client` and `set_default_client_config`.
  unfoldable pub new_client :
      (Address → Result Quic IoError)
      → (tls.QuicClientConfig → Quic → Quic)
      → ClientConfig tls Address
      → Result (Endpoint Client Quic) IoError
  new_client quic_client set_default config =
      configured set_default config.quic_config (quic_client config.bind_address)

-- `Endpoint::accept`, with the attempt that the QUIC endpoint accepts.
unfoldable pub accept : {Incoming : Type 0} → Option Incoming → Option (Attempt Incoming)
accept none = none
accept (some quic_connecting) =
    some (record { is_server = true; quic_connecting = quic_connecting })

-- `Endpoint::connect`, with what `connect` of the QUIC endpoint returns.
unfoldable pub connect :
    {Incoming ConnectError E : Type 0}
    → Result Incoming ConnectError
    → Outcome (Result (Attempt Incoming) E)
connect connecting =
    bind (expect_ok connecting)
      λ quic_connecting. done (ok (record { is_server = false; quic_connecting = quic_connecting }))
