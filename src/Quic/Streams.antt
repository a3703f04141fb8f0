-- ===== src/Quic/Streams.antt =====
-- The send and the receive stream of the `quinn` crate, which the repository uses and does not
-- contain, with the operations that `engine/stream.rs` calls. A stream's poll functions are those of
-- the traits in `bytes.rs`, which `engine/stream.rs` implements by them.
pub mod Feeds
pub mod Awaited
pub mod Tokio
use wtransport.Prelude.{ℕ}
use wtransport.Bytes.Async.{AsyncRead}
use wtransport.Bytes.Async.Write.{AsyncWrite}

pub record Quinn : Type 1 where
  -- `quinn::SendStream`
  pub Send : Type 0
  pub writer : AsyncWrite Send
  pub send_id : Send → ℕ
  -- `quinn::RecvStream`
  pub Recv : Type 0
  pub reader : AsyncRead Recv
  pub recv_id : Recv → ℕ
  pub stop : ℕ → Recv → Recv
