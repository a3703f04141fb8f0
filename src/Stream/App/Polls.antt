-- ===== src/Stream/App/Polls.antt =====
-- wtransport/src/stream.rs: the poll functions of the application's streams, on those of the streams
-- that they wrap.
use wtransport.Prelude.{Bool, ℕ, List, Result}
use wtransport.Bytes.Async.{IoErrorKind, Poll}
use wtransport.Quic.Streams.{Quinn}
use wtransport.Quic.Streams.Tokio.{Tokio}
use wtransport.Stream.Poll as Quic
use wtransport.Stream.Poll.{quic_reader, quic_writer}
use wtransport.Stream.App.{SendStream, RecvStream}

module _ (t : Tokio) (send_id : t.Send → ℕ) (recv_id : t.Recv → ℕ)
    (stop : ℕ → t.Recv → t.Recv) where
  -- The streams of `quinn` whose poll functions are those of `tokio`.
  abbrev pub quinn : Quinn
  unfolding quic_reader quic_writer
  quinn = record {
    Send = t.Send;
    writer = quic_writer t;
    send_id = send_id;
    Recv = t.Recv;
    reader = quic_reader t;
    recv_id = recv_id;
    stop = stop;
  }

  abbrev sent : {A : Type 0} → A × t.Send → A × SendStream quinn
  unfolding quinn
  sent out = (out.0, record { stream = out.1 })

  unfoldable pub poll_write :
      List ℕ → SendStream quinn → Poll (Result ℕ IoErrorKind) × SendStream quinn
  unfolding quinn sent Quic.poll_write
  poll_write buf s = sent (Quic.poll_write t buf s.stream)

  unfoldable pub poll_flush :
      SendStream quinn → Poll (Result (Unit {0}) IoErrorKind) × SendStream quinn
  unfolding quinn sent Quic.poll_flush
  poll_flush s = sent (Quic.poll_flush t s.stream)

  unfoldable pub poll_shutdown :
      SendStream quinn → Poll (Result (Unit {0}) IoErrorKind) × SendStream quinn
  unfolding quinn sent Quic.poll_shutdown
  poll_shutdown s = sent (Quic.poll_shutdown t s.stream)

  unfoldable pub poll_write_vectored :
      List (List ℕ) → SendStream quinn → Poll (Result ℕ IoErrorKind) × SendStream quinn
  unfolding quinn sent Quic.poll_write_vectored
  poll_write_vectored bufs s = sent (Quic.poll_write_vectored t bufs s.stream)

  unfoldable pub is_write_vectored : SendStream quinn → Bool
  unfolding quinn Quic.is_write_vectored
  is_write_vectored s = Quic.is_write_vectored t s.stream

  unfoldable pub poll_read :
      ℕ → RecvStream quinn → Poll (Result (List ℕ) IoErrorKind) × RecvStream quinn
  unfolding quinn Quic.poll_read
  poll_read room r = let out = Quic.poll_read t room r.stream in (out.0, record { stream = out.1 })
