-- ===== src/Stream/Poll.antt =====
-- wtransport/src/engine/stream.rs: the poll functions of `QuicSendStream` and `QuicRecvStream`, on
-- those of `tokio`; they keep the contracts `Source` and `Sink`.
use wtransport.Prelude.{Bool, ℕ, refl, ap, List, [], ◌∷◌, Result, ok, err, Outcome, done}
use wtransport.Bytes.Async.{IoError, IoErrorKind, Poll, pending, ready, AsyncRead, of_io_error}
use wtransport.Bytes.Async.Source.{Source, Flows}
use wtransport.Bytes.Async.Write.{AsyncWrite}
use wtransport.Bytes.Async.Write.Sink.{Sink, Takes}
use wtransport.Quic.Streams.Tokio.{Tokio, TokioLaws, Reads, Writes}

-- The operator `?` of the futures on what a poll returns.
abbrev pub of_poll : {A S : Type 0} → Poll (Result A IoErrorKind) × S → Poll (Result A IoError) × S
unfolding of_io_error
of_poll (pending, s) = (pending, s)
of_poll (ready (ok a), s) = (ready (ok a), s)
of_poll (ready (err k), s) = (ready (err (of_io_error k)), s)

module _ (t : Tokio) where
  -- `AsyncRead for QuicRecvStream`: the bytes that the `ReadBuf` has filled.
  unfoldable pub quic_poll_read : ℕ → t.Recv → Outcome (Poll (Result (List ℕ) IoError) × t.Recv)
  unfolding of_poll
  quic_poll_read room r = done (of_poll (t.poll_read room r))

  -- `AsyncWrite for QuicSendStream`
  unfoldable pub quic_poll_write : List ℕ → t.Send → Outcome (Poll (Result ℕ IoError) × t.Send)
  unfolding of_poll
  quic_poll_write buf w = done (of_poll (t.poll_write buf w))

  unfoldable pub quic_reader : AsyncRead t.Recv
  unfolding quic_poll_read
  quic_reader = record { poll_read = quic_poll_read }

  unfoldable pub quic_writer : AsyncWrite t.Send
  unfolding quic_poll_write
  quic_writer = record { poll_write = quic_poll_write }

  -- `tokio::io::AsyncRead for QuicRecvStream` and `tokio::io::AsyncWrite for QuicSendStream`
  unfoldable pub poll_read : ℕ → t.Recv → Poll (Result (List ℕ) IoErrorKind) × t.Recv
  poll_read room r = t.poll_read room r

  unfoldable pub poll_write : List ℕ → t.Send → Poll (Result ℕ IoErrorKind) × t.Send
  poll_write buf w = t.poll_write buf w

  unfoldable pub poll_flush : t.Send → Poll (Result (Unit {0}) IoErrorKind) × t.Send
  poll_flush w = t.poll_flush w

  unfoldable pub poll_shutdown : t.Send → Poll (Result (Unit {0}) IoErrorKind) × t.Send
  poll_shutdown w = t.poll_shutdown w

  unfoldable pub poll_write_vectored : List (List ℕ) → t.Send → Poll (Result ℕ IoErrorKind) × t.Send
  poll_write_vectored bufs w = t.poll_write_vectored bufs w

  unfoldable pub is_write_vectored : t.Send → Bool
  is_write_vectored w = t.is_write_vectored w

module _ (t : Tokio) (laws : TokioLaws t) where
  polled-Flows :
      (n : ℕ) (r : t.Recv) (out : Poll (Result (List ℕ) IoErrorKind) × t.Recv)
      → Reads t laws.bytes laws.ending laws.read_waits n r out
      → Flows laws.bytes (λ x. of_io_error (laws.ending x)) laws.read_waits n r (of_poll out)
  unfolding of_poll of_io_error
  polled-Flows n r (pending, r') (same, end, less) = (same, rw end refl, less)
  polled-Flows n r (ready (err k), r') (empty, end) = (empty, rw end refl)
  polled-Flows n r (ready (ok []), r') (empty, end) = (empty, ap of_io_error end)
  polled-Flows n r (ready (ok (b ∷ bs)), r') (fits, got, end, time) = (fits, got, rw end refl, time)

  polled-Takes :
      (bs : List ℕ) (w : t.Send) (out : Poll (Result ℕ IoErrorKind) × t.Send)
      → Writes t laws.written laws.write_waits bs w out
      → Takes laws.written laws.write_waits bs w (of_poll out)
  unfolding of_poll
  polled-Takes bs w (pending, w') h = h
  polled-Takes bs w (ready (err k), w') h = h
  polled-Takes bs w (ready (ok n), w') h = h

  -- A receive stream whose polls are those of `tokio` is a source.
  pub quic_source : Source (quic_reader t)
  unfolding quic_reader quic_poll_read
  quic_source = record {
    bytes = laws.bytes;
    ending = λ r. of_io_error (laws.ending r);
    waits = laws.read_waits;
    bytes-IsBytes = laws.bytes-IsBytes;
    poll_read_lem =
        λ n r h. (of_poll (t.poll_read n r), refl, polled-Flows n r _ (laws.poll_read_lem n r h));
  }

  -- A send stream whose polls are those of `tokio` is a sink.
  pub quic_sink : Sink (quic_writer t)
  unfolding quic_writer quic_poll_write
  quic_sink = record {
    written = laws.written;
    waits = laws.write_waits;
    poll_write_lem = λ bs w h.
        (of_poll (t.poll_write bs w), refl, polled-Takes bs w _ (laws.poll_write_lem bs w h));
  }
