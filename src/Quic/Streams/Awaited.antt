-- ===== src/Quic/Streams/Awaited.antt =====
-- What awaiting an operation of a stream of the `quinn` crate returns, with the stream after it, and
-- `none` while it is pending.
use wtransport.Prelude.{ℕ, List, Option, Result}
use wtransport.Quic.Streams.{Quinn}

pub record Awaited (q : Quinn) (WriteError ReadError StoppedError : Type 0) : Type 0 where
  pub write : List ℕ → q.Send → Option (Result ℕ WriteError × q.Send)
  pub write_all : List ℕ → q.Send → Option (Result (Unit {0}) WriteError × q.Send)
  pub finish : q.Send → Option (Result (Unit {0}) WriteError × q.Send)
  -- The code with which the peer stopped the stream.
  pub stopped : q.Send → Option (Result ℕ StoppedError × q.Send)
  -- The bytes that were read into a buffer of this size, and `none` where the stream was finished.
  pub read : ℕ → q.Recv → Option (Result (Option (List ℕ)) ReadError × q.Recv)
