-- ===== src/Stream/Quic.antt =====
-- wtransport/src/engine/stream.rs: `QuicSendStream` and `QuicRecvStream`, which forward to the streams
-- of `quinn` and convert their errors. `none` stands for a future that is pending.
use wtransport.Prelude.{ℕ, List, Option, none, some, Result, ok, err}
use wtransport.Quic.Streams.{Quinn}
use wtransport.Quic.Streams.Awaited.{Awaited}
use wtransport.Stream.{Stream, H3}
use wtransport.Stream.UniLocal.{UniLocal}
use wtransport.Stream.Errors.{StreamError}
use wtransport.ConnectionError.{
  QuinnWriteError, QuinnReadError, QuinnStoppedError, of_write, of_read, of_stopped,
}

-- The operator `?` on what was awaited, and the value that `Ok` gets.
abbrev pub converted :
    {A B E S : Type 0}
    → (E → StreamError)
    → (A → B)
    → Option (Result A E × S)
    → Option (Result B StreamError × S)
converted of value none = none
converted of value (some (err e, s)) = some (err (of e), s)
converted of value (some (ok a, s)) = some (ok (value a), s)

module _ (q : Quinn) (awaited : Awaited q QuinnWriteError QuinnReadError QuinnStoppedError) where
  unfoldable pub write : List ℕ → q.Send → Option (Result ℕ StreamError × q.Send)
  unfolding of_write
  write buf s = converted of_write (λ written. written) (awaited.write buf s)

  unfoldable pub write_all : List ℕ → q.Send → Option (Result (Unit {0}) StreamError × q.Send)
  unfolding of_write
  write_all buf s = converted of_write (λ _. tt) (awaited.write_all buf s)

  unfoldable pub finish : q.Send → Option (Result (Unit {0}) StreamError × q.Send)
  unfolding of_write
  finish s = converted of_write (λ _. tt) (awaited.finish s)

  unfoldable pub stopped : q.Send → Option (Result (Unit {0}) StreamError × q.Send)
  unfolding of_stopped
  stopped s = converted of_stopped (λ code. tt) (awaited.stopped s)

  -- The bytes that are read into a buffer of this size.
  unfoldable pub read : ℕ → q.Recv → Option (Result (Option (List ℕ)) StreamError × q.Recv)
  unfolding of_read
  read size r = converted of_read (λ bytes. bytes) (awaited.read size r)

  -- `stopped` of a `Stream<UniLocal, H3>`.
  unfoldable pub uni_stopped :
      Stream (UniLocal q) H3 → Option (Result (Unit {0}) StreamError × q.Send)
  unfolding stopped
  uni_stopped s = stopped s.kind.send
