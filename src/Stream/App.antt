-- ===== src/Stream/App.antt =====
-- wtransport/src/stream.rs: the streams that the application gets.
pub mod Polls
use wtransport.Prelude.{ℕ, List, Option, none, some, Result, Outcome}
use wtransport.Ids.StreamId.{StreamId}
use wtransport.Quic.Streams.{Quinn}
use wtransport.Quic.Streams.Awaited.{Awaited}
use wtransport.Stream.{send_stream_id, recv_stream_id}
use wtransport.Stream.Errors.{StreamError}
use wtransport.ConnectionError.{QuinnWriteError, QuinnReadError, QuinnStoppedError}
use wtransport.Stream.Quic as Quic

module _ (q : Quinn) where
  pub record SendStream : Type 0 where
    pub stream : q.Send

  pub record RecvStream : Type 0 where
    pub stream : q.Recv

  -- `SendStream::new` and `RecvStream::new`
  unfoldable pub send_new : q.Send → SendStream
  send_new stream = record { stream = stream }

  unfoldable pub recv_new : q.Recv → RecvStream
  recv_new stream = record { stream = stream }

  unfoldable pub send_id : SendStream → Outcome StreamId
  unfolding send_stream_id
  send_id s = send_stream_id q s.stream

  unfoldable pub recv_id : RecvStream → Outcome StreamId
  unfolding recv_stream_id
  recv_id r = recv_stream_id q r.stream

  abbrev pub sending : {A : Type 0} → Option (A × q.Send) → Option (A × SendStream)
  sending none = none
  sending (some (a, s)) = some (a, record { stream = s })

  abbrev pub receiving : {A : Type 0} → Option (A × q.Recv) → Option (A × RecvStream)
  receiving none = none
  receiving (some (a, r)) = some (a, record { stream = r })

module _ (q : Quinn) (awaited : Awaited q QuinnWriteError QuinnReadError QuinnStoppedError) where
  unfoldable pub write : List ℕ → SendStream q → Option (Result ℕ StreamError × SendStream q)
  unfolding Quic.write
  write buf s = sending q (Quic.write q awaited buf s.stream)

  unfoldable pub write_all :
      List ℕ → SendStream q → Option (Result (Unit {0}) StreamError × SendStream q)
  unfolding Quic.write_all
  write_all buf s = sending q (Quic.write_all q awaited buf s.stream)

  unfoldable pub finish : SendStream q → Option (Result (Unit {0}) StreamError × SendStream q)
  unfolding Quic.finish
  finish s = sending q (Quic.finish q awaited s.stream)

  unfoldable pub read :
      ℕ → RecvStream q → Option (Result (Option (List ℕ)) StreamError × RecvStream q)
  unfolding Quic.read
  read size r = receiving q (Quic.read q awaited size r.stream)
