-- ===== src/Stream/BiLocal.antt =====
-- wtransport/src/engine/stream.rs: the bidirectional streams that this side opens.
use wtransport.Prelude.{ℕ, Option, none, some, Result, ok, err, Outcome, done, bind}
use wtransport.Ids.SessionId.{SessionId}
use wtransport.Ids.StreamId.{StreamId}
use wtransport.Quic.Octets.{Octets}
use wtransport.Quic.Streams.{Quinn}
use wtransport.Bytes.Async.{IoError}
use wtransport.Bytes.Async.Chain.{Async, converted}
use wtransport.Frame.{Frame, new_webtransport}
use wtransport.Frame.Async.{read_async, write_async}
use wtransport.Stream.{Stream, Raw, raw, H3, Wt, TwoWay, on_part, send_stream_id}
use wtransport.Stream.Errors.{
  FrameReadError, FrameWriteError, UpgradeError, read_to_frame_read, io_to_frame_write,
  io_to_upgrade,
}

module _ (q : Quinn) where
  abbrev pub BiLocal : Type 0
  BiLocal = TwoWay q

  unfoldable pub bi_local_raw : q.Send × q.Recv → Stream BiLocal Raw
  bi_local_raw (send, recv) = record { kind = record { send = send; recv = recv }; stage = raw }

  abbrev opened : {E : Type 0} → Result (q.Send × q.Recv) E → Option (Stream BiLocal Raw)
  unfolding bi_local_raw
  opened (ok stream) = some (bi_local_raw stream)
  opened (err e) = none

  -- `open_bi`, with what the connection returns.
  unfoldable pub open_bi : {E : Type 0} → Result (q.Send × q.Recv) E → Option (Stream BiLocal Raw)
  unfolding opened
  open_bi stream = opened stream

  unfoldable pub upgrade : Stream BiLocal Raw → Stream BiLocal H3
  upgrade s = record { kind = s.kind; stage = record { header = none } }

  abbrev pub recv_part : Stream BiLocal H3 → q.Recv
  recv_part s = s.kind.recv

  abbrev pub with_recv : q.Recv → Stream BiLocal H3 → Stream BiLocal H3
  with_recv r s = record { kind = record { send = s.kind.send; recv = r }; stage = s.stage }

  abbrev pub send_part : Stream BiLocal H3 → q.Send
  send_part s = s.kind.send

  abbrev pub with_send : q.Send → Stream BiLocal H3 → Stream BiLocal H3
  with_send w s = record { kind = record { send = w; recv = s.kind.recv }; stage = s.stage }

  unfoldable pub read_frame : Octets → ℕ → Async (Stream BiLocal H3) FrameReadError Frame
  unfolding read_async read_to_frame_read
  read_frame o polls =
      on_part recv_part with_recv (converted read_to_frame_read (read_async o q.reader polls))

  unfoldable pub write_frame :
      Octets → ℕ → Frame → Async (Stream BiLocal H3) FrameWriteError (Unit {0})
  unfolding write_async io_to_frame_write
  write_frame o polls frame =
      on_part send_part with_send (converted io_to_frame_write (write_async o q.writer polls frame))

  abbrev pub session_sent :
      SessionId
      → Stream BiLocal H3
      → Option (Result (Unit {0}) IoError × q.Send)
      → Outcome (Option (Result (Stream BiLocal Wt) UpgradeError))
  unfolding io_to_upgrade
  session_sent session_id s none = done none
  session_sent session_id s (some (err e, w)) = done (some (err (io_to_upgrade e)))
  session_sent session_id s (some (ok _, w)) = done (
      some (
        ok (record {
          kind = record { send = w; recv = s.kind.recv };
          stage = record { session_id = session_id };
        })))

  -- `upgrade` into a session, which writes the frame that names the session.
  unfoldable pub upgrade_wt :
      Octets
      → ℕ
      → SessionId
      → Stream BiLocal H3
      → Outcome (Option (Result (Stream BiLocal Wt) UpgradeError))
  unfolding new_webtransport write_async session_sent
  upgrade_wt o polls session_id s =
      bind (new_webtransport session_id)
        λ frame. bind (write_async o q.writer polls frame s.kind.send) (session_sent session_id s)

  unfoldable pub id : Stream BiLocal H3 → Outcome StreamId
  unfolding send_stream_id
  id s = send_stream_id q s.kind.send

  unfoldable pub normalize : Stream BiLocal H3 → Stream (TwoWay q) Raw
  normalize s = record { kind = s.kind; stage = raw }

  -- The method `raw`.
  unfoldable pub into_raw : Stream BiLocal Wt → q.Send × q.Recv
  into_raw s = (s.kind.send, s.kind.recv)

  -- `id` of a `Stream<Bi, Raw>`.
  unfoldable pub bi_id : Stream (TwoWay q) Raw → Outcome StreamId
  unfolding send_stream_id
  bi_id s = send_stream_id q s.kind.send
