-- ===== src/Stream/BiRemote.antt =====
-- wtransport/src/engine/stream.rs: the bidirectional streams that the peer opens.
use wtransport.Prelude.{ℕ, Option, none, some, Result, ok, err, Outcome}
use wtransport.VarInt.{VarInt}
use wtransport.Ids.SessionId.{SessionId}
use wtransport.Ids.StreamId.{StreamId}
use wtransport.Quic.Octets.{Octets}
use wtransport.Quic.Streams.{Quinn}
use wtransport.Bytes.Async.Chain.{Async, converted}
use wtransport.Frame.{Frame}
use wtransport.Frame.Async.{read_async, write_async}
use wtransport.Stream.{Stream, Raw, raw, H3, Wt, TwoWay, on_part, send_stream_id, recv_stop}
use wtransport.Stream.Errors.{
  FrameReadError, FrameWriteError, read_to_frame_read, io_to_frame_write,
}

module _ (q : Quinn) where
  abbrev pub BiRemote : Type 0
  BiRemote = TwoWay q

  unfoldable pub bi_remote_raw : q.Send × q.Recv → Stream BiRemote Raw
  bi_remote_raw (send, recv) = record { kind = record { send = send; recv = recv }; stage = raw }

  abbrev accepted : {E : Type 0} → Result (q.Send × q.Recv) E → Option (Stream BiRemote Raw)
  unfolding bi_remote_raw
  accepted (ok stream) = some (bi_remote_raw stream)
  accepted (err e) = none

  -- `accept_bi`, with what the connection returns.
  unfoldable pub accept_bi :
      {E : Type 0} → Result (q.Send × q.Recv) E → Option (Stream BiRemote Raw)
  unfolding accepted
  accept_bi stream = accepted stream

  unfoldable pub upgrade : Stream BiRemote Raw → Stream BiRemote H3
  upgrade s = record { kind = s.kind; stage = record { header = none } }

  abbrev stopped : {S : Type 0} → VarInt → Stream BiRemote S → Outcome q.Recv
  unfolding recv_stop
  stopped code s = recv_stop q code s.kind.recv

  -- The methods `stop`, which consume the stream: its receive stream after it.
  unfoldable pub stop : VarInt → Stream BiRemote Raw → Outcome q.Recv
  unfolding stopped
  stop code s = stopped code s

  unfoldable pub stop_h3 : VarInt → Stream BiRemote H3 → Outcome q.Recv
  unfolding stopped
  stop_h3 code s = stopped code s

  abbrev pub recv_part : Stream BiRemote H3 → q.Recv
  recv_part s = s.kind.recv

  abbrev pub with_recv : q.Recv → Stream BiRemote H3 → Stream BiRemote H3
  with_recv r s = record { kind = record { send = s.kind.send; recv = r }; stage = s.stage }

  abbrev pub send_part : Stream BiRemote H3 → q.Send
  send_part s = s.kind.send

  abbrev pub with_send : q.Send → Stream BiRemote H3 → Stream BiRemote H3
  with_send w s = record { kind = record { send = w; recv = s.kind.recv }; stage = s.stage }

  unfoldable pub read_frame : Octets → ℕ → Async (Stream BiRemote H3) FrameReadError Frame
  unfolding read_async read_to_frame_read
  read_frame o polls =
      on_part recv_part with_recv (converted read_to_frame_read (read_async o q.reader polls))

  unfoldable pub write_frame :
      Octets → ℕ → Frame → Async (Stream BiRemote H3) FrameWriteError (Unit {0})
  unfolding write_async io_to_frame_write
  write_frame o polls frame =
      on_part send_part with_send (converted io_to_frame_write (write_async o q.writer polls frame))

  unfoldable pub upgrade_wt : SessionId → Stream BiRemote H3 → Stream BiRemote Wt
  upgrade_wt session_id s = record { kind = s.kind; stage = record { session_id = session_id } }

  unfoldable pub id : Stream BiRemote H3 → Outcome StreamId
  unfolding send_stream_id
  id s = send_stream_id q s.kind.send

  unfoldable pub normalize : Stream BiRemote H3 → Stream (TwoWay q) Raw
  normalize s = record { kind = s.kind; stage = raw }

  -- The method `raw`.
  unfoldable pub into_raw : Stream BiRemote Wt → q.Send × q.Recv
  into_raw s = (s.kind.send, s.kind.recv)
