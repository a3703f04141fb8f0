-- ===== src/Stream/UniRemote.antt =====
-- wtransport/src/engine/stream.rs: the unidirectional streams that the peer opens.
use wtransport.Prelude.{ℕ, Option, none, some, Result, ok, err, Outcome, done, bind}
use wtransport.VarInt.{VarInt}
use wtransport.Quic.Octets.{Octets}
use wtransport.Quic.Streams.{Quinn}
use wtransport.Bytes.Async.Chain.{Async, converted}
use wtransport.Frame.{Frame}
use wtransport.Frame.Async as FrameAsync
use wtransport.StreamHeader.{StreamHeader}
use wtransport.StreamHeader.Async.{StreamHeaderReadAsyncError, read_async}
use wtransport.Stream.{Stream, Raw, raw, H3, Wt, on_part, recv_stop, header_of, session_of}
use wtransport.Stream.Errors.{FrameReadError, UpgradeError, read_to_frame_read, read_to_upgrade}

module _ (q : Quinn) where
  pub record UniRemote : Type 0 where
    pub recv : q.Recv

  unfoldable pub uni_remote_raw : q.Recv → Stream UniRemote Raw
  uni_remote_raw recv = record { kind = record { recv = recv }; stage = raw }

  abbrev accepted : {E : Type 0} → Result q.Recv E → Option (Stream UniRemote Raw)
  unfolding uni_remote_raw
  accepted (ok stream) = some (uni_remote_raw stream)
  accepted (err e) = none

  -- `accept_uni`, with what the connection returns.
  unfoldable pub accept_uni : {E : Type 0} → Result q.Recv E → Option (Stream UniRemote Raw)
  unfolding accepted
  accept_uni stream = accepted stream

  abbrev pub header_read :
      Option (Result StreamHeader StreamHeaderReadAsyncError × q.Recv)
      → Outcome (Option (Result (Stream UniRemote H3) UpgradeError))
  unfolding read_to_upgrade
  header_read none = done none
  header_read (some (err e, r)) = done (some (err (read_to_upgrade e)))
  header_read (some (ok header, r)) =
      done
        (some (ok (record { kind = record { recv = r }; stage = record { header = some header } })))

  unfoldable pub upgrade :
      Octets
      → ℕ
      → Stream UniRemote Raw
      → Outcome (Option (Result (Stream UniRemote H3) UpgradeError))
  unfolding read_async header_read
  upgrade o polls s = bind (read_async o q.reader polls s.kind.recv) header_read

  -- The method `stop`, which consumes the stream: its receive stream after it.
  unfoldable pub stop : VarInt → Stream UniRemote Raw → Outcome q.Recv
  unfolding recv_stop
  stop code s = recv_stop q code s.kind.recv

  unfoldable pub header : Stream UniRemote H3 → Outcome StreamHeader
  unfolding header_of
  header s = header_of s.stage

  abbrev pub recv_part : Stream UniRemote H3 → q.Recv
  recv_part s = s.kind.recv

  abbrev pub with_recv : q.Recv → Stream UniRemote H3 → Stream UniRemote H3
  with_recv r s = record { kind = record { recv = r }; stage = s.stage }

  unfoldable pub read_frame : Octets → ℕ → Async (Stream UniRemote H3) FrameReadError Frame
  unfolding FrameAsync.read_async read_to_frame_read
  read_frame o polls =
      on_part recv_part with_recv
        (converted read_to_frame_read (FrameAsync.read_async o q.reader polls))

  unfoldable pub upgrade_wt : Stream UniRemote H3 → Outcome (Stream UniRemote Wt)
  unfolding session_of
  upgrade_wt s =
      bind (session_of s.stage)
        λ session_id. done (record { kind = s.kind; stage = record { session_id = session_id } })

  -- The methods `raw`.
  unfoldable pub into_raw : {S : Type 0} → Stream UniRemote S → q.Recv
  into_raw s = s.kind.recv
