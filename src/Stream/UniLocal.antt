-- ===== src/Stream/UniLocal.antt =====
-- wtransport/src/engine/stream.rs: the unidirectional streams that this side opens.
use wtransport.Prelude.{ℕ, Option, none, some, Result, ok, err, Outcome, done, bind}
use wtransport.Quic.Octets.{Octets}
use wtransport.Quic.Streams.{Quinn}
use wtransport.Bytes.Async.{IoError}
use wtransport.Bytes.Async.Chain.{Async, converted}
use wtransport.Frame.{Frame}
use wtransport.Frame.Async as FrameAsync
use wtransport.StreamHeader.{StreamHeader}
use wtransport.StreamHeader.Async.{write_async}
use wtransport.Stream.{Stream, Raw, raw, H3, Wt, on_part, header_of, session_of}
use wtransport.Stream.Errors.{FrameWriteError, UpgradeError, io_to_frame_write, io_to_upgrade}

module _ (q : Quinn) where
  pub record UniLocal : Type 0 where
    pub send : q.Send

  unfoldable pub uni_local_raw : q.Send → Stream UniLocal Raw
  uni_local_raw send = record { kind = record { send = send }; stage = raw }

  abbrev opened : {E : Type 0} → Result q.Send E → Option (Stream UniLocal Raw)
  unfolding uni_local_raw
  opened (ok stream) = some (uni_local_raw stream)
  opened (err e) = none

  -- `open_uni`, with what the connection returns.
  unfoldable pub open_uni : {E : Type 0} → Result q.Send E → Option (Stream UniLocal Raw)
  unfolding opened
  open_uni stream = opened stream

  abbrev pub header_sent :
      StreamHeader
      → Option (Result (Unit {0}) IoError × q.Send)
      → Outcome (Option (Result (Stream UniLocal H3) UpgradeError))
  unfolding io_to_upgrade
  header_sent header none = done none
  header_sent header (some (err e, w)) = done (some (err (io_to_upgrade e)))
  header_sent header (some (ok _, w)) =
      done
        (some (ok (record { kind = record { send = w }; stage = record { header = some header } })))

  unfoldable pub upgrade :
      Octets
      → ℕ
      → StreamHeader
      → Stream UniLocal Raw
      → Outcome (Option (Result (Stream UniLocal H3) UpgradeError))
  unfolding write_async header_sent
  upgrade o polls header s =
      bind (write_async o q.writer polls header s.kind.send) (header_sent header)

  unfoldable pub header : Stream UniLocal H3 → Outcome StreamHeader
  unfolding header_of
  header s = header_of s.stage

  abbrev pub send_part : Stream UniLocal H3 → q.Send
  send_part s = s.kind.send

  abbrev pub with_send : q.Send → Stream UniLocal H3 → Stream UniLocal H3
  with_send w s = record { kind = record { send = w }; stage = s.stage }

  unfoldable pub write_frame :
      Octets → ℕ → Frame → Async (Stream UniLocal H3) FrameWriteError (Unit {0})
  unfolding FrameAsync.write_async io_to_frame_write
  write_frame o polls frame =
      on_part send_part with_send
        (converted io_to_frame_write (FrameAsync.write_async o q.writer polls frame))

  unfoldable pub upgrade_wt : Stream UniLocal H3 → Outcome (Stream UniLocal Wt)
  unfolding session_of
  upgrade_wt s =
      bind (session_of s.stage)
        λ session_id. done (record { kind = s.kind; stage = record { session_id = session_id } })

  -- The method `raw`.
  unfoldable pub into_raw : Stream UniLocal Wt → q.Send
  into_raw s = s.kind.send
