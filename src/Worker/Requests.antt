-- ===== src/Worker/Requests.antt =====
-- wtransport/src/engine/worker.rs: a bidirectional HTTP/3 stream that the peer opened, by its first
-- frame.
pub mod Tests
use wtransport.Prelude.{
  ◌≤◌, ◌≡◌, ◌⊎◌, refl, inl, inr, true, false, sym, ap, ◌∙◌, true-ne-false, Option, some, Result, ok,
  err, Outcome, done, panic, bind,
}
use wtransport.Prelude.{le→leb}
use wtransport.VarInt.{VarInt, varint_max, from_u32, from_u64_unchecked}
use wtransport.Ids.StreamId
use wtransport.ErrorCode.{ErrorCode, to_code, buffered_stream_rejected}
use wtransport.Quic.Octets.{Octets, OctetsLaws}
use wtransport.Quic.Qpack.{Qpack, Unblocked}
use wtransport.Quic.Streams.{Quinn}
use wtransport.Frame.{Frame}
use wtransport.Frame.Kind.{
  FrameKind, data_frame, headers, settings, webtransport, exercise, is_webtransport,
}
use wtransport.Headers
use wtransport.Headers.{Headers}
use wtransport.Headers.Laws.{with_frame_total}
use wtransport.Stream.{Stream, H3, TwoWay, send_stream_id, checked_id, recv_stop}
use wtransport.Stream.BiRemote
use wtransport.Session.{SessionRemoteRequest}
use wtransport.Worker.{WorkerError, closing}
use wtransport.Worker.Accept.{Reserve, permit, full, closed}

-- What becomes of the stream: it is dropped, stopped, with its receive stream after it, or sent as a
-- request.
pub data Taken (q : Quinn) : Type 0 where
  dropped : Taken q
  rejected : q.Recv → Taken q
  requested : SessionRemoteRequest q → Taken q

module _ (q : Quinn) (p : Qpack) (stream : Stream (TwoWay q) H3) where
  abbrev pub Handled : Type 0
  Handled = Outcome (Result (Taken q) WorkerError)

  abbrev pub stop_stream : Handled
  unfolding to_code BiRemote.stop_h3
  stop_stream =
      bind (BiRemote.stop_h3 q (to_code buffered_stream_rejected) stream)
        λ recv. done (ok (rejected recv))

  abbrev pub with_slot : Headers → Reserve → Handled
  unfolding stop_stream
  with_slot hs permit = done (ok (requested (record { stream = stream; headers = hs })))
  with_slot hs full = stop_stream
  with_slot hs closed = stop_stream

  abbrev pub with_headers : Reserve → Result Headers ErrorCode → Handled
  unfolding with_slot
  with_headers slot (err h3code) =
      done (err (closing h3code "Error on decoding headers on request"))
  with_headers slot (ok hs) = with_slot hs slot

  abbrev pub by_kind : Frame → Reserve → FrameKind → Handled
  unfolding BiRemote.id Headers.with_frame with_headers
  by_kind first_frame slot data_frame = done (ok dropped)
  by_kind first_frame slot headers =
      bind (BiRemote.id q stream)
        λ id. bind (Headers.with_frame p first_frame id) (with_headers slot)
  by_kind first_frame slot settings =
      done (err (closing ErrorCode.frame_unexpected "Unexpected SETTINGS frame"))
  by_kind first_frame slot webtransport = panic
  by_kind first_frame slot (exercise id) = done (ok dropped)

  -- `handle_new_h3_bi`, with what `try_reserve` of the channel of requests returns.
  unfoldable pub handle_new_h3_bi : Frame → Reserve → Handled
  unfolding by_kind
  handle_new_h3_bi first_frame slot = by_kind first_frame slot first_frame.kind

module _ (q : Quinn) (p : Qpack) (stream : Stream (TwoWay q) H3) (free : Unblocked p)
    (low : q.send_id stream.kind.send ≤ varint_max) where
  -- A stream whose first frame has no headers is dropped, or its frame ends the connection.
  abbrev pub Unanswered : FrameKind → Handled q p stream → Type 0
  Unanswered settings out =
      out ≡ done (err (closing ErrorCode.frame_unexpected "Unexpected SETTINGS frame"))
  Unanswered k out = (Headers.is_headers k ≡ false) × (out ≡ done (ok dropped))

  -- Headers that were decoded are sent as a request where the channel has room, and else the stream
  -- is stopped.
  abbrev pub Answered : Headers → Reserve → Handled q p stream → Type 0
  Answered hs permit out = out ≡ done (ok (requested (record { stream = stream; headers = hs })))
  Answered hs full out = out ≡ done (ok (rejected (q.stop 0x3994bd84 stream.kind.recv)))
  Answered hs closed out = out ≡ done (ok (rejected (q.stop 0x3994bd84 stream.kind.recv)))

  abbrev pub Decoded : Frame → Reserve → Result Headers ErrorCode → Handled q p stream → Type 0
  Decoded f slot (ok hs) out = Answered hs slot out
  Decoded f slot (err code) out =
      out ≡ done (err (closing code "Error on decoding headers on request"))

  abbrev pub Outcomes : Frame → Reserve → Handled q p stream → Type 0
  Outcomes f slot out =
      ((x : Result Headers ErrorCode) × (f.kind ≡ headers)
        × (Headers.with_frame p f (record { varint = q.send_id stream.kind.send }) ≡ done x)
        × Decoded f slot x out)
      ⊎ Unanswered f.kind out

  slot-Answered : (hs : Headers) (slot : Reserve) → Answered hs slot (with_slot q p stream hs slot)
  unfolding with_slot to_code from_u32 BiRemote.stop_h3 recv_stop
  slot-Answered hs permit = refl
  slot-Answered hs full = refl
  slot-Answered hs closed = refl

  headers-Decoded :
      (f : Frame) (slot : Reserve) (x : Result Headers ErrorCode)
      → Decoded f slot x (with_headers q p stream slot x)
  unfolding with_headers
  headers-Decoded f slot (ok hs) = slot-Answered hs slot
  headers-Decoded f slot (err code) = refl

  kind-Outcomes :
      (f : Frame) (slot : Reserve) (k : FrameKind)
      → f.kind ≡ k
      → is_webtransport k ≡ false
      → ((x : Result Headers ErrorCode) × (k ≡ headers)
          × (Headers.with_frame p f (record { varint = q.send_id stream.kind.send }) ≡ done x)
          × Decoded f slot x (by_kind q p stream f slot k))
        ⊎ Unanswered k (by_kind q p stream f slot k)
  unfolding by_kind BiRemote.id send_stream_id checked_id from_u64_unchecked StreamId.new
  kind-Outcomes f slot data_frame e h = inr (refl, refl)
  kind-Outcomes f slot settings e h = inr refl
  kind-Outcomes f slot (exercise id) e h = inr (refl, refl)
  kind-Outcomes f slot webtransport e h = true-ne-false h
  kind-Outcomes f slot headers e h =
      let (x, decoded) =
        with_frame_total p f (record { varint = q.send_id stream.kind.send }) free e in
      inl (x, refl, decoded, rw (le→leb _ _ low, decoded) (headers-Decoded f slot x))

  -- Where the id of the stream is a varint and QPACK blocks no stream, `handle_new_h3_bi` returns
  -- on every first frame but a WebTransport frame: headers that decode are sent as a request or,
  -- where the channel is full or closed, the stream is stopped; headers that do not decode and a
  -- settings frame end the connection; and on any other frame the stream is dropped.
  pub handle_new_h3_bi_cases :
      (f : Frame) (slot : Reserve)
      → is_webtransport f.kind ≡ false
      → Outcomes f slot (handle_new_h3_bi q p stream f slot)
  unfolding handle_new_h3_bi
  handle_new_h3_bi_cases f slot h = kind-Outcomes f slot f.kind refl h

-- Headers that decode are sent as a request where the channel has room.
pub request_sent :
    (q : Quinn) (p : Qpack) (stream : Stream (TwoWay q) H3) (f : Frame) (hs : Headers)
    → q.send_id stream.kind.send ≤ varint_max
    → f.kind ≡ headers
    → Headers.with_frame p f (record { varint = q.send_id stream.kind.send }) ≡ done (ok hs)
    → handle_new_h3_bi q p stream f permit
      ≡ done (ok (requested (record { stream = stream; headers = hs })))
unfolding handle_new_h3_bi by_kind with_headers with_slot BiRemote.id send_stream_id checked_id
    from_u64_unchecked StreamId.new
request_sent q p stream f hs low k decoded =
    ap (by_kind q p stream f permit) k ∙ rw (le→leb _ _ low, decoded) refl
