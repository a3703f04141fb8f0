-- ===== src/Session/Confirming.antt =====
-- The loop of `SessionRemoteResponse::confirm`: every frame that it passes over takes bytes off the
-- source, so that a source that ends ends the loop.
use wtransport.Prelude.{
  ℕ, zero, suc, ◌≤◌, ◌<◌, ◌≡◌, refl, ap, arith, List, Option, none, some, Result, ok, err, done,
  length, length-drop, split_at, split_at-cases, Bool-cases, inl, inr, le→leb,
}
use wtransport.VarInt.{varint_max, from_u64_unchecked}
use wtransport.Ids.StreamId
use wtransport.Ids.StreamId.{StreamId}
use wtransport.Quic.Encoding.{decode}
use wtransport.Quic.Encoding.Laws.{decode-some}
use wtransport.Quic.Octets.{Octets, OctetsLaws}
use wtransport.Quic.Qpack.{Qpack, Unblocked}
use wtransport.Quic.Streams.{Quinn}
use wtransport.Bytes.Reader.Decoded.{Decoded, Ensures, Ensures-then, Ensures-weaken}
use wtransport.Bytes.Async.Source.{Source}
use wtransport.Bytes.Async.Chain.Found.{Found}
use wtransport.Frame.{Frame}
use wtransport.Frame as F
use wtransport.Frame.Kind.{
  FrameKind, data_frame, headers, settings, webtransport, exercise, is_webtransport,
}
use wtransport.Frame.Kind
use wtransport.Frame.Wire.{decode_body, decode_frame}
use wtransport.Frame.Async as FrameAsync
use wtransport.Frame.Async.Reading.{read_async-Found}
use wtransport.ErrorCode.{ErrorCode, message}
use wtransport.Headers.{Headers}
use wtransport.Headers.Laws.{with_frame_total}
use wtransport.Session.Validation.{validate_response_iff}
use wtransport.Stream.{Stream, H3, TwoWay, send_stream_id, checked_id}
use wtransport.Stream.BiLocal
use wtransport.Session.{
  Session, SessionError, Answer, by_kind, frame_read, response_decoded, validate_response, closing,
  confirm,
}

-- What follows a body is no longer than the input.
body-Ensures :
    (k : Option FrameKind) (bs : List ℕ)
    → Ensures (λ x rest. length rest ≤ length bs) (decode_body k bs)
unfolding decode_body
body-Ensures none bs = omega arith
body-Ensures (some k) bs = elim (Bool-cases (is_webtransport k)) [
  | inl w ↦ rw w (
      Ensures-then (λ x rest. length rest ≤ length bs) (decode bs) _
        λ v rest e. omega (arith, (decode-some bs e).1))
  | inr w ↦ rw w (
      Ensures-then (λ x rest. length rest ≤ length bs) (decode bs) _
        λ n rest e.
          Ensures-then (λ x rest'. length rest' ≤ length bs) (split_at n rest) _
            λ payload rest' cut.
              let (long, _, left) = split_at-cases n rest cut in
              omega (arith, (decode-some bs e).1, ap length left, length-drop n rest))
]

pub frame-Ensures : (bs : List ℕ) → Ensures (λ x rest. length rest < length bs) (decode_frame bs)
unfolding decode_frame
frame-Ensures bs =
    Ensures-then (λ x rest. length rest < length bs) (decode bs) _
      λ i rest e.
        let shorter = (decode-some bs e).1 in
        Ensures-weaken (λ x rest'. length rest' ≤ length rest) (λ x rest'. length rest' < length bs)
          (decode_body (Kind.parse i) rest) (λ x rest' h. omega arith)
          (body-Ensures (Kind.parse i) rest)

module _ (q : Quinn) (o : Octets) (laws : OctetsLaws o) (p : Qpack) (polls : ℕ)
    (source : Source q.reader) where
  open source use {bytes, ending, waits}

  -- The id of a QUIC stream is a varint.
  pub id_total :
      (s : Stream (TwoWay q) H3)
      → q.send_id s.kind.send ≤ varint_max
      → BiLocal.id q s ≡ done (record { varint = q.send_id s.kind.send })
  unfolding BiLocal.id send_stream_id checked_id from_u64_unchecked StreamId.new
  id_total s h = rw (le→leb _ _ h) refl

  abbrev pub Ended : Answer q o p polls (Session q) → Type 0
  Ended out = (x : Result (Session q) SessionError) × (out ≡ done (some x))

  decoded-Ended :
      (s : Stream (TwoWay q) H3) (x : Result Headers ErrorCode)
      → Ended (response_decoded q o p polls s x)
  unfolding response_decoded validate_response
  decoded-Ended s (err h3code) = (_, refl)
  decoded-Ended s (ok hs) = elim (validate_response_iff hs).1 [
    | inl e ↦ (ok (record { stream = BiLocal.normalize q s }), rw e refl)
    | inr e ↦ (err (closing message "CONNECT refused"), rw e refl)
  ]

  kind-Ended :
      (next : Stream (TwoWay q) H3 → Answer q o p polls (Session q)) (f : Frame)
      (s : Stream (TwoWay q) H3) (k : FrameKind)
      → Unblocked p
      → q.send_id s.kind.send ≤ varint_max
      → f.kind ≡ k
      → Ended (next s)
      → Ended (by_kind q o p polls next f s k)
  unfolding by_kind
  kind-Ended next f s data_frame free low e h = (_, refl)
  kind-Ended next f s settings free low e h = (_, refl)
  kind-Ended next f s webtransport free low e h = (_, refl)
  kind-Ended next f s (exercise i) free low e h = h
  kind-Ended next f s headers free low e h =
      let (x, decoded) = with_frame_total p f (record { varint = q.send_id s.kind.send }) free e in
      rw (id_total s low, decoded) (decoded-Ended s x)

  turn-Ended :
      (fuel : ℕ) (s : Stream (TwoWay q) H3) (d : Decoded (Result Frame F.FrameReadError))
      → Unblocked p
      → q.send_id s.kind.send ≤ varint_max
      → Found source FrameAsync.io FrameAsync.frame s.kind.recv
          (FrameAsync.read_async o q.reader polls s.kind.recv)
          d
      → Ensures (λ x rest. length rest < length (bytes s.kind.recv)) d
      → ((r : q.Recv)
          → length (bytes r) < length (bytes s.kind.recv)
          → waits r ≤ waits s.kind.recv
          → Ended (confirm q o p polls fuel (BiLocal.with_recv q r s)))
      → Ended (confirm q o p polls (suc fuel) s)
  unfolding confirm frame_read BiLocal.read_frame
  turn-Ended fuel s none free low (r', same) h k = rw same (_, refl)
  turn-Ended fuel s (some (err x, rest)) free low (r', same, _, _, _) h k = rw same (_, refl)
  turn-Ended fuel s (some (ok f, rest)) free low (r', same, left, end, time) h k = rw same (
      kind-Ended (confirm q o p polls fuel) f (BiLocal.with_recv q r' s) f.kind free low refl
        (k r' (rw left h) time))

  -- Where the id of the stream is a varint, QPACK blocks no stream, and the source ends and waits
  -- fewer times than it is polled, `confirm` ends with a session or an error, and without a
  -- panic, with more fuel than the source has bytes.
  pub confirm-Ended :
      (fuel : ℕ) (s : Stream (TwoWay q) H3)
      → Unblocked p
      → q.send_id s.kind.send ≤ varint_max
      → waits s.kind.recv < polls
      → length (bytes s.kind.recv) < fuel
      → Ended (confirm q o p polls fuel s)
  confirm-Ended zero s free low enough more = absurd (omega arith)
  confirm-Ended (suc fuel) s free low enough more =
      turn-Ended fuel s (decode_frame (bytes s.kind.recv)) free low
        (read_async-Found o laws source polls s.kind.recv enough)
        (frame-Ensures (bytes s.kind.recv))
        λ r shorter time.
          confirm-Ended fuel (BiLocal.with_recv q r s) free low (omega arith) (omega arith)
