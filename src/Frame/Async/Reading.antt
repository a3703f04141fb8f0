-- ===== src/Frame/Async/Reading.antt =====
-- `Frame::read_async` on a source that ends.
use wtransport.Prelude.{
  ℕ, ◌%◌, ◌≤◌, ◌<◌, refl, ap, arith, inl, inr, some, ok, err, ◌==◌, if◌then◌else◌, length, split_at,
  split_at-cases, length-take_le, Option-cases, Bool-cases, bit_and-one, bit_and-two,
}
use wtransport.VarInt.{VarInt, IsVarInt, varint_max}
use wtransport.Ids.SessionId
use wtransport.Quic.Encoding.{decode}
use wtransport.Quic.Encoding.Laws.{decode-some}
use wtransport.Quic.Octets.{Octets, OctetsLaws}
use wtransport.Bytes.Async.{AsyncRead}
use wtransport.Bytes.Async.Source.{Source}
use wtransport.Bytes.Async.Fill.{get_buffer_async, get_buffer_async-Got}
use wtransport.Bytes.Async.GetVarint.{get_varint_async}
use wtransport.Bytes.Async.GetVarint.Laws.{get_varint_async-Got}
use wtransport.Bytes.Async.Chain.Found.{Found, Found-here, Found-then}
use wtransport.Frame.{invalid_session_id, new_webtransport}
use wtransport.Frame.Kind
use wtransport.Frame.Kind.{FrameKind, is_webtransport}
use wtransport.Frame.Kind.Laws.{IsKind, id-parse}
use wtransport.Frame.Wire.{session_frame, decode_body, decode_frame}
use wtransport.Frame.Reading.{new_payload}
use wtransport.Frame.Async.{frame, io, session_async, kind_async, parsed_async, read_async}

module _ {R : Type 0} {reader : AsyncRead R} (o : Octets) (laws : OctetsLaws o)
    (source : Source reader) (polls : ℕ) where
  open source use {bytes, waits}

  session_async-Found :
      (v : VarInt) (r : R)
      → Found source io frame r
          (session_async o reader polls (SessionId.try_from_varint v) r)
          (some ((if v % 4 == 0 then ok (session_frame v) else err invalid_session_id), bytes r))
  unfolding SessionId.try_from_varint new_webtransport
  session_async-Found v r =
      Found-here source io frame r _
        (if v % 4 == 0 then ok (session_frame v) else err invalid_session_id)
        (ground (arith, bit_and-one v, bit_and-two v))

  kind_async-Found :
      (kind : FrameKind) (r : R)
      → IsKind kind
      → waits r < polls
      → Found source io frame r
          (kind_async o reader polls kind r)
          (decode_body (some kind) (bytes r))
  unfolding decode_body kind_async
  kind_async-Found kind r k enough = elim (Bool-cases (is_webtransport kind)) [
    | inl w ↦ rw w (
        Found-then source io frame r (get_varint_async o reader polls) _ (decode (bytes r)) _
          (get_varint_async-Got o laws source polls r enough)
          λ v r' e time. session_async-Found v r')
    | inr w ↦ rw w (
        Found-then source io frame r (get_varint_async o reader polls) _ (decode (bytes r)) _
          (get_varint_async-Got o laws source polls r enough)
          λ n r' e time.
            Found-then source io frame r' (get_buffer_async reader polls n) _
              (split_at n (bytes r')) _ (get_buffer_async-Got source polls n r' (omega arith))
              λ payload r'' cut time'.
                let (long, taken, _) = split_at-cases n (bytes r') cut in
                let short : length payload ≤ varint_max = omega (
                  arith,
                  (decode-some (bytes r) e).0,
                  ap length taken,
                  length-take_le n (bytes r') long,
                ) in
                (r'', rw (new_payload kind payload k w short), refl, refl, omega arith))
  ]

  parsed_async-Found :
      (i : VarInt) (r : R)
      → IsVarInt i
      → waits r < polls
      → Found source io frame r
          (parsed_async o reader polls (Kind.parse i) r)
          (decode_body (Kind.parse i) (bytes r))
  parsed_async-Found i r low enough = elim (Option-cases (Kind.parse i)) [
    | inl e ↦ rw e (unfold decode_body kind_async in (r, refl, refl, refl, omega arith))
    | inr (kind, e) ↦
        rw e (unfold kind_async in kind_async-Found kind r (id-parse i low e).1 enough)
  ]

  -- From a source that ends, and that waits fewer times than it is polled, `read_async` returns what
  -- the format says of the bytes, a frame or an error, and leaves what follows; where they end too
  -- soon it returns the I/O error of the source.
  pub read_async-Found :
      (r : R)
      → waits r < polls
      → Found source io frame r (read_async o reader polls r) (decode_frame (bytes r))
  unfolding decode_frame read_async
  read_async-Found r enough =
      Found-then source io frame r (get_varint_async o reader polls) _ (decode (bytes r)) _
        (get_varint_async-Got o laws source polls r enough)
        λ i r' e time.
          parsed_async-Found i r' (omega (arith, (decode-some (bytes r) e).0)) (omega arith)
