-- ===== src/StreamHeader/Async/Reading.antt =====
-- `StreamHeader::read_async` on a source that ends.
use wtransport.Prelude.{
  ℕ, ◌%◌, ◌<◌, ◌≡◌, refl, sym, arith, true, inl, inr, true-ne-false, some, ok, err, ◌==◌,
  if◌then◌else◌, Option-cases, Bool-cases, bit_and-one, bit_and-two,
}
use wtransport.VarInt.{VarInt, IsVarInt}
use wtransport.Ids.SessionId
use wtransport.Quic.Encoding.{decode}
use wtransport.Quic.Encoding.Laws.{decode-some}
use wtransport.Quic.Octets.{Octets, OctetsLaws}
use wtransport.Bytes.Async.{AsyncRead}
use wtransport.Bytes.Async.Source.{Source}
use wtransport.Bytes.Async.GetVarint.{get_varint_async}
use wtransport.Bytes.Async.GetVarint.Laws.{get_varint_async-Got}
use wtransport.Bytes.Async.Chain.Found.{Found, Found-here, Found-then}
use wtransport.StreamHeader.{invalid_session_id, new}
use wtransport.StreamHeader.Kind
use wtransport.StreamHeader.Kind.{
  StreamKind, control, qpack_encoder, qpack_decoder, webtransport, exercise, is_webtransport,
}
use wtransport.StreamHeader.Kind.Laws.{IsKind, id-parse}
use wtransport.StreamHeader.Wire.{session_header, decode_rest, decode_header}
use wtransport.StreamHeader.Reading.{new_plain}
use wtransport.StreamHeader.Async.{
  stream_header, io, session_async, kind_async, parsed_async, read_async,
}

module _ {R : Type 0} {reader : AsyncRead R} (o : Octets) (laws : OctetsLaws o)
    (source : Source reader) (polls : ℕ) where
  open source use {bytes, waits}

  session_async-Found :
      (kind : StreamKind) (v : VarInt) (r : R)
      → is_webtransport kind ≡ true
      → Found source io stream_header r
          (session_async o reader polls kind (SessionId.try_from_varint v) r)
          (some ((if v % 4 == 0 then ok (session_header v) else err invalid_session_id), bytes r))
  unfolding SessionId.try_from_varint new
  session_async-Found webtransport v r w =
      Found-here source io stream_header r _
        (if v % 4 == 0 then ok (session_header v) else err invalid_session_id)
        (ground (arith, bit_and-one v, bit_and-two v))
  session_async-Found control v r w = true-ne-false (sym w)
  session_async-Found qpack_encoder v r w = true-ne-false (sym w)
  session_async-Found qpack_decoder v r w = true-ne-false (sym w)
  session_async-Found (exercise i) v r w = true-ne-false (sym w)

  kind_async-Found :
      (kind : StreamKind) (r : R)
      → IsKind kind
      → waits r < polls
      → Found source io stream_header r
          (kind_async o reader polls kind r)
          (decode_rest (some kind) (bytes r))
  unfolding decode_rest kind_async
  kind_async-Found kind r k enough = elim (Bool-cases (is_webtransport kind)) [
    | inl w ↦ rw w (
        Found-then source io stream_header r (get_varint_async o reader polls) _ (decode (bytes r))
          _ (get_varint_async-Got o laws source polls r enough)
          λ v r' e time. session_async-Found kind v r' w)
    | inr w ↦ rw w (r, rw (new_plain kind k w), refl, refl, omega arith)
  ]

  parsed_async-Found :
      (i : VarInt) (r : R)
      → IsVarInt i
      → waits r < polls
      → Found source io stream_header r
          (parsed_async o reader polls (Kind.parse i) r)
          (decode_rest (Kind.parse i) (bytes r))
  parsed_async-Found i r low enough = elim (Option-cases (Kind.parse i)) [
    | inl e ↦ rw e (unfold decode_rest kind_async in (r, refl, refl, refl, omega arith))
    | inr (kind, e) ↦
        rw e (unfold kind_async in kind_async-Found kind r (id-parse i low e).1 enough)
  ]

  -- From a source that ends, and that waits fewer times than it is polled, `read_async` returns what
  -- the format says of the bytes, a header or an error, and leaves what follows; where they end too
  -- soon it returns the I/O error of the source.
  pub read_header_async-Found :
      (r : R)
      → waits r < polls
      → Found source io stream_header r (read_async o reader polls r) (decode_header (bytes r))
  unfolding decode_header read_async
  read_header_async-Found r enough =
      Found-then source io stream_header r (get_varint_async o reader polls) _ (decode (bytes r)) _
        (get_varint_async-Got o laws source polls r enough)
        λ i r' e time.
          parsed_async-Found i r' (omega (arith, (decode-some (bytes r) e).0)) (omega arith)
