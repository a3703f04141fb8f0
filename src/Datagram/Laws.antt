-- ===== src/Datagram/Laws.antt =====
-- `Datagram::read` and `Datagram::write`.
use wtransport.Prelude.{
  ℕ, ◌+◌, ◌^◌, ◌≤◌, ◌<◌, ◌≡◌, ◌⊎◌, leb→le, refl, sym, ap, arith, inl, inr, List, [], ◌++◌, none,
  some, Result, ok, err, done, ltb, lt→ltb, le→not_ltb, leb, le→leb, lt→not_leb, Bool-cases, length,
  length-append_bytes, drop, if◌then◌else◌,
}
use wtransport.VarInt.Size.{size-encode}
use wtransport.ErrorCode.{ErrorCode}
use wtransport.Ids.Laws.{IsQStreamId}
use wtransport.Quic.Encoding.{encode, decode}
use wtransport.Quic.Encoding.Laws.{decode-encode}
use wtransport.Quic.Octets.{Octets, OctetsLaws, unread}
use wtransport.Bytes.Reader.Decoded.{Decoded}
use wtransport.Bytes.Reader.Refines.{Refines, Refines-Reads}
use wtransport.Bytes.Writer.{end_of_buffer}
use wtransport.Bytes.Buffer
use wtransport.Bytes.Buffer.Laws.{buffer-get_varint, buffer_remaining_lem, On}
use wtransport.Bytes.Buffer.Filled.{new_writer-Filled, Wrote-Filled, cap_mut-Filled}
use wtransport.Datagram.{Datagram, write_size, with_varint, read, write}

-- The bytes of a datagram.
unfoldable pub wire : Datagram → List ℕ
wire d = encode d.qstream_id.varint ++ d.payload

-- The format by RFC 9297: a quarter stream id below 2 ^ 60, and all that follows.
abbrev of_decoded : Decoded ℕ → Result Datagram ErrorCode
of_decoded none = err ErrorCode.datagram
of_decoded (some (v, rest)) =
    if ltb v (2 ^ 60)
    then ok (record { qstream_id = record { varint = v }; payload = rest })
    else err ErrorCode.datagram

unfoldable pub decode_datagram : List ℕ → Result Datagram ErrorCode
decode_datagram bs = of_decoded (decode bs)

module _ (o : Octets) (laws : OctetsLaws o) where
  with_varint_lem :
      (v : ℕ) (rest : List ℕ) (r : o.Reader)
      → unread o r ≡ rest
      → with_varint o (some v) r ≡ done (of_decoded (some (v, rest)))
  unfolding read
  with_varint_lem v rest r left = elim (Bool-cases (ltb v (2 ^ 60))) [
    | inl low ↦
        rw (low, le→leb v 1152921504606846975 (ground arith), buffer_remaining_lem o laws r, left)
    | inr high ↦ rw (high, lt→not_leb v 1152921504606846975 (ground arith))
  ]

  read_decoded :
      (bs : List ℕ) (d : Decoded ℕ)
      → Refines (On o laws bs) (unread o) (Buffer.get_varint o (Buffer.new o bs)) d
      → read o bs ≡ done (of_decoded d)
  unfolding read
  read_decoded bs none (r', e, on) = rw e
  read_decoded bs (some (v, rest)) (r', e, left, on) = rw e (with_varint_lem v rest r' left)

  -- On every input `read` returns, and never panics, what the format says: the datagram, or
  -- `H3_DATAGRAM_ERROR` where the id is cut off or too large.
  pub read-decode_datagram : (bs : List ℕ) → read o bs ≡ done (decode_datagram bs)
  unfolding decode_datagram Buffer.new
  read-decode_datagram bs =
      let start : unread o (o.with_slice bs) ≡ bs =
        rw (laws.buf-with_slice bs, laws.off-with_slice bs) in
      let on = laws.buf-with_slice bs in
      read_decoded bs (decode bs) (
        Refines-Reads _ _ (o.with_slice bs) _ (decode bs) on
          (rw start at (buffer-get_varint o laws bs (o.with_slice bs) on)))

-- What was written decodes to the datagram.
pub decode_datagram-wire :
    (d : Datagram) → IsQStreamId d.qstream_id → decode_datagram (wire d) ≡ ok d
unfolding decode_datagram wire
decode_datagram-wire d h =
    rw (decode-encode d.qstream_id.varint d.payload (omega arith), lt→ltb _ _ h)

pub datagram_size-wire :
    (d : Datagram) → IsQStreamId d.qstream_id → write_size d ≡ done (length (wire d))
unfolding write_size wire
datagram_size-wire d h =
    rw (size-encode d.qstream_id.varint (omega arith)).0
      (ap done (sym (length-append_bytes (encode d.qstream_id.varint) d.payload)))

module _ (o : Octets) (laws : OctetsLaws o) where
  pub write_room :
      (d : Datagram) (buffer : List ℕ)
      → IsQStreamId d.qstream_id
      → length (wire d) ≤ length buffer
      → write o d buffer ≡ done (ok (length (wire d)), wire d ++ drop (length (wire d)) buffer)
  unfolding write
  write_room d buffer h room =
      let id = encode d.qstream_id.varint in
      let whole : length (wire d) ≡ length id + length d.payload =
        unfold wire in length-append_bytes id d.payload in
      let w₀ = Buffer.new_writer o buffer in
      let start = new_writer-Filled o laws buffer in
      let cap₀ = cap_mut-Filled o laws buffer w₀ [] (omega arith) start in
      let (w₁, put₁, wrote₁) =
        laws.put_varint_fits w₀ d.qstream_id.varint (omega arith) (omega arith) in
      let one = Wrote-Filled o laws buffer w₀ w₁ [] id start wrote₁ in
      let cap₁ = cap_mut-Filled o laws buffer w₁ id (omega arith) one in
      let (w₂, put₂, wrote₂) = laws.put_bytes_fits w₁ d.payload (omega arith) in
      let two = Wrote-Filled o laws buffer w₁ w₂ id d.payload one wrote₂ in
      rw (datagram_size-wire d h, le→not_ltb _ _ room, put₁, put₂, two.at_end, two.content)
        (unfold wire in refl)

  -- `write` puts the datagram at the start of a buffer that has room for `write_size` bytes, returns
  -- their number and leaves the bytes behind them; a shorter buffer it refuses and leaves as it was.
  pub write_datagram_cases :
      (d : Datagram) (buffer : List ℕ)
      → IsQStreamId d.qstream_id
      → ((length (wire d) ≤ length buffer)
          × (write o d buffer
              ≡ done (ok (length (wire d)), wire d ++ drop (length (wire d)) buffer)))
        ⊎ ((length buffer < length (wire d))
            × (write o d buffer ≡ done (err end_of_buffer, buffer)))
  write_datagram_cases d buffer h = elim (Bool-cases (leb (length (wire d)) (length buffer))) [
    | inl fits ↦ let room = leb→le _ _ fits in inl (room, write_room d buffer h room)
    | inr full ↦
        let short : length buffer < length (wire d) = ground arith in
        inr (short, unfold write in rw (datagram_size-wire d h, lt→ltb _ _ short))
  ]
