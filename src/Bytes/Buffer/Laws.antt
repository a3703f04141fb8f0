-- ===== src/Bytes/Buffer/Laws.antt =====
-- `BufferReader` and `BufferWriter` keep the contracts of the two traits, whatever implementation of
-- `octets` they stand on.
use wtransport.Prelude.{
  ℕ, ◌+◌, ◌≤◌, ◌≡◌, sym, ap, ◌∙◌, arith, Bool, true, false, inl, inr, List, ◌++◌, ok, err, done,
  leb, le→leb, leb→le, Option-cases, Bool-cases, length, take, drop, drop-drop, length-drop,
  length-take_le, split_at, length-append_bytes, append_assoc, take-append_length,
}
use wtransport.VarInt.{VarInt, IsVarInt}
use wtransport.VarInt.Size.{from_u64_unchecked_lem}
use wtransport.Quic.Encoding.{encode, decode}
use wtransport.Quic.Encoding.Laws.{decode-some}
use wtransport.Quic.Octets.{Octets, OctetsLaws, unread, Moved, Wrote}
use wtransport.Bytes.Reader.{Reads, ReaderLaws}
use wtransport.Bytes.Writer.{WriterLaws, end_of_buffer}
use wtransport.Bytes.Buffer.{
  buffer_remaining, get_varint, get_bytes, buffer_reader, put_varint, put_bytes, buffer_writer,
}

module _ (o : Octets) (laws : OctetsLaws o) where
  -- A cursor that moved by `n` has the same bytes before it, less the first `n`.
  pub unread-Moved :
      (r : o.Reader) (n : ℕ) (r' : o.Reader) → Moved o r n r' → unread o r' ≡ drop n (unread o r)
  unread-Moved r n r' m = rw (m.0, m.1) (sym (drop-drop n (o.off r) (o.buf r)))

  pub length-unread : (r : o.Reader) → length (unread o r) ≡ o.cap r
  length-unread r = length-drop (o.off r) (o.buf r) ∙ sym (laws.cap_lem r)

  pub buffer_remaining_lem : (r : o.Reader) → buffer_remaining o r ≡ done (unread o r)
  unfolding buffer_remaining
  buffer_remaining_lem r = rw (le→leb _ _ (laws.off-le r))

  -- The buffer that a reader stands on never changes.
  abbrev pub On : List ℕ → o.Reader → Type 0
  On whole r = o.buf r ≡ whole

  -- `get_varint` reads the varint that the unread bytes begin with.
  pub buffer-get_varint :
      (whole : List ℕ) (r : o.Reader)
      → On whole r
      → Reads (On whole) (unread o) r (get_varint o r) (decode (unread o r))
  unfolding get_varint
  buffer-get_varint whole r on = elim (Option-cases (decode (unread o r))) [
    | inl e ↦ rw (e, laws.get_varint_short r e)
    | inr ((v, rest), e) ↦
        let (r', read, moved) = laws.get_varint_fits r v rest e in
        let (low, _, left) = decode-some (unread o r) e in
        rw e (
          r',
          rw (read, from_u64_unchecked_lem v (omega arith)),
          unread-Moved r _ r' moved ∙ sym left,
          moved.0 ∙ on,
        )
  ]

  pub buffer-get_bytes :
      (whole : List ℕ) (r : o.Reader) (n : ℕ)
      → On whole r
      → Reads (On whole) (unread o) r (get_bytes o n r) (split_at n (unread o r))
  unfolding get_bytes
  buffer-get_bytes whole r n on = elim (Bool-cases (leb n (length (unread o r)))) [
    | inl fits ↦
        let (s, r', read, taken, moved) =
          laws.get_bytes_fits r n (omega (arith, leb→le n _ fits, length-unread r)) in
        rw fits (r', rw (read, taken), unread-Moved r n r' moved, moved.0 ∙ on)
    | inr short ↦ rw (short, laws.get_bytes_short r n (ground (arith, length-unread r)))
  ]

  abbrev pub buffer-ReaderLaws : List ℕ → ReaderLaws (buffer_reader o)
  buffer-ReaderLaws whole = record {
    Valid = On whole;
    unread = unread o;
    get_varint_lem = buffer-get_varint whole;
    get_bytes_lem = buffer-get_bytes whole;
  }

  -- What a writer holds so far, and whether `n` bytes more have room.
  abbrev pub written_so_far : o.Writer → List ℕ
  written_so_far w = take (o.off_mut w) (o.buf_mut w)

  abbrev pub has_room : o.Writer → ℕ → Bool
  has_room w n = leb n (o.cap_mut w)

  pub has_room_zero : (w : o.Writer) → has_room w 0 ≡ true
  has_room_zero w = ground arith

  pub has_room_mono : (w : o.Writer) (m n : ℕ) → m ≤ n → has_room w n ≡ true → has_room w m ≡ true
  has_room_mono w m n h e = ground arith

  written-Wrote :
      (w : o.Writer) (bs : List ℕ) (w' : o.Writer)
      → Wrote o w bs w'
      → written_so_far w' ≡ written_so_far w ++ bs
  written-Wrote w bs w' m =
      let front = take (o.off_mut w) (o.buf_mut w) in
      let whole : length (front ++ bs) ≡ o.off_mut w + length bs = omega (
        arith,
        length-append_bytes front bs,
        length-take_le (o.off_mut w) (o.buf_mut w) (laws.off_mut-le w),
      ) in
      rw (m.0, m.1, ← append_assoc, ← whole) (take-append_length (front ++ bs) _)

  has_room-Wrote :
      (w : o.Writer) (bs : List ℕ) (w' : o.Writer)
      → length bs ≤ o.cap_mut w
      → Wrote o w bs w'
      → (n : ℕ) → has_room w' n ≡ has_room w (length bs + n)
  has_room-Wrote w bs w' h m n =
      let front = take (o.off_mut w) (o.buf_mut w) in
      let back = drop (o.off_mut w + length bs) (o.buf_mut w) in
      ground (
        arith,
        laws.cap_mut_lem w,
        laws.cap_mut_lem w',
        laws.off_mut-le w,
        ap length m.1,
        length-append_bytes front (bs ++ back),
        length-append_bytes bs back,
        length-drop (o.off_mut w + length bs) (o.buf_mut w),
        length-take_le (o.off_mut w) (o.buf_mut w) (laws.off_mut-le w),
      )

  -- A put that fits appends its bytes; one that does not fails and leaves the writer as it was.
  pub buffer-put_varint_fits :
      (w : o.Writer) (v : VarInt)
      → IsVarInt v
      → has_room w (length (encode v)) ≡ true
      → (w' : o.Writer) × (put_varint o v w ≡ done (ok tt, w'))
        × (written_so_far w' ≡ written_so_far w ++ encode v)
        × ((n : ℕ) → has_room w' n ≡ has_room w (length (encode v) + n))
  unfolding put_varint
  buffer-put_varint_fits w v h room =
      let le = leb→le _ _ room in
      let (w', put, wrote) = laws.put_varint_fits w v (omega arith) le in
      (w', rw put, written-Wrote w _ w' wrote, has_room-Wrote w _ w' le wrote)

  pub buffer-put_varint_full :
      (w : o.Writer) (v : VarInt)
      → IsVarInt v
      → has_room w (length (encode v)) ≡ false
      → put_varint o v w ≡ done (err end_of_buffer, w)
  unfolding put_varint
  buffer-put_varint_full w v h full = rw (laws.put_varint_short w v (omega arith) (ground arith))

  pub buffer-put_bytes_fits :
      (w : o.Writer) (bs : List ℕ)
      → has_room w (length bs) ≡ true
      → (w' : o.Writer) × (put_bytes o bs w ≡ done (ok tt, w'))
        × (written_so_far w' ≡ written_so_far w ++ bs)
        × ((n : ℕ) → has_room w' n ≡ has_room w (length bs + n))
  unfolding put_bytes
  buffer-put_bytes_fits w bs room =
      let le = leb→le _ _ room in
      let (w', put, wrote) = laws.put_bytes_fits w bs le in
      (w', rw put, written-Wrote w _ w' wrote, has_room-Wrote w _ w' le wrote)

  pub buffer-put_bytes_full :
      (w : o.Writer) (bs : List ℕ)
      → has_room w (length bs) ≡ false
      → put_bytes o bs w ≡ done (err end_of_buffer, w)
  unfolding put_bytes
  buffer-put_bytes_full w bs full = rw (laws.put_bytes_short w bs (ground arith))

  abbrev pub buffer-WriterLaws : WriterLaws (buffer_writer o)
  buffer-WriterLaws = record {
    written = written_so_far;
    fits = has_room;
    fits_zero = has_room_zero;
    fits_mono = has_room_mono;
    put_varint_fits = buffer-put_varint_fits;
    put_varint_full = buffer-put_varint_full;
    put_bytes_fits = buffer-put_bytes_fits;
    put_bytes_full = buffer-put_bytes_full;
  }
