-- ===== src/Bytes/Slice/Laws.antt =====
-- A slice of bytes keeps the reader's contract: its `expect` never fails.
use wtransport.Prelude.{
  ℕ, suc, ◌/◌, ◌%◌, ◌^◌, ◌≡◌, refl, arith, inl, inr, List, [], ◌∷◌, some, done, leb, leb→le,
  Bool-cases, IsByte, IsBytes, All-drop, length, take, drop, split_at,
}
use wtransport.VarInt.Size.{parse_size_lem}
use wtransport.Quic.Encoding.{decode}
use wtransport.Quic.Encoding.Laws.{decode-take, decode_short}
use wtransport.Quic.Octets.{Octets, OctetsLaws, unread}
use wtransport.Bytes.Reader.{Reads, ReaderLaws}
use wtransport.Bytes.Buffer
use wtransport.Bytes.Buffer.Laws.{buffer-get_varint}
use wtransport.Bytes.Slice.{get_varint, get_bytes, slice_reader}

module _ (o : Octets) (laws : OctetsLaws o) where
  unread-new : (bs : List ℕ) → unread o (Buffer.new o bs) ≡ bs
  unfolding Buffer.new
  unread-new bs = rw (laws.buf-with_slice bs, laws.off-with_slice bs)

  -- The read from the part of the slice that holds the varint.
  pub sub_read :
      (n : ℕ) (bs : List ℕ) (v : ℕ)
      → decode (take n bs) ≡ some (v, [])
      → (r' : o.Reader) × (Buffer.get_varint o (Buffer.new o (take n bs)) ≡ done (some v, r'))
        × (unread o r' ≡ [])
        × (o.buf r' ≡ o.buf (Buffer.new o (take n bs)))
  sub_read n bs v e =
      let r = Buffer.new o (take n bs) in
      rw (unread-new (take n bs), e) at (buffer-get_varint o laws (o.buf r) r refl)

  pub slice-get_varint :
      (bs : List ℕ) → IsBytes bs → Reads IsBytes (λ r. r) bs (get_varint o bs) (decode bs)
  slice-get_varint [] h = unfold get_varint decode in refl
  slice-get_varint (b ∷ bs) h = elim (Bool-cases (leb (2 ^ (b / 64 % 4)) (suc (length bs)))) [
    | inl fits ↦
        let n = 2 ^ (b / 64 % 4) in
        let (v, alone, found) = decode-take b bs (leb→le _ _ fits) in
        let (r', read, _, _) = sub_read n (b ∷ bs) v alone in
        rw found (
          drop n (b ∷ bs),
          unfold get_varint in rw (parse_size_lem b h.0, fits, read),
          refl,
          All-drop IsByte n (b ∷ bs) h,
        )
    | inr short ↦
        rw (decode_short b bs (ground arith))
          (unfold get_varint in rw (parse_size_lem b h.0, short))
  ]

  pub slice-get_bytes :
      (bs : List ℕ) (n : ℕ)
      → IsBytes bs
      → Reads IsBytes (λ r. r) bs (get_bytes o n bs) (split_at n bs)
  unfolding get_bytes
  slice-get_bytes bs n h = elim (Bool-cases (leb n (length bs))) [
    | inl fits ↦ rw fits (drop n bs, refl, refl, All-drop IsByte n bs h)
    | inr short ↦ rw short
  ]

  abbrev pub slice-ReaderLaws : ReaderLaws (slice_reader o)
  slice-ReaderLaws = record {
    Valid = IsBytes;
    unread = λ r. r;
    get_varint_lem = slice-get_varint;
    get_bytes_lem = slice-get_bytes;
  }
