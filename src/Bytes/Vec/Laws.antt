-- ===== src/Bytes/Vec/Laws.antt =====
-- A vector keeps the writer's contract and is never full: its `expect`s never fail.
use wtransport.Prelude.{
  ℕ, ◌+◌, ◌≤◌, ◌≡◌, refl, ap, ◌∙◌, arith, true, List, ◌++◌, ok, done, length, true-ne-false,
  replicate, length-replicate, take-append_length, drop-append_length, drop_all, append-nil,
}
use wtransport.VarInt.{VarInt, IsVarInt}
use wtransport.VarInt.Size.{size-encode}
use wtransport.Quic.Encoding.{encode}
use wtransport.Quic.Octets.{Octets, OctetsLaws}
use wtransport.Bytes.Writer.{WriterLaws}
use wtransport.Bytes.Buffer
use wtransport.Bytes.Vec.{put_varint, put_bytes, vec_writer}

module _ (o : Octets) (laws : OctetsLaws o) where
  -- A write into as many zeros as the encoding is long fills them.
  fill :
      (v : VarInt)
      → IsVarInt v
      → let zeros = replicate {A = ℕ} (length (encode v)) 0 in
        (w' : o.Writer) × (Buffer.put_varint o v (Buffer.new_writer o zeros) ≡ done (ok tt, w'))
        × (o.buf_mut w' ≡ encode v)
  unfolding Buffer.put_varint Buffer.new_writer
  fill v h =
      let n = length (encode v) in
      let zeros = replicate {A = ℕ} n 0 in
      let w = o.with_slice_mut zeros in
      let room : length (encode v) ≤ o.cap_mut w =
        rw
          (laws.cap_mut_lem w, laws.buf_mut-with_slice_mut zeros, laws.off_mut-with_slice_mut zeros)
          (omega (arith, length-replicate {0} {A = ℕ} n 0)) in
      let (w', put, wrote) = laws.put_varint_fits w v (omega arith) room in
      let start = laws.off_mut-with_slice_mut zeros in
      let whole = laws.buf_mut-with_slice_mut zeros in
      let none_before : 0 + n ≡ n = omega arith in
      (
        w',
        rw put,
        wrote.1
            ∙ rw (start, whole, none_before)
                (ap (λ xs. encode v ++ xs) (rw (length-replicate {A = ℕ} n 0) at (drop_all zeros))
                  ∙ append-nil (encode v)),
      )

  pub vec-put_varint :
      (self : List ℕ) (v : VarInt)
      → IsVarInt v
      → put_varint o v self ≡ done (ok tt, self ++ encode v)
  unfolding put_varint
  vec-put_varint self v h =
      let (sized, _) = size-encode v h in
      let (w', put, filled) = fill v h in
      let zeros = replicate {A = ℕ} (length (encode v)) 0 in
      rw (sized, drop-append_length self zeros, put, take-append_length self zeros, filled)

  pub vec-put_bytes : (self bs : List ℕ) → put_bytes o bs self ≡ done (ok tt, self ++ bs)
  unfolding put_bytes
  vec-put_bytes self bs = refl

  abbrev pub vec-WriterLaws : WriterLaws (vec_writer o)
  vec-WriterLaws = record {
    written = λ w. w;
    fits = λ _ _. true;
    fits_zero = λ _. refl;
    fits_mono = λ _ _ _ _ e. e;
    put_varint_fits = λ w v h _. (w ++ encode v, vec-put_varint w v h, refl, λ _. refl);
    put_varint_full = λ w v h full. true-ne-false full;
    put_bytes_fits = λ w bs _. (w ++ bs, vec-put_bytes w bs, refl, λ _. refl);
    put_bytes_full = λ w bs full. true-ne-false full;
  }
