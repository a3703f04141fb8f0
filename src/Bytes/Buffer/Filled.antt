-- ===== src/Bytes/Buffer/Filled.antt =====
-- A writer that began on a buffer of the caller: what it wrote stands first, the rest is untouched.
use wtransport.Prelude.{
  ℕ, ◌+◌, ◌-◌, ◌≤◌, ◌≡◌, sym, ap, ◌∙◌, arith, List, [], ◌++◌, append_assoc, length,
  length-append_bytes, length-drop, drop, drop-drop, take-append_length, drop-append_length,
}
use wtransport.Quic.Octets.{Octets, OctetsLaws, Wrote}
use wtransport.Bytes.Buffer.{new_writer}

module _ (o : Octets) (laws : OctetsLaws o) (buffer : List ℕ) where
  pub record Filled (w : o.Writer) (bs : List ℕ) : Type 0 where
    pub at_end : o.off_mut w ≡ length bs
    pub content : o.buf_mut w ≡ bs ++ drop (length bs) buffer

  pub new_writer-Filled : Filled (new_writer o buffer) []
  unfolding new_writer
  new_writer-Filled = record {
    at_end = laws.off_mut-with_slice_mut buffer;
    content = laws.buf_mut-with_slice_mut buffer;
  }

  -- What a write behind `xs` keeps of the buffer.
  behind :
      (xs ys : List ℕ)
      → drop (length xs + length ys) (xs ++ drop (length xs) buffer)
        ≡ drop (length (xs ++ ys)) buffer
  behind xs ys =
      sym (drop-drop (length ys) (length xs) (xs ++ drop (length xs) buffer))
      ∙ ap (drop (length ys)) (drop-append_length xs (drop (length xs) buffer))
      ∙ drop-drop (length ys) (length xs) buffer
      ∙ ap (λ n. drop n buffer) (sym (length-append_bytes xs ys))

  pub Wrote-Filled :
      (w w' : o.Writer) (xs ys : List ℕ) → Filled w xs → Wrote o w ys w' → Filled w' (xs ++ ys)
  Wrote-Filled w w' xs ys f m = record {
    at_end = omega (arith, length-append_bytes xs ys, f.at_end, m.0);
    content =
        m.1
        ∙ rw (f.at_end, f.content, take-append_length xs (drop (length xs) buffer), behind xs ys)
            (sym (append_assoc xs ys _));
  }

  -- The room that is left.
  pub cap_mut-Filled :
      (w : o.Writer) (xs : List ℕ)
      → length xs ≤ length buffer
      → Filled w xs
      → o.cap_mut w ≡ length buffer - length xs
  cap_mut-Filled w xs h f = omega (
    arith,
    laws.cap_mut_lem w,
    f.at_end,
    ap length f.content,
    length-append_bytes xs (drop (length xs) buffer),
    length-drop (length xs) buffer,
  )
