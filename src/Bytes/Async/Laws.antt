-- ===== src/Bytes/Async/Laws.antt =====
-- `GetBuffer::poll` loses and reorders no byte, in whichever pieces they come.
use wtransport.Prelude.{
  ℕ, zero, suc, ◌-◌, ◌≤◌, ◌<◌, ◌≡◌, refl, sym, ap, ◌∙◌, arith, inl, inr, Bool-cases, List, [], ◌∷◌,
  ◌++◌, append_assoc, some, done, Result, ok, err, ltb, ltb→lt, length, length-append_bytes,
}
use wtransport.Bytes.Async.{
  IoError, Poll, pending, ready, AsyncRead, GetBuffer, Polled, after_read, poll_loop,
  poll_get_buffer,
}

module _ {R : Type 0} (bytes : R → List ℕ) where
  -- What a read may do to a source that will give `bytes`, with room for `n` of them.
  abbrev pub Gives : ℕ → R → Poll (Result (List ℕ) IoError) × R → Type 0
  Gives n r (pending, r') = bytes r' ≡ bytes r
  Gives n r (ready (err e), r') = bytes r' ≡ bytes r
  Gives n r (ready (ok bs), r') = (length bs ≤ n) × (bytes r ≡ bs ++ bytes r')

  -- `Ready(Ok)` comes with a full buffer only.
  abbrev pub Full : Poll (Result (Unit {0}) IoError) → GetBuffer → Type 0
  Full (ready (ok _)) g = length g.filled ≡ g.size
  Full _ g = Unit {0}

pub record AsyncReadLaws {R : Type 0} (reader : AsyncRead R) : Type 0 where
  pub bytes : R → List ℕ
  pub poll_read_lem :
      (n : ℕ) (r : R)
      → (out : Poll (Result (List ℕ) IoError) × R) × (reader.poll_read n r ≡ done out)
        × Gives bytes n r out

module _ {R : Type 0} (reader : AsyncRead R) (laws : AsyncReadLaws reader) where
  open laws use {bytes, poll_read_lem}

  -- A poll that returned, with nothing lost.
  abbrev pub Keeps : GetBuffer → R → Polled reader → Type 0
  Keeps g r out =
      (p : Poll (Result (Unit {0}) IoError)) × (g' : GetBuffer) × (r' : R) × (out
        ≡ done (some (p, g', r')))
      × (g'.size ≡ g.size)
      × (length g'.filled ≤ g'.size)
      × (g'.filled ++ bytes r' ≡ g.filled ++ bytes r)
      × Full bytes p g'

  after_read-Keeps :
      (n : ℕ) (next : List ℕ → R → Polled reader) (g : GetBuffer) (r : R)
      (out : Poll (Result (List ℕ) IoError) × R)
      → length g.filled ≤ g.size
      → Gives bytes n r out
      → ((bs : List ℕ) (r' : R)
          → 0 < length bs
          → length bs ≤ n
          → bytes r ≡ bs ++ bytes r'
          → Keeps g r (next bs r'))
      → Keeps g r (after_read reader next g out)
  after_read-Keeps n next g r (pending, r') h same k =
      (pending, g, r', refl, refl, h, ap (λ l. g.filled ++ l) same, tt)
  after_read-Keeps n next g r (ready (err e), r') h same k =
      (ready (err e), g, r', refl, refl, h, ap (λ l. g.filled ++ l) same, tt)
  after_read-Keeps n next g r (ready (ok []), r') h (_, same) k =
      (ready (err IoError.closed), g, r', refl, refl, h, ap (λ l. g.filled ++ l) (sym same), tt)
  after_read-Keeps n next g r (ready (ok (b ∷ bs)), r') h (short, same) k =
      k (b ∷ bs) r' (omega arith) short same

  poll_loop-Keeps :
      (fuel : ℕ) (g : GetBuffer) (r : R)
      → g.size - length g.filled < fuel
      → length g.filled ≤ g.size
      → Keeps g r (poll_loop reader fuel g r)
  unfolding poll_loop
  poll_loop-Keeps zero g r enough h = absurd (omega arith)
  poll_loop-Keeps (suc fuel) g r enough h = elim (Bool-cases (ltb (length g.filled) g.size)) [
    | inr full ↦ (ready (ok tt), g, r, rw (full, poll_loop), refl, h, refl, ground arith)
    | inl more ↦
        let room = g.size - length g.filled in
        let left = ltb→lt _ _ more in
        let (out, read, gives) = poll_read_lem room r in
        let next : List ℕ → R → Polled reader =
          λ bs r'. poll_loop reader fuel (record { size = g.size; filled = g.filled ++ bs }) r' in
        let (p, g', r', e, size, short, kept, end) =
          after_read-Keeps room next g r out h gives λ bs r' some_byte fits same.
            let whole = length-append_bytes g.filled bs in
            let (p, g', r'', e, size, short, kept, end) =
              poll_loop-Keeps fuel (record { size = g.size; filled = g.filled ++ bs }) r'
                (omega (arith, whole)) (omega (arith, whole)) in
            (
              p,
              g',
              r'',
              e,
              size,
              short,
              kept ∙ append_assoc g.filled bs (bytes r') ∙ ap (λ l. g.filled ++ l) (sym same),
              end,
            ) in
        (p, g', r', rw (more, read, poll_loop) e, size, short, kept, end)
  ]

  -- On every source that keeps the contract of `AsyncRead`, a poll of `GetBuffer` returns without a
  -- panic, and loses and reorders no byte: what is filled and what the source still gives is together
  -- what it was before. `Ready(Ok)` comes with a full buffer only.
  pub poll_get_buffer-Keeps :
      (g : GetBuffer) (r : R) → length g.filled ≤ g.size → Keeps g r (poll_get_buffer reader g r)
  unfolding poll_get_buffer
  poll_get_buffer-Keeps g r h = poll_loop-Keeps (suc (g.size - length g.filled)) g r (omega arith) h
