-- ===== src/Bytes/Async/Write/Chained.antt =====
-- Bodies that write to a sink, one await after another.
use wtransport.Prelude.{
  ℕ, ◌+◌, ◌<◌, ◌≡◌, refl, sym, ap, ◌∙◌, arith, inl, inr, List, [], ◌++◌, append-nil, append_assoc,
  length, length-append_bytes, take, take-append_le, take-add, take-append_length,
  drop-append_length,
}
use wtransport.Bytes.Async.{IoError}
use wtransport.Bytes.Async.Chain.{Async, ◌>>=◌, pure}
use wtransport.Bytes.Async.Write.{AsyncWrite}
use wtransport.Bytes.Async.Write.Sink.{Sink, Sent}

module _ {W : Type 0} {writer : AsyncWrite W} (sink : Sink writer) (polls : ℕ) where
  open sink use {written, waits}

  -- The body ends on every sink that waits fewer times than it is polled, and writes these bytes.
  abbrev pub Sends : {A : Type 0} → Async W IoError A → List ℕ → Type 0
  Sends m bs = (w : W) → waits w < polls → Sent sink w bs (m w)

  pub nothing-Sends : {A : Type 0} (a : A) → Sends (pure a) []
  nothing-Sends a w enough = (w, omega arith, inl (a, refl, sym (append-nil (written w))))

  -- As much of two pieces as the first and a part of the second hold.
  take_into : (xs ys : List ℕ) (n : ℕ) → take (length xs + n) (xs ++ ys) ≡ xs ++ take n ys
  take_into xs ys n =
      take-add (length xs) n (xs ++ ys)
      ∙ rw (take-append_length xs ys, drop-append_length xs ys) refl

  then-Sent :
      {A B : Type 0} (m : Async W IoError A) (f : A → Async W IoError B) (xs ys : List ℕ) (w : W)
      → waits w < polls
      → Sent sink w xs (m w)
      → ((a : A) → Sends (f a) ys)
      → Sent sink w (xs ++ ys) ((m >>= f) w)
  then-Sent m f xs ys w enough (w₁, time, inr (e, n, same, fits, left)) k = (
    w₁,
    time,
    inr (
      e,
      n,
      rw same refl,
      omega (arith, length-append_bytes xs ys),
      left ∙ ap (λ l. written w ++ l) (sym (take-append_le n xs ys fits)),
    ),
  )
  then-Sent m f xs ys w enough (w₁, time, inl (a, same, left)) k = elim (k a w₁ (omega arith)).2 [
    | inl (b, same', left') ↦ (
      (k a w₁ (omega arith)).0,
      omega (arith, (k a w₁ (omega arith)).1),
      inl (b, rw same same', left' ∙ rw left (append_assoc (written w) xs ys)),
    )
    | inr (e, n, same', fits, left') ↦ (
      (k a w₁ (omega arith)).0,
      omega (arith, (k a w₁ (omega arith)).1),
      inr (
        e,
        length xs + n,
        rw same same',
        omega (arith, length-append_bytes xs ys),
        left' ∙ rw (left, take_into xs ys n) (append_assoc (written w) xs (take n ys)),
      ),
    )
  ]

  pub then-Sends :
      {A B : Type 0} (m : Async W IoError A) (f : A → Async W IoError B) (xs ys : List ℕ)
      → Sends m xs
      → ((a : A) → Sends (f a) ys)
      → Sends (m >>= f) (xs ++ ys)
  then-Sends m f xs ys first second w enough = then-Sent m f xs ys w enough (first w enough) second
