-- ===== src/Quic/Encoding/Laws.antt =====
-- The encoding is a prefix code: `decode` reads back what `encode` wrote and leaves what follows.
use wtransport.Prelude.{
  ℕ, zero, suc, ◌+◌, ◌-◌, ◌*◌, ◌/◌, ◌%◌, ◌^◌, ◌≤◌, ◌<◌, ◌≡◌, refl, sym, ap, ◌∙◌, inl, inr, List, [],
  ◌∷◌, ◌++◌, Option, none, some, arith, ltb, le→leb, lt→not_leb, if◌then◌else◌, length, take, drop,
  take-append_length, drop-append_length, take-append_le, drop-append_le, IsByte, IsBytes,
  All-append, Bool-cases, length-append_bytes, length-drop, length-take_le, take-append-drop,
  Option-cases, append-nil,
}
use native.Mathlib.Nat.{pow-suc}
use wtransport.Quic.Encoding.{big_endian, of_big_endian, encode, decode_length, decode}

of_big_endian-append :
    (acc : ℕ) (xs ys : List ℕ)
    → of_big_endian acc (xs ++ ys) ≡ of_big_endian (of_big_endian acc xs) ys
unfolding of_big_endian
of_big_endian-append acc [] ys = refl
of_big_endian-append acc (x ∷ xs) ys = of_big_endian-append (acc * 256 + x) xs ys

of_big_endian-big_endian : (n v : ℕ) → v < 256 ^ n → of_big_endian 0 (big_endian n v) ≡ v
unfolding of_big_endian big_endian
of_big_endian-big_endian zero v h = omega arith
of_big_endian-big_endian (suc n) v h =
    of_big_endian-append 0 (big_endian n (v / 256)) ((v % 256) ∷ [])
    ∙ omega (arith, of_big_endian-big_endian n (v / 256) (omega (arith, pow-suc 256 n)))

length-big_endian : (n v : ℕ) → length (big_endian n v) ≡ n
unfolding big_endian
length-big_endian zero v = refl
length-big_endian (suc n) v = omega (
  arith,
  length-append_bytes (big_endian n (v / 256)) ((v % 256) ∷ []),
  length-big_endian n (v / 256),
)

big_endian-IsBytes : (n v : ℕ) → IsBytes (big_endian n v)
unfolding big_endian
big_endian-IsBytes zero v = tt
big_endian-IsBytes (suc n) v =
    All-append IsByte (big_endian n (v / 256)) _ (big_endian-IsBytes n (v / 256)) (omega arith, tt)

decode_length-append :
    (n : ℕ) (xs rest : List ℕ)
    → length xs ≡ n
    → decode_length n (xs ++ rest) ≡ some (of_big_endian 0 xs % 2 ^ (8 * n - 2), rest)
unfolding decode_length
decode_length-append n xs rest h = rw (
  ← h,
  le→leb (length xs) (length (xs ++ rest)) (omega (arith, length-append_bytes xs rest)),
  take-append_length xs rest,
  drop-append_length xs rest,
)

decode-cons : (b : ℕ) (bs : List ℕ) → decode (b ∷ bs) ≡ decode_length (2 ^ (b / 64 % 4)) (b ∷ bs)
unfolding decode
decode-cons b bs = refl

-- One of the four forms: the first of the `2 ^ t` bytes of `x` holds `t` in its two top bits.
decode_form :
    (t x b : ℕ) (bs rest : List ℕ)
    → big_endian (2 ^ t) x ≡ b ∷ bs
    → b / 64 % 4 ≡ t
    → x < 256 ^ (2 ^ t)
    → decode (b ∷ bs ++ rest) ≡ some (x % 2 ^ (8 * 2 ^ t - 2), rest)
decode_form t x b bs rest e tag h =
    decode-cons b (bs ++ rest)
    ∙ rw tag (
        decode_length-append (2 ^ t) (b ∷ bs) rest (rw e at (length-big_endian (2 ^ t) x))
        ∙ rw (rw e at (of_big_endian-big_endian (2 ^ t) x h)))

some_fst :
    {u v : ℕ} {rest : List ℕ}
    → u ≡ v
    → ◌≡◌ {A = Option (ℕ × List ℕ)} (some (u, rest)) (some (v, rest))
some_fst e = rw e

-- `decode` reads a value below 2 ^ 62 back, and leaves whatever follows it.
pub decode-encode :
    (v : ℕ) (rest : List ℕ) → v < 2 ^ 62 → decode (encode v ++ rest) ≡ some (v, rest)
unfolding encode
decode-encode v rest h = elim (Bool-cases (ltb v (2 ^ 6))) [
  | inl p ↦
      rw p (decode_form 0 v _ _ rest refl (ground arith) (ground arith) ∙ some_fst (ground arith))
  | inr p ↦ rw p (elim (Bool-cases (ltb v (2 ^ 14))) [
    | inl q ↦ rw q (
        decode_form 1 (v + 1 * 2 ^ 14) _ _ rest refl (ground arith) (ground arith)
        ∙ some_fst (ground arith))
    | inr q ↦ rw q (elim (Bool-cases (ltb v (2 ^ 30))) [
      | inl r ↦ rw r (
          decode_form 2 (v + 2 * 2 ^ 30) _ _ rest refl (ground arith) (ground arith)
          ∙ some_fst (ground arith))
      | inr r ↦ rw r (
          decode_form 3 (v + 3 * 2 ^ 62) _ _ rest refl (ground arith) (ground arith)
          ∙ some_fst (ground arith))
    ])
  ])
]

-- The length of the encoding, and its bytes.
pub length-encode :
    (v : ℕ)
    → length (encode v)
      ≡ (if ltb v (2 ^ 6) then 1 else if ltb v (2 ^ 14) then 2 else if ltb v (2 ^ 30) then 4 else 8)
unfolding encode
length-encode v = ground arith

pub encode-IsBytes : (v : ℕ) → IsBytes (encode v)
unfolding encode
encode-IsBytes v = ground arith

decode_length-cases :
    (n : ℕ) (bs : List ℕ) {v : ℕ} {rest : List ℕ}
    → decode_length n bs ≡ some (v, rest)
    → (n ≤ length bs) × (v ≡ of_big_endian 0 (take n bs) % 2 ^ (8 * n - 2)) × (rest ≡ drop n bs)
unfolding decode_length
decode_length-cases n bs e = ground arith

usable_bits : (t x : ℕ) → t < 4 → x % 2 ^ (8 * 2 ^ t - 2) < 2 ^ 62
usable_bits zero x h = omega arith
usable_bits (suc zero) x h = omega arith
usable_bits (suc (suc zero)) x h = omega arith
usable_bits (suc (suc (suc zero))) x h = omega arith
usable_bits (suc (suc (suc (suc t)))) x h = absurd (omega arith)

-- A value that `decode` returns is below 2 ^ 62, and the rest is the input without as many bytes as
-- the first one says.
pub decode-cases :
    (b : ℕ) (bs : List ℕ) {v : ℕ} {rest : List ℕ}
    → decode (b ∷ bs) ≡ some (v, rest)
    → let n = 2 ^ (b / 64 % 4) in (v < 2 ^ 62) × (n ≤ suc (length bs)) × (rest ≡ drop n (b ∷ bs))
decode-cases b bs e =
    let (long, value, rest) = decode_length-cases _ (b ∷ bs) (sym (decode-cons b bs) ∙ e) in
    (rw value (usable_bits (b / 64 % 4) _ (omega arith)), long, rest)

decode_length-append_some :
    (n : ℕ) (bs more : List ℕ) {v : ℕ} {rest : List ℕ}
    → decode_length n bs ≡ some (v, rest)
    → decode_length n (bs ++ more) ≡ some (v, rest ++ more)
decode_length-append_some n bs more e =
    let (long, value, rest) = decode_length-cases n bs e in
    unfold decode_length in
    rw (
      le→leb n (length (bs ++ more)) (omega (arith, length-append_bytes bs more)),
      take-append_le n bs more long,
      drop-append_le n bs more long,
      value,
      rest,
    )

pub two_pow_pos : (t : ℕ) → 1 ≤ 2 ^ t
two_pow_pos zero = omega arith
two_pow_pos (suc t) = omega (arith, pow-suc 2 t, two_pow_pos t)

-- The same of any input, with the number of bytes read off the lengths.
pub decode-some :
    (bs : List ℕ) {v : ℕ} {rest : List ℕ}
    → decode bs ≡ some (v, rest)
    → (v < 2 ^ 62) × (length rest < length bs) × (rest ≡ drop (length bs - length rest) bs)
decode-some [] e = unfold decode in cc
decode-some (b ∷ bs) {v} {rest} e =
    let n = 2 ^ (b / 64 % 4) in
    let (low, long, left) = decode-cases b bs e in
    let size : length rest ≡ suc (length bs) - n = ap length left ∙ length-drop n (b ∷ bs) in
    let same : suc (length bs) - length rest ≡ n = omega arith in
    (low, omega (arith, two_pow_pos (b / 64 % 4)), rw same left)

-- `decode` does not look past the integer.
pub decode-append :
    (bs more : List ℕ) {v : ℕ} {rest : List ℕ}
    → decode bs ≡ some (v, rest)
    → decode (bs ++ more) ≡ some (v, rest ++ more)
decode-append [] more e = unfold decode in cc
decode-append (b ∷ bs) more e =
    decode-cons b (bs ++ more)
    ∙ decode_length-append_some _ (b ∷ bs) more (sym (decode-cons b bs) ∙ e)

-- A proper prefix of an encoding is too short to decode.
pub decode-prefix :
    (v x : ℕ) (front back : List ℕ)
    → v < 2 ^ 62
    → encode v ≡ front ++ x ∷ back
    → decode front ≡ none
decode-prefix v x front back h e = elim (Option-cases (decode front)) [
  | inl short ↦ short
  | inr ((u, rest), found) ↦ ground (
    arith,
    decode-append front (x ∷ back) found,
    rw (append-nil, e) at (decode-encode v [] h),
    length-append_bytes rest (x ∷ back),
  )
]

decode-take_head :
    (m b : ℕ) (bs : List ℕ)
    → 1 ≤ m
    → decode (take m (b ∷ bs)) ≡ decode_length (2 ^ (b / 64 % 4)) (take m (b ∷ bs))
decode-take_head zero b bs h = absurd (omega arith)
decode-take_head (suc m) b bs h = decode-cons b (take m bs)

-- The bytes that the first one asks for are all that `decode` reads.
pub decode-take :
    (b : ℕ) (bs : List ℕ)
    → let n = 2 ^ (b / 64 % 4) in
      n ≤ suc (length bs)
      → (v : ℕ) × (decode (take n (b ∷ bs)) ≡ some (v, []))
        × (decode (b ∷ bs) ≡ some (v, drop n (b ∷ bs)))
decode-take b bs h =
    let n = 2 ^ (b / 64 % 4) in
    let front = take n (b ∷ bs) in
    let full : length front ≡ n = length-take_le n (b ∷ bs) h in
    (
      of_big_endian 0 front % 2 ^ (8 * n - 2),
      decode-take_head n b bs (two_pow_pos (b / 64 % 4))
          ∙ rw append-nil at (decode_length-append n front [] full),
      decode-cons b bs
          ∙ rw (take-append-drop n (b ∷ bs)) at
              (decode_length-append n front (drop n (b ∷ bs)) full),
    )

pub decode_short :
    (b : ℕ) (bs : List ℕ) → suc (length bs) < 2 ^ (b / 64 % 4) → decode (b ∷ bs) ≡ none
unfolding decode
decode_short b bs h = rw (lt→not_leb (2 ^ (b / 64 % 4)) (suc (length bs)) h)
