-- ===== src/Bytes/Reader/Decoded.antt =====
-- Decoders of byte lists, the references for readers: chains of them, postconditions, and more input.
use wtransport.Prelude.{
  ℕ, ◌≡◌, refl, List, ◌++◌, Option, none, some, split_at, split_at-append_some,
}
use wtransport.Quic.Encoding.{decode}
use wtransport.Quic.Encoding.Laws.{decode-append}

-- A decoder answers `none` where the input ends too soon.
abbrev pub Decoded : Type 0 → Type 0
Decoded A = Option (A × List ℕ)

abbrev pub decode_then : {A B : Type 0} → Decoded A → (A → List ℕ → Decoded B) → Decoded B
decode_then none f = none
decode_then (some (a, rest)) f = f a rest

-- If the decoder finds something, `P` holds of it and of what is left.
abbrev pub Ensures : {A : Type 0} → (A → List ℕ → Type 0) → Decoded A → Type 0
Ensures P none = Unit {0}
Ensures P (some (a, rest)) = P a rest

pub Ensures-then :
    {A B : Type 0} (P : B → List ℕ → Type 0) (d : Decoded A) (g : A → List ℕ → Decoded B)
    → ((a : A) (rest : List ℕ) → d ≡ some (a, rest) → Ensures P (g a rest))
    → Ensures P (decode_then d g)
Ensures-then P none g k = tt
Ensures-then P (some (a, rest)) g k = k a rest refl

pub Ensures-weaken :
    {A : Type 0} (P Q : A → List ℕ → Type 0) (d : Decoded A)
    → ((a : A) (rest : List ℕ) → P a rest → Q a rest)
    → Ensures P d
    → Ensures Q d
Ensures-weaken P Q none k h = tt
Ensures-weaken P Q (some (a, rest)) k h = k a rest h

-- What the decoder finds, it finds with more input too, and leaves that.
abbrev pub Grows : {A : Type 0} → List ℕ → Decoded A → Decoded A → Type 0
Grows more none d' = Unit {0}
Grows more (some (a, rest)) d' = d' ≡ some (a, rest ++ more)

pub Grows-then :
    {A B : Type 0} (more : List ℕ) (d d' : Decoded A) (g : A → List ℕ → Decoded B)
    → Grows more d d'
    → ((a : A) (rest : List ℕ) → Grows more (g a rest) (g a (rest ++ more)))
    → Grows more (decode_then d g) (decode_then d' g)
Grows-then more none d' g h k = tt
Grows-then more (some (a, rest)) d' g h k = rw h (k a rest)

pub Grows-of :
    {A : Type 0} (more : List ℕ) (d d' : Decoded A)
    → ((a : A) (rest : List ℕ) → d ≡ some (a, rest) → d' ≡ some (a, rest ++ more))
    → Grows more d d'
Grows-of more none d' k = tt
Grows-of more (some (a, rest)) d' k = k a rest refl

pub Grows-some :
    {A : Type 0} (more : List ℕ) (d d' : Decoded A) {a : A} {rest : List ℕ}
    → Grows more d d'
    → d ≡ some (a, rest)
    → d' ≡ some (a, rest ++ more)
Grows-some more none d' h e = cc
Grows-some more (some (a, rest)) d' h e = cc

pub decode-Grows : (bs more : List ℕ) → Grows more (decode bs) (decode (bs ++ more))
decode-Grows bs more = Grows-of more (decode bs) _ λ v rest e. decode-append bs more e

pub split_at-Grows :
    (n : ℕ) (bs more : List ℕ) → Grows more (split_at n bs) (split_at n (bs ++ more))
split_at-Grows n bs more =
    Grows-of more (split_at n bs) _ λ front back e. split_at-append_some n bs more e
