-- ===== src/Prelude/Bits.antt =====
-- The masks 1 and 2 of `ids.rs` as arithmetic: what the digits of a number keep under each.
use Prim.Native.Nat.{ℕ, zero, suc, ◌*◌, ◌/◌, ◌%◌, ◌≤◌, min, bit_and, digits, bit_and-bitwise}
use mathlib.Core.Path.{◌≡◌, refl, ◌∙◌}
use native.Mathlib.Omega.{arith}

-- The digits of `a` that the mask keeps, where `a` has no more than `count` of them.
abbrev kept : ℕ → ℕ → ℕ → ℕ
kept mask count a = digits (λ b. zero) min count a mask

kept_none : (count a : ℕ) → kept 0 count a ≡ 0
kept_none zero a = refl
kept_none (suc count) zero = refl
kept_none (suc count) (suc a) = omega (arith, kept_none count (suc a / 2))

kept_lowest : (count a : ℕ) → a ≤ count → kept 1 count a ≡ a % 2
kept_lowest zero zero h = refl
kept_lowest zero (suc a) h = absurd (omega arith)
kept_lowest (suc count) zero h = refl
kept_lowest (suc count) (suc a) h = omega (arith, kept_none count (suc a / 2))

kept_second : (count a : ℕ) → a ≤ count → kept 2 count a ≡ a / 2 % 2 * 2
kept_second zero zero h = refl
kept_second zero (suc a) h = absurd (omega arith)
kept_second (suc count) zero h = refl
kept_second (suc count) (suc a) h = omega (arith, kept_lowest count (suc a / 2) (omega arith))

pub bit_and-one : (a : ℕ) → bit_and a 1 ≡ a % 2
bit_and-one a = bit_and-bitwise a 1 ∙ kept_lowest a a (omega arith)

pub bit_and-two : (a : ℕ) → bit_and a 2 ≡ a / 2 % 2 * 2
bit_and-two a = bit_and-bitwise a 2 ∙ kept_second a a (omega arith)
