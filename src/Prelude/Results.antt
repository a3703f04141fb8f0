-- ===== src/Prelude/Results.antt =====
-- How a Rust call ends: it returns, or it panics. `Result` is Rust's type of that name.
use mathlib.Core.Path.{◌≡◌, refl}
use mathlib.Core.Bool.{Bool, true, false}
use mathlib.Core.Option.{Option, none, some}

pub data Result {ℓ κ} (A : Type ℓ) (E : Type κ) : Type (ℓ ⊔ κ) where
  ok : A → Result A E
  err : E → Result A E

pub data Outcome {ℓ} (A : Type ℓ) : Type ℓ where
  done : A → Outcome A
  panic : Outcome A

abbrev pub bind {ℓ κ} : {A : Type ℓ} {B : Type κ} → Outcome A → (A → Outcome B) → Outcome B
bind (done a) f = f a
bind panic f = panic

-- `assert!`, and `debug_assert!` in a build that has the debug assertions.
abbrev pub assert : Bool → Outcome (Unit {0})
assert true = done tt
assert false = panic

-- `Option::expect` and `Result::expect`.
abbrev pub expect {ℓ} : {A : Type ℓ} → Option A → Outcome A
expect (some a) = done a
expect none = panic

abbrev pub expect_ok {ℓ κ} : {A : Type ℓ} {E : Type κ} → Result A E → Outcome A
expect_ok (ok a) = done a
expect_ok (err e) = panic

pub bind-eq-done {ℓ κ} :
    {A : Type ℓ} {B : Type κ} (m : Outcome A) (f : A → Outcome B) {b : B}
    → bind m f ≡ done b
    → (a : A) × (m ≡ done a) × (f a ≡ done b)
bind-eq-done (done a) f h = (a, refl, h)
bind-eq-done panic f h = cc
