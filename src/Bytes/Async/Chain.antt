-- ===== src/Bytes/Async/Chain.antt =====
-- Bodies of `async fn`s over a source: each `.await` may leave the whole body pending, and each `?`
-- converts the error of the future that was awaited.
pub mod Found
use wtransport.Prelude.{Option, none, some, Result, ok, err, Outcome, done, bind}

-- `none` stands for a body that is still pending.
abbrev pub Async : Type 0 → Type 0 → Type 0 → Type 0
Async S E A = S → Outcome (Option (Result A E × S))

module _ {S E : Type 0} where
  abbrev pub pure : {A : Type 0} → A → Async S E A
  pure a s = done (some (ok a, s))

  abbrev pub fail : {A : Type 0} → E → Async S E A
  fail e s = done (some (err e, s))

  -- A computation that may panic and does no I/O.
  abbrev pub lift : {A : Type 0} → Outcome A → Async S E A
  lift m s = bind m λ a. done (some (ok a, s))

  abbrev pub continue :
      {A B : Type 0}
      → (A → Async S E B)
      → Option (Result A E × S)
      → Outcome (Option (Result B E × S))
  continue f none = done none
  continue f (some (err e, s)) = done (some (err e, s))
  continue f (some (ok a, s)) = f a s

  infixl 5 ◌>>=◌
  abbrev pub ◌>>=◌ : {A B : Type 0} → Async S E A → (A → Async S E B) → Async S E B
  ◌>>=◌ m f s = bind (m s) (continue f)

  -- `?` on a future with errors of another type.
  abbrev pub converted_error :
      {A D : Type 0} → (D → E) → Option (Result A D × S) → Option (Result A E × S)
  converted_error from none = none
  converted_error from (some (err d, s)) = some (err (from d), s)
  converted_error from (some (ok a, s)) = some (ok a, s)

  abbrev pub converted : {A D : Type 0} → (D → E) → Async S D A → Async S E A
  converted from m s = bind (m s) λ out. done (converted_error from out)
