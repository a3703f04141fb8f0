-- ===== src/Bytes/Async/Await.antt =====
-- `.await` on the futures of `mod async`: a future is polled again each time that it is woken, until
-- it is ready. `none` stands for a future that is still pending after so many polls.
use wtransport.Prelude.{
  ℕ, zero, suc, ◌≤◌, ◌<◌, ◌≡◌, arith, refl, Option, none, some, Result, Outcome, done, bind,
}
use wtransport.Bytes.Async.{IoError, Poll, pending, ready}

-- What a poll returns: with the future and the source after it.
abbrev pub PollOf : Type 0 → Type 0 → Type 0 → Type 0
PollOf A G R = Outcome (Option (Poll (Result A IoError) × G × R))

abbrev pub AwaitOf : Type 0 → Type 0 → Type 0 → Type 0
AwaitOf A G R = Outcome (Option (Result A IoError × G × R))

module _ {A G R : Type 0} where
  abbrev pub woken :
      (G → R → AwaitOf A G R) → Option (Poll (Result A IoError) × G × R) → AwaitOf A G R
  woken next none = done none
  woken next (some (pending, g, r)) = next g r
  woken next (some (ready x, g, r)) = done (some (x, g, r))

  unfoldable pub await : (G → R → PollOf A G R) → ℕ → G → R → AwaitOf A G R
  await poll zero g r = done none
  await poll (suc polls) g r = bind (poll g r) (woken (await poll polls))

module _ {A G R : Type 0} (waits : R → ℕ) (Going : G → R → Type 0)
    (Ready : Result A IoError → G → R → Type 0) where
  -- A poll that is pending keeps `Going` and uses up a wait, one that is ready gives `Ready`.
  abbrev pub Turn : R → Poll (Result A IoError) → G → R → Type 0
  Turn r pending g' r' = Going g' r' × (waits r' < waits r)
  Turn r (ready x) g' r' = Ready x g' r'

  abbrev pub Turns : R → PollOf A G R → Type 0
  Turns r out =
      (p : Poll (Result A IoError)) × (g' : G) × (r' : R) × (out ≡ done (some (p, g', r')))
      × Turn r p g' r'

  abbrev pub Ends : AwaitOf A G R → Type 0
  Ends out =
      (x : Result A IoError) × (g' : G) × (r' : R) × (out ≡ done (some (x, g', r'))) × Ready x g' r'

  -- A wait after a turn is one from before it.
  pub Turns-later :
      (r r' : R) (out : PollOf A G R) → waits r' ≤ waits r → Turns r' out → Turns r out
  Turns-later r r' out h (pending, g, r'', same, (going, fewer)) =
      (pending, g, r'', same, (going, omega arith))
  Turns-later r r' out h (ready x, g, r'', same, goal) = (ready x, g, r'', same, goal)

  woken-Ends :
      (r : R) (p : Poll (Result A IoError)) (g' : G) (r' : R) (next : G → R → AwaitOf A G R)
      → Turn r p g' r'
      → (waits r' < waits r → Going g' r' → Ends (next g' r'))
      → Ends (woken next (some (p, g', r')))
  woken-Ends r pending g' r' next (going, fewer) k = k fewer going
  woken-Ends r (ready x) g' r' next goal k = (x, g', r', refl, goal)

  module _ (poll : G → R → PollOf A G R)
      (step : (g : G) (r : R) → Going g r → Turns r (poll g r)) where
    -- A future over a source that keeps waiting at most so often ends with one poll more.
    pub await-Ends :
        (polls : ℕ) (g : G) (r : R) → waits r < polls → Going g r → Ends (await poll polls g r)
    unfolding await
    await-Ends zero g r enough going = absurd (omega arith)
    await-Ends (suc polls) g r enough going =
        let (p, g', r', e, turn) = step g r going in
        let (x, g'', r'', ended, goal) =
          woken-Ends r p g' r' (await poll polls) turn
            λ fewer going'. await-Ends polls g' r' (omega arith) going' in
        (x, g'', r'', rw e ended, goal)
