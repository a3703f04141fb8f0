-- ===== src/Bytes/Async/Write/Sink.antt =====
-- The contract of `AsyncWrite`: a sink takes one or more of the bytes that it is offered, in order,
-- or keeps the writer waiting, or fails; what it holds grows by what it takes and by nothing else.
use wtransport.Prelude.{
  ℕ, ◌≤◌, ◌<◌, ◌≡◌, ◌⊎◌, List, ◌++◌, Option, some, Result, ok, err, Outcome, done, length, take,
}
use wtransport.Bytes.Async.{IoError, Poll, pending, ready}
use wtransport.Bytes.Async.Write.{AsyncWrite}

module _ {W : Type 0} (written : W → List ℕ) (waits : W → ℕ) where
  abbrev pub Takes : List ℕ → W → Poll (Result ℕ IoError) × W → Type 0
  Takes bs w (pending, w') = (written w' ≡ written w) × (waits w' < waits w)
  Takes bs w (ready (err e), w') = (written w' ≡ written w) × (waits w' ≤ waits w)
  Takes bs w (ready (ok n), w') =
      (0 < n) × (n ≤ length bs) × (written w' ≡ written w ++ take n bs) × (waits w' ≤ waits w)

pub record Sink {W : Type 0} (writer : AsyncWrite W) : Type 0 where
  pub written : W → List ℕ
  pub waits : W → ℕ
  pub poll_write_lem :
      (bs : List ℕ) (w : W)
      → 0 < length bs
      → (out : Poll (Result ℕ IoError) × W) × (writer.poll_write bs w ≡ done out)
        × Takes written waits bs w out

module _ {W : Type 0} {writer : AsyncWrite W} (sink : Sink writer) where
  open sink use {written, waits}

  -- A body that wrote ended, and all the bytes were written, in order; or the sink failed, and as
  -- many of them as it took.
  abbrev pub Sent : {A : Type 0} → W → List ℕ → Outcome (Option (Result A IoError × W)) → Type 0
  Sent {A = A} w bs out =
      (w' : W) × (waits w' ≤ waits w)
      × (((a : A) × (out ≡ done (some (ok a, w'))) × (written w' ≡ written w ++ bs))
          ⊎ ((e : IoError) × (n : ℕ) × (out ≡ done (some (err e, w')))
              × (n ≤ length bs)
              × (written w' ≡ written w ++ take n bs)))
