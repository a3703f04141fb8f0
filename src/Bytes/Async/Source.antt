-- ===== src/Bytes/Async/Source.antt =====
-- The contract of `AsyncRead` for sources that end: the bytes that such a source will still give, how
-- it ends, and how often it keeps the reader waiting. The end is an error, or a read of no bytes,
-- which the futures turn into `IoError::Closed`.
use wtransport.Prelude.{
  ℕ, ◌≤◌, ◌<◌, ◌≡◌, List, [], ◌∷◌, ◌++◌, IsBytes, Option, none, some, Result, ok, err, Outcome,
  done, length,
}
use wtransport.Bytes.Async.{IoError, Poll, pending, ready, AsyncRead}
use wtransport.Bytes.Reader.Decoded.{Decoded}

module _ {R : Type 0} (bytes : R → List ℕ) (ending : R → IoError) (waits : R → ℕ) where
  -- A read with room for `n` bytes.
  abbrev pub Flows : ℕ → R → Poll (Result (List ℕ) IoError) × R → Type 0
  Flows n r (pending, r') = (bytes r' ≡ bytes r) × (ending r' ≡ ending r) × (waits r' < waits r)
  Flows n r (ready (err e), r') = (bytes r ≡ []) × (e ≡ ending r)
  Flows n r (ready (ok []), r') = (bytes r ≡ []) × (IoError.closed ≡ ending r)
  Flows n r (ready (ok (b ∷ bs)), r') =
      (length (b ∷ bs) ≤ n)
      × (bytes r ≡ (b ∷ bs) ++ bytes r')
      × (ending r' ≡ ending r)
      × (waits r' ≤ waits r)

pub record Source {R : Type 0} (reader : AsyncRead R) : Type 0 where
  pub bytes : R → List ℕ
  pub ending : R → IoError
  pub waits : R → ℕ
  pub bytes-IsBytes : (r : R) → IsBytes (bytes r)
  pub poll_read_lem :
      (n : ℕ) (r : R)
      → 0 < n
      → (out : Poll (Result (List ℕ) IoError) × R) × (reader.poll_read n r ≡ done out)
        × Flows bytes ending waits n r out

-- A future that was awaited.
abbrev pub Awaited : Type 0 → Type 0 → Type 0
Awaited A R = Outcome (Option (Result A IoError × R))

module _ {R : Type 0} {reader : AsyncRead R} (source : Source reader) where
  open source use {bytes, ending, waits}

  -- It found what the decoder finds in the bytes of the source, and the source goes on behind it; or
  -- the bytes are not enough, and it ended as the source did.
  abbrev pub Got : {A : Type 0} → R → Awaited A R → Decoded A → Type 0
  Got r out none = (r' : R) × (out ≡ done (some (err (ending r), r')))
  Got r out (some (a, rest)) =
      (r' : R) × (out ≡ done (some (ok a, r')))
      × (bytes r' ≡ rest)
      × (ending r' ≡ ending r)
      × (waits r' ≤ waits r)
