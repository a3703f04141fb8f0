-- ===== src/Quic/Streams/Tokio.antt =====
-- The poll functions of `tokio` that the streams of the `quinn` crate have.
use wtransport.Prelude.{
  Bool, ℕ, ◌≤◌, ◌<◌, ◌≡◌, List, [], ◌∷◌, ◌++◌, IsBytes, Result, ok, err, length, take,
}
use wtransport.Bytes.Async.{Poll, pending, ready, IoErrorKind}

pub record Tokio : Type 1 where
  pub Send : Type 0
  pub Recv : Type 0
  -- With the room of the `ReadBuf`: the bytes that were filled.
  pub poll_read : ℕ → Recv → Poll (Result (List ℕ) IoErrorKind) × Recv
  pub poll_write : List ℕ → Send → Poll (Result ℕ IoErrorKind) × Send
  pub poll_flush : Send → Poll (Result (Unit {0}) IoErrorKind) × Send
  pub poll_shutdown : Send → Poll (Result (Unit {0}) IoErrorKind) × Send
  pub poll_write_vectored : List (List ℕ) → Send → Poll (Result ℕ IoErrorKind) × Send
  pub is_write_vectored : Send → Bool

module _ (t : Tokio) (bytes : t.Recv → List ℕ) (ending : t.Recv → IoErrorKind)
    (waits : t.Recv → ℕ) where
  -- A read with room for `n` bytes of a stream that ends by an error or by its end.
  abbrev pub Reads : ℕ → t.Recv → Poll (Result (List ℕ) IoErrorKind) × t.Recv → Type 0
  Reads n r (pending, r') = (bytes r' ≡ bytes r) × (ending r' ≡ ending r) × (waits r' < waits r)
  Reads n r (ready (err k), r') = (bytes r ≡ []) × (k ≡ ending r)
  Reads n r (ready (ok []), r') = (bytes r ≡ []) × (IoErrorKind.other ≡ ending r)
  Reads n r (ready (ok (b ∷ bs)), r') =
      (length (b ∷ bs) ≤ n)
      × (bytes r ≡ (b ∷ bs) ++ bytes r')
      × (ending r' ≡ ending r)
      × (waits r' ≤ waits r)

module _ (t : Tokio) (written : t.Send → List ℕ) (waits : t.Send → ℕ) where
  -- A write of bytes that are not empty takes one or more of them, or none.
  abbrev pub Writes : List ℕ → t.Send → Poll (Result ℕ IoErrorKind) × t.Send → Type 0
  Writes bs w (pending, w') = (written w' ≡ written w) × (waits w' < waits w)
  Writes bs w (ready (err k), w') = (written w' ≡ written w) × (waits w' ≤ waits w)
  Writes bs w (ready (ok n), w') =
      (0 < n) × (n ≤ length bs) × (written w' ≡ written w ++ take n bs) × (waits w' ≤ waits w)

-- A connection's streams deliver bytes in order, and a poll that waits is made a number of times.
pub record TokioLaws (t : Tokio) : Type 0 where
  pub bytes : t.Recv → List ℕ
  pub ending : t.Recv → IoErrorKind
  pub read_waits : t.Recv → ℕ
  pub bytes-IsBytes : (r : t.Recv) → IsBytes (bytes r)
  pub poll_read_lem :
      (n : ℕ) (r : t.Recv) → 0 < n → Reads t bytes ending read_waits n r (t.poll_read n r)
  pub written : t.Send → List ℕ
  pub write_waits : t.Send → ℕ
  pub poll_write_lem :
      (bs : List ℕ) (w : t.Send)
      → 0 < length bs
      → Writes t written write_waits bs w (t.poll_write bs w)
