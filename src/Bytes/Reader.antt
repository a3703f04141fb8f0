-- ===== src/Bytes/Reader.antt =====
-- wtransport-proto/src/bytes.rs: the trait `BytesReader`, and the chains of reads by `?` that its
-- users are. `ReaderLaws` is the contract of the trait: it says by what the implementations read.
pub mod Decoded
pub mod Refines
use wtransport.Prelude.{ℕ, ◌≡◌, List, Option, none, some, Outcome, done, bind, split_at}
use wtransport.VarInt.{VarInt}
use wtransport.Quic.Encoding.{decode}

-- A read returns what it found, `none` where the source is too short, with the source after it.
abbrev pub Read : Type 0 → Type 0 → Type 0
Read R A = R → Outcome (Option A × R)

pub record BytesReader (R : Type 0) : Type 0 where
  pub get_varint : Read R VarInt
  pub get_bytes : ℕ → Read R (List ℕ)

module _ {R : Type 0} where
  abbrev pub pure : {A : Type 0} → A → Read R A
  pure a r = done (some a, r)

  -- A computation that may panic and reads nothing.
  abbrev pub lift : {A : Type 0} → Outcome A → Read R A
  lift m r = bind m λ a. done (some a, r)

  abbrev pub continue : {A B : Type 0} → (A → Read R B) → Option A × R → Outcome (Option B × R)
  continue f (none, r) = done (none, r)
  continue f (some a, r) = f a r

  infixl 5 ◌>>=◌
  abbrev pub ◌>>=◌ : {A B : Type 0} → Read R A → (A → Read R B) → Read R B
  ◌>>=◌ m f r = bind (m r) (continue f)

  -- The read `o` of the source `r` found what its bytes say, and left the rest of them.
  abbrev pub Reads :
      {A : Type 0}
      → (R → Type 0)
      → (R → List ℕ)
      → R
      → Outcome (Option A × R)
      → Option (A × List ℕ)
      → Type 0
  Reads Valid unread r o none = o ≡ done (none, r)
  Reads Valid unread r o (some (a, rest)) =
      (r' : R) × (o ≡ done (some a, r')) × (unread r' ≡ rest) × Valid r'

  pub record ReaderLaws (reader : BytesReader R) : Type 1 where
    -- a condition on the source that reading keeps
    pub Valid : R → Type 0
    pub unread : R → List ℕ
    pub get_varint_lem :
        (r : R) → Valid r → Reads Valid unread r (reader.get_varint r) (decode (unread r))
    pub get_bytes_lem :
        (r : R) (n : ℕ)
        → Valid r
        → Reads Valid unread r (reader.get_bytes n r) (split_at n (unread r))
