-- ===== src/Bytes/Reader/Refines.antt =====
-- A reader against a decoder of byte lists: it finds what the decoder finds in its unread bytes,
-- leaves what the decoder leaves, and never panics. Where the bytes end too soon the reader may have
-- moved.
use wtransport.Prelude.{ℕ, ◌≡◌, List, Option, none, some, Outcome, done}
use wtransport.Bytes.Reader.Decoded.{Decoded, decode_then}
use wtransport.Bytes.Reader.{Read, Reads, ◌>>=◌}

module _ {R : Type 0} (Valid : R → Type 0) (unread : R → List ℕ) where
  abbrev pub Refines : {A : Type 0} → Outcome (Option A × R) → Decoded A → Type 0
  Refines o none = (r' : R) × (o ≡ done (none, r')) × Valid r'
  Refines o (some (a, rest)) = (r' : R) × (o ≡ done (some a, r')) × (unread r' ≡ rest) × Valid r'

  pub Refines-Reads :
      {A : Type 0} (r : R) (o : Outcome (Option A × R)) (d : Decoded A)
      → Valid r
      → Reads Valid unread r o d
      → Refines o d
  Refines-Reads r o none v h = (r, h, v)
  Refines-Reads r o (some (a, rest)) v h = h

  -- A chain of reads refines the chain of its decoders.
  pub Refines-bind :
      {A B : Type 0} (r : R) (m : Read R A) (f : A → Read R B) (d : Decoded A)
      (g : A → List ℕ → Decoded B)
      → Refines (m r) d
      → ((a : A) (r' : R) → d ≡ some (a, unread r') → Valid r' → Refines (f a r') (g a (unread r')))
      → Refines ((m >>= f) r) (decode_then d g)
  Refines-bind r m f none g (r', e, v) k = (r', rw e, v)
  Refines-bind r m f (some (a, rest)) g (r', e, left, v) k = rw (e, ← left) (k a r' (rw left) v)
