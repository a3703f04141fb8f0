-- ===== src/Bytes/Async/Chain/Found.antt =====
-- What a body that reads makes of the bytes of a source that ends: what a decoder of those bytes
-- finds, with its errors, or the error of the source where they end too soon.
use wtransport.Prelude.{
  ℕ, ◌≤◌, ◌≡◌, refl, ◌∙◌, arith, List, Option, none, some, Result, ok, err, Outcome, done,
}
use wtransport.Bytes.Reader.Decoded.{Decoded, decode_then}
use wtransport.Bytes.Async.{IoError, AsyncRead}
use wtransport.Bytes.Async.Source.{Source, Got}
use wtransport.Bytes.Async.Chain.{Async, ◌>>=◌, converted}

module _ {R : Type 0} {reader : AsyncRead R} (source : Source reader) {E X : Type 0}
    (io : IoError → E) (parse : X → E) where
  open source use {bytes, ending, waits}

  abbrev pub Found :
      {A : Type 0} → R → Outcome (Option (Result A E × R)) → Decoded (Result A X) → Type 0
  Found r out none = (r' : R) × (out ≡ done (some (err (io (ending r)), r')))
  Found r out (some (ok a, rest)) =
      (r' : R) × (out ≡ done (some (ok a, r')))
      × (bytes r' ≡ rest)
      × (ending r' ≡ ending r)
      × (waits r' ≤ waits r)
  Found r out (some (err x, rest)) =
      (r' : R) × (out ≡ done (some (err (parse x), r')))
      × (bytes r' ≡ rest)
      × (ending r' ≡ ending r)
      × (waits r' ≤ waits r)

  abbrev pub parse_error : {A : Type 0} → Result A X → Result A E
  parse_error (ok a) = ok a
  parse_error (err x) = err (parse x)

  pub Found-here :
      {A : Type 0} (r : R) (out : Outcome (Option (Result A E × R))) (x : Result A X)
      → out ≡ done (some (parse_error x, r))
      → Found r out (some (x, bytes r))
  Found-here r out (ok a) same = (r, same, refl, refl, omega arith)
  Found-here r out (err x) same = (r, same, refl, refl, omega arith)

  Found-earlier :
      {A : Type 0} (r r' : R) (out : Outcome (Option (Result A E × R))) (d : Decoded (Result A X))
      → ending r' ≡ ending r
      → waits r' ≤ waits r
      → Found r' out d
      → Found r out d
  Found-earlier r r' out none end time (r'', same) = (r'', rw end at same)
  Found-earlier r r' out (some (ok a, rest)) end time (r'', same, left, end', time') =
      (r'', same, left, end' ∙ end, omega arith)
  Found-earlier r r' out (some (err x, rest)) end time (r'', same, left, end', time') =
      (r'', same, left, end' ∙ end, omega arith)

  -- An await and the rest of the body find what the two decoders do.
  pub Found-then :
      {A B : Type 0} (r : R) (m : Async R IoError A) (f : A → Async R E B) (d : Decoded A)
      (g : A → List ℕ → Decoded (Result B X))
      → Got source r (m r) d
      → ((a : A) (r' : R)
          → d ≡ some (a, bytes r')
          → waits r' ≤ waits r
          → Found r' (f a r') (g a (bytes r')))
      → Found r ((converted io m >>= f) r) (decode_then d g)
  Found-then r m f none g (r', same) k = rw same (r', refl)
  Found-then r m f (some (a, rest)) g (r', same, left, end, time) k =
      rw (same, ← left)
        (Found-earlier r r' (f a r') (g a (bytes r')) end time (k a r' (rw left) time))
