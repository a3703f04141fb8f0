-- ===== src/Bytes/Async/Tests.antt =====
-- Tests of the reads that wait: a source that gives its bytes one by one, and the slice.
use wtransport.Prelude.{
  ℕ, zero, suc, ◌≡◌, refl, arith, List, [], ◌∷◌, ok, Result, Outcome, done, panic,
}
use wtransport.Quic.Encoding.{decode}
use wtransport.Quic.Octets.Cursor.{cursor, cursor-OctetsLaws}
use wtransport.Bytes.Async.Source.{Got}
use wtransport.Bytes.Async.GetVarint.{get_varint_async}
use wtransport.Bytes.Async.GetVarint.Laws.{get_varint_async-Got}
use wtransport.Bytes.Async.Feed.{Feed, feed_reader, feed_source}
use wtransport.Bytes.Async.{IoError, Poll, ready, AsyncRead, GetBuffer, slice_poll_read}
use wtransport.Bytes.Async.Laws.{AsyncReadLaws, Gives}

abbrev give_one : ℕ → List ℕ → Outcome (Poll (Result (List ℕ) IoError) × List ℕ)
give_one zero bs = done (ready (ok []), bs)
give_one (suc room) [] = done (ready (ok []), [])
give_one (suc room) (b ∷ bs) = done (ready (ok (b ∷ [])), bs)

abbrev one_by_one : AsyncRead (List ℕ)
one_by_one = record { poll_read = give_one }

give_one-Gives :
    (n : ℕ) (bs : List ℕ)
    → (out : Poll (Result (List ℕ) IoError) × List ℕ) × (give_one n bs ≡ done out)
      × Gives (λ r. r) n bs out
give_one-Gives zero bs = (_, refl, (omega arith, refl))
give_one-Gives (suc n) [] = (_, refl, (omega arith, refl))
give_one-Gives (suc n) (b ∷ bs) = (_, refl, (omega arith, refl))

one_by_one-AsyncReadLaws : AsyncReadLaws one_by_one
one_by_one-AsyncReadLaws = record { bytes = λ r. r; poll_read_lem = give_one-Gives }

abbrev empty : GetBuffer
empty = record { size = 2; filled = [] }

abbrev three : List ℕ
three = 7 ∷ 8 ∷ 9 ∷ []

-- A slice that is shorter than the buffer, and not empty, panics in `copy_from_slice`.
short_slice : slice_poll_read 3 (7 ∷ []) ≡ panic
unfolding slice_poll_read
short_slice = refl

abbrev sleepy : Feed
sleepy = record { content = 64 ∷ 84 ∷ 4 ∷ []; naps = 2 }

get_varint_async-Got_example :
    Got feed_source sleepy
      (get_varint_async cursor feed_reader 3 sleepy)
      (decode (64 ∷ 84 ∷ 4 ∷ []))
get_varint_async-Got_example =
    get_varint_async-Got cursor cursor-OctetsLaws feed_source 3 sleepy (omega arith)
