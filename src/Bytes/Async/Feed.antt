-- ===== src/Bytes/Async/Feed.antt =====
-- A source and a sink that keep the contracts: bytes that come one at a time after some waits, and a
-- vector.
use wtransport.Prelude.{
  ℕ, zero, suc, ◌%◌, ◌<◌, refl, sym, ap, arith, List, [], ◌∷◌, ◌++◌, IsBytes, Result, ok, done,
  length, take_all,
}
use wtransport.Bytes.Async.{IoError, Poll, pending, ready, AsyncRead}
use wtransport.Bytes.Async.Source.{Flows, Source}
use wtransport.Bytes.Async.Write.{AsyncWrite, vec_poll_write}
use wtransport.Bytes.Async.Write.Sink.{Takes, Sink}

pub record Feed : Type 0 where
  pub content : List ℕ
  pub naps : ℕ

abbrev pub content_bytes : List ℕ → List ℕ
content_bytes [] = []
content_bytes (b ∷ bs) = b % 256 ∷ content_bytes bs

pub content-IsBytes : (bs : List ℕ) → IsBytes (content_bytes bs)
content-IsBytes [] = tt
content-IsBytes (b ∷ bs) = (omega arith, content-IsBytes bs)

abbrev pub next_byte : List ℕ → Poll (Result (List ℕ) IoError) × Feed
next_byte [] = (ready (ok []), record { content = []; naps = 0 })
next_byte (b ∷ bs) = (ready (ok (b % 256 ∷ [])), record { content = bs; naps = 0 })

abbrev pub feed_read : ℕ → List ℕ → Poll (Result (List ℕ) IoError) × Feed
feed_read zero bs = next_byte bs
feed_read (suc n) bs = (pending, record { content = bs; naps = n })

abbrev pub feed_reader : AsyncRead Feed
feed_reader = record { poll_read = λ n r. done (feed_read r.naps r.content) }

pub feed-Flows :
    (n naps : ℕ) (bs : List ℕ)
    → 0 < n
    → Flows
        (λ r. content_bytes r.content)
        (λ r. IoError.closed)
        (λ r. r.naps)
        n
        (record { content = bs; naps = naps })
        (feed_read naps bs)
feed-Flows n zero [] h = (refl, refl)
feed-Flows n zero (b ∷ bs) h = (omega arith, refl, refl, omega arith)
feed-Flows n (suc naps) bs h = (refl, refl, omega arith)

abbrev pub feed_source : Source feed_reader
feed_source = record {
  bytes = λ r. content_bytes r.content;
  ending = λ r. IoError.closed;
  waits = λ r. r.naps;
  bytes-IsBytes = λ r. content-IsBytes r.content;
  poll_read_lem = λ n r h. (feed_read r.naps r.content, refl, feed-Flows n r.naps r.content h);
}

unfoldable pub vec_async : AsyncWrite (List ℕ)
unfolding vec_poll_write
vec_async = record { poll_write = vec_poll_write }

-- A vector takes all the bytes that it is offered.
pub vec-Takes :
    (bs w : List ℕ) → 0 < length bs → Takes (λ v. v) (λ v. 0) bs w (ready (ok (length bs)), w ++ bs)
vec-Takes bs w h = (h, omega arith, ap (λ l. w ++ l) (sym (take_all bs)), omega arith)

unfoldable pub vec_sink : Sink vec_async
unfolding vec_poll_write vec_async
vec_sink = record {
  written = λ v. v;
  waits = λ v. 0;
  poll_write_lem = λ bs w h. ((ready (ok (length bs)), w ++ bs), refl, vec-Takes bs w h);
}
