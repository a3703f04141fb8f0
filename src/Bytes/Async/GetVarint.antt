-- ===== src/Bytes/Async/GetVarint.antt =====
-- wtransport-proto/src/bytes.rs, `mod async`: the future `GetVarint`, which asks for a first byte,
-- learns the size of the varint from it, and asks for the rest.
pub mod Laws
use wtransport.Prelude.{
  ℕ, suc, List, [], ◌∷◌, true, false, not, ◌==◌, Option, none, some, Result, ok, err, Outcome, done,
  panic, bind, assert, expect, length, take,
}
use wtransport.VarInt.{VarInt, parse_size}
use wtransport.Quic.Octets.{Octets}
use wtransport.Bytes.Buffer
use wtransport.Bytes.Async.{
  IoError, closed, Poll, pending, ready, AsyncRead, GetBuffer, poll_loop, Polled,
}
use wtransport.Bytes.Async.Await.{PollOf, await}
use wtransport.Bytes.Async.Source.{Awaited}

-- The bytes of its buffer before the offset, and `varint_size` as the size; the loop is the one of
-- `GetBuffer`.
abbrev pub GetVarint : Type 0
GetVarint = GetBuffer

unfoldable pub new : GetVarint
new = record { size = 0; filled = [] }

module _ {R : Type 0} (o : Octets) (reader : AsyncRead R) where
  abbrev pub PolledVarint : Type 0
  PolledVarint = PollOf VarInt GetVarint R

  -- `BufferReader::new(&this.buffer[..this.varint_size]).get_varint().expect(..)`.
  abbrev pub parsed : GetVarint → Outcome VarInt
  parsed g = bind (Buffer.get_varint o (Buffer.new o (take g.size g.filled))) λ (v, _). expect v

  abbrev pub after_loop : Option (Poll (Result (Unit {0}) IoError) × GetVarint × R) → PolledVarint
  after_loop none = done none
  after_loop (some (pending, g, r)) = done (some (pending, g, r))
  after_loop (some (ready (err e), g, r)) = done (some (ready (err e), g, r))
  after_loop (some (ready (ok _), g, r)) = bind (parsed g) λ v. done (some (ready (ok v), g, r))

  -- The loop and what follows it; a turn that goes on has filled a byte or more.
  unfoldable pub poll_rest : GetVarint → R → PolledVarint
  unfolding poll_loop
  poll_rest g r = bind (poll_loop reader (suc g.size) g r) after_loop

  abbrev pub after_first : GetVarint → Poll (Result (List ℕ) IoError) × R → PolledVarint
  after_first g (pending, r) = done (some (pending, g, r))
  after_first g (ready (err e), r) = done (some (ready (err e), g, r))
  after_first g (ready (ok []), r) = done (some (ready (err closed), g, r))
  after_first g (ready (ok (b ∷ [])), r) = bind (parse_size b) λ varint_size.
      bind (assert (not (varint_size == 0)))
        λ _. poll_rest (record { size = varint_size; filled = b ∷ [] }) r
  after_first g (ready (ok (b ∷ b' ∷ bs)), r) = panic

  unfoldable pub poll : GetVarint → R → PolledVarint
  unfolding poll_rest parse_size
  poll g r = elim (length g.filled == 0) [
    | true ↦ bind (assert (g.size == 0)) λ _. bind (reader.poll_read 1 r) (after_first g)
    | false ↦ poll_rest g r
  ]

  abbrev pub varint_of : Option (Result VarInt IoError × GetVarint × R) → Awaited VarInt R
  varint_of none = done none
  varint_of (some (x, g, r)) = done (some (x, r))

  -- `reader.get_varint().await`.
  unfoldable pub get_varint_async : ℕ → R → Awaited VarInt R
  unfolding await poll new
  get_varint_async polls r = bind (await poll polls new r) varint_of
