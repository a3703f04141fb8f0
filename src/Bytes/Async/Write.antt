-- ===== src/Bytes/Async/Write.antt =====
-- wtransport-proto/src/bytes.rs, `mod async`: the futures `PutVarint` and `PutBuffer`, which write to
-- a sink that may keep the writer waiting and takes the bytes in pieces of any size.
pub mod Sink
pub mod Sends
pub mod Chained
use wtransport.Prelude.{
  ℕ, zero, suc, ◌+◌, ◌-◌, true, false, List, ◌++◌, Option, none, some, Result, ok, err, Outcome,
  done, bind, assert, expect_ok, ltb, length, take, drop, replicate,
}
use wtransport.VarInt.{VarInt, varint_max_size}
use wtransport.Quic.Octets.{Octets}
use wtransport.Bytes.Buffer
use wtransport.Bytes.Async.{IoError, Poll, pending, ready}
use wtransport.Bytes.Async.Await.{PollOf, await}

-- `poll_write` returns how many of the bytes the sink took, or an error as `?` converts it.
pub record AsyncWrite (W : Type 0) : Type 0 where
  pub poll_write : List ℕ → W → Outcome (Poll (Result ℕ IoError) × W)

-- `impl AsyncWrite for Vec<u8>`
unfoldable pub vec_poll_write : List ℕ → List ℕ → Outcome (Poll (Result ℕ IoError) × List ℕ)
vec_poll_write buf self = done (ready (ok (length buf)), self ++ buf)

-- `PutBuffer`, and `PutVarint` with its `varint_size` as the size.
pub record Put : Type 0 where
  pub buffer : List ℕ
  pub size : ℕ
  pub offset : ℕ

unfoldable pub put_buffer : List ℕ → Put
put_buffer bytes = record { buffer = bytes; size = length bytes; offset = 0 }

-- `PutVarint::new`, which encodes the varint at the front of a buffer of zeros.
unfoldable pub put_varint : Octets → VarInt → Outcome Put
unfolding Buffer.put_varint Buffer.new_writer Buffer.offset_writer
put_varint o varint =
    bind (Buffer.put_varint o varint (Buffer.new_writer o (replicate varint_max_size 0)))
      λ (result, w).
        bind (expect_ok result)
          λ _. done (record { buffer = o.buf_mut w; size = Buffer.offset_writer o w; offset = 0 })

module _ {W : Type 0} (writer : AsyncWrite W) where
  abbrev pub PolledPut : Type 0
  PolledPut = PollOf (Unit {0}) Put W

  abbrev pub after_write : (ℕ → W → PolledPut) → Put → Poll (Result ℕ IoError) × W → PolledPut
  after_write next p (pending, w) = done (some (pending, p, w))
  after_write next p (ready (err e), w) = done (some (ready (err e), p, w))
  after_write next p (ready (ok n), w) = bind (assert (ltb 0 n)) λ _. next n w

  -- The loop of the two futures; `none` is a loop that the fuel cut off.
  unfoldable pub put_loop : ℕ → Put → W → PolledPut
  put_loop zero p w = done none
  put_loop (suc fuel) p w = elim (ltb p.offset p.size) [
    | true ↦ bind (writer.poll_write (drop p.offset (take p.size p.buffer)) w) (
        after_write
          (λ n w'.
            put_loop fuel (record { buffer = p.buffer; size = p.size; offset = p.offset + n }) w')
          p)
    | false ↦ done (some (ready (ok tt), p, w))
  ]

  -- A turn that goes on has written a byte or more.
  unfoldable pub poll_put : Put → W → PolledPut
  unfolding put_loop
  poll_put p w = put_loop (suc (p.size - p.offset)) p w

  abbrev pub put_of :
      Option (Result (Unit {0}) IoError × Put × W)
      → Outcome (Option (Result (Unit {0}) IoError × W))
  put_of none = done none
  put_of (some (x, p, w)) = done (some (x, w))

  -- `writer.put_buffer(bytes).await`
  unfoldable pub put_buffer_async :
      ℕ → List ℕ → W → Outcome (Option (Result (Unit {0}) IoError × W))
  unfolding await poll_put put_buffer
  put_buffer_async polls bytes w = bind (await poll_put polls (put_buffer bytes) w) put_of

  abbrev pub size_of : ℕ → Option (Result (Unit {0}) IoError × W) → Option (Result ℕ IoError × W)
  size_of n none = none
  size_of n (some (ok _, w)) = some (ok n, w)
  size_of n (some (err e, w)) = some (err e, w)

  -- `writer.put_varint(varint).await`, which returns `varint_size`.
  unfoldable pub put_varint_async :
      Octets → ℕ → VarInt → W → Outcome (Option (Result ℕ IoError × W))
  unfolding await poll_put put_varint
  put_varint_async o polls varint w =
      bind (put_varint o varint)
        λ p. bind (bind (await poll_put polls p w) put_of) λ sent. done (size_of p.size sent)
