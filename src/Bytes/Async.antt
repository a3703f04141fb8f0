-- ===== src/Bytes/Async.antt =====
-- wtransport-proto/src/bytes.rs, `mod async`: reading a buffer from a source that may keep the reader
-- waiting and gives its bytes in pieces of any size.
pub mod Laws
pub mod Await
pub mod Source
pub mod Fill
pub mod GetVarint
pub mod Chain
pub mod Write
pub mod Feed
pub mod Tests
use wtransport.Prelude.{
  ℕ, zero, suc, ◌-◌, List, [], ◌∷◌, ◌++◌, Option, none, some, Result, ok, err, length, take, drop,
  true, false, Bool, not, ◌==◌, ltb, Outcome, done, panic, bind, assert, if◌then◌else◌,
}

pub data IoError : Type 0 where
  not_connected closed : IoError

-- `std::io::ErrorKind`, as far as the code tells its variants apart.
pub data IoErrorKind : Type 0 where
  not_connected other : IoErrorKind

-- `From<std::io::Error> for IoError`
unfoldable pub of_io_error : IoErrorKind → IoError
of_io_error IoErrorKind.not_connected = IoError.not_connected
of_io_error IoErrorKind.other = IoError.closed

pub data Poll (A : Type 0) : Type 0 where
  pending : Poll A
  ready : A → Poll A

-- `poll_read` gets the room of the buffer, and returns the bytes that it put there, or an error as
-- `?` converts it.
pub record AsyncRead (R : Type 0) : Type 0 where
  pub poll_read : ℕ → R → Outcome (Poll (Result (List ℕ) IoError) × R)

abbrev copied : List ℕ → ℕ → Outcome (Unit {0})
copied [] room = done tt
copied (b ∷ bs) room = assert (length (b ∷ bs) == room)

-- `impl AsyncRead for &[u8]`: `copy_from_slice` panics where the lengths differ.
unfoldable pub slice_poll_read : ℕ → List ℕ → Outcome (Poll (Result (List ℕ) IoError) × List ℕ)
slice_poll_read room self =
    bind (copied (take room self) room) λ _. done (ready (ok (take room self)), drop room self)

-- `GetBuffer`: the length of its buffer, and the bytes before its offset.
pub record GetBuffer : Type 0 where
  pub size : ℕ
  pub filled : List ℕ

unfoldable pub get_buffer : ℕ → GetBuffer
get_buffer size = record { size = size; filled = [] }

module _ {R : Type 0} (reader : AsyncRead R) where
  abbrev pub Polled : Type 0
  Polled = Outcome (Option (Poll (Result (Unit {0}) IoError) × GetBuffer × R))

  abbrev pub after_read :
      (List ℕ → R → Polled) → GetBuffer → Poll (Result (List ℕ) IoError) × R → Polled
  after_read next g (pending, r) = done (some (pending, g, r))
  after_read next g (ready (err e), r) = done (some (ready (err e), g, r))
  after_read next g (ready (ok []), r) = done (some (ready (err closed), g, r))
  after_read next g (ready (ok (b ∷ bs)), r) = next (b ∷ bs) r

  -- The loop of `GetBuffer::poll`; `none` is a loop that the fuel cut off.
  unfoldable pub poll_loop : ℕ → GetBuffer → R → Polled
  poll_loop zero g r = done none
  poll_loop (suc fuel) g r = elim (ltb (length g.filled) g.size) [
    | true ↦ bind (reader.poll_read (g.size - length g.filled) r) (
        after_read (λ bs r'. poll_loop fuel (record { size = g.size; filled = g.filled ++ bs }) r')
          g)
    | false ↦ done (some (ready (ok tt), g, r))
  ]

  -- A turn that goes on has filled a byte or more.
  unfoldable pub poll_get_buffer : GetBuffer → R → Polled
  unfolding poll_loop
  poll_get_buffer g r = poll_loop (suc (g.size - length g.filled)) g r
