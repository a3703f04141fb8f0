-- ===== src/VarInt.antt =====
-- wtransport-proto/src/varint.rs: a `VarInt` is a `u64` that its constructors keep below 2 ^ 62.
pub mod Size
pub mod Tests
use wtransport.Prelude.{
  ℕ, ◌/◌, ◌≤◌, ◌==◌, leb, if◌then◌else◌, Result, ok, err, Outcome, done, panic, bind, assert,
}

abbrev pub VarInt : Type 0
VarInt = ℕ

-- `VarInt::MAX`
abbrev pub varint_max : VarInt
varint_max = 4611686018427387903

-- `VarInt::MAX_SIZE`
abbrev pub varint_max_size : ℕ
varint_max_size = 8

-- What every safe constructor establishes.
abbrev pub IsVarInt : ℕ → Type 0
IsVarInt v = v ≤ varint_max

pub data VarIntBoundsExceeded : Type 0 where
  varint_bounds_exceeded : VarIntBoundsExceeded

unfoldable pub from_u32 : ℕ → VarInt
from_u32 value = value

unfoldable pub try_from_u64 : ℕ → Result VarInt VarIntBoundsExceeded
try_from_u64 value = if leb value varint_max then ok value else err varint_bounds_exceeded

unfoldable pub from_u64_unchecked : ℕ → Outcome VarInt
from_u64_unchecked value = bind (assert (leb value varint_max)) λ _. done value

-- The last branch is `unreachable!()`.
unfoldable pub size : VarInt → Outcome ℕ
size v =
    if leb v 63
    then done 1
    else if leb v 16383
    then done 2
    else if leb v 1_073_741_823
    then done 4
    else if leb v 4_611_686_018_427_387_903
    then done 8
    else panic

-- `first >> 6` is `first / 64`.
unfoldable pub parse_size : ℕ → Outcome ℕ
parse_size first =
    let tag = first / 64 in
    if tag == 0
    then done 1
    else if tag == 1
    then done 2
    else if tag == 2
    then done 4
    else if tag == 3
    then done 8
    else panic
