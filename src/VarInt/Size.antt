-- ===== src/VarInt/Size.antt =====
-- The sizes of `varint.rs` against the encoding of RFC 9000.
use wtransport.Prelude.{
  ℕ, zero, suc, refl, ◌/◌, ◌%◌, ◌^◌, ◌≤◌, ◌<◌, ◌≡◌, ◌↔◌, arith, length, IsByte, ok, err, done,
}
use wtransport.Quic.Encoding.{encode}
use wtransport.Quic.Encoding.Laws.{length-encode}
use wtransport.VarInt.{
  IsVarInt, varint_max_size, varint_bounds_exceeded, try_from_u64, from_u64_unchecked, size,
  parse_size,
}

-- On every varint `size` returns, without reaching `unreachable!()`, the number of bytes that the
-- RFC 9000 encoding of the value takes, and that is at most `MAX_SIZE`.
pub size-encode :
    (v : ℕ)
    → IsVarInt v
    → (size v ≡ done (length (encode v))) × (length (encode v) ≤ varint_max_size)
unfolding size
size-encode v h = ground (arith, length-encode v)

parse_tag : (b t : ℕ) → b / 64 ≡ t → t < 4 → parse_size b ≡ done (2 ^ (t % 4))
unfolding parse_size
parse_tag b zero e h = rw e
parse_tag b (suc zero) e h = rw e
parse_tag b (suc (suc zero)) e h = rw e
parse_tag b (suc (suc (suc zero))) e h = rw e
parse_tag b (suc (suc (suc (suc t)))) e h = absurd (omega arith)

-- On every byte `parse_size` returns 1, 2, 4 or 8: two to the power of the byte's two top bits.
pub parse_size_lem : (b : ℕ) → IsByte b → parse_size b ≡ done (2 ^ (b / 64 % 4))
parse_size_lem b h = parse_tag b (b / 64) refl (omega arith)

-- `try_from_u64` accepts a value exactly when it is below 2 ^ 62, and keeps it; it rejects all others.
pub try_from_u64_cases :
    (value : ℕ)
    → ((try_from_u64 value ≡ ok value) ↔ (value < 2 ^ 62))
      × ((try_from_u64 value ≡ err varint_bounds_exceeded) ↔ (2 ^ 62 ≤ value))
unfolding try_from_u64
try_from_u64_cases value = ground arith

pub from_u64_unchecked_lem : (v : ℕ) → IsVarInt v → from_u64_unchecked v ≡ done v
unfolding from_u64_unchecked
from_u64_unchecked_lem v h = ground arith
