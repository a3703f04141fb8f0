-- ===== src/Quic/Encoding.antt =====
-- The variable-length integer encoding of RFC 9000, section 16, that QUIC libraries implement: the
-- two top bits of the first byte hold the base-2 logarithm of the length, the rest the value in
-- network byte order. No code of the repository stands here; it is the reference to which
-- `varint.rs` is held, and by which the `octets` crate is specified.
pub mod Laws
use wtransport.Prelude.{
  ℕ, zero, suc, ◌+◌, ◌-◌, ◌*◌, ◌/◌, ◌%◌, ◌^◌, List, [], ◌∷◌, ◌++◌, Option, none, some, ltb, leb,
  if◌then◌else◌, length, take, drop,
}

-- `n` bytes of `v`, the most significant first.
unfoldable pub big_endian : ℕ → ℕ → List ℕ
big_endian zero v = []
big_endian (suc n) v = big_endian n (v / 256) ++ (v % 256) ∷ []

unfoldable pub of_big_endian : ℕ → List ℕ → ℕ
of_big_endian acc [] = acc
of_big_endian acc (b ∷ bs) = of_big_endian (acc * 256 + b) bs

-- The shortest of the four forms that holds the value.
unfoldable pub encode : ℕ → List ℕ
unfolding big_endian
encode v =
    if ltb v (2 ^ 6)
    then big_endian 1 v
    else if ltb v (2 ^ 14)
    then big_endian 2 (v + 1 * 2 ^ 14)
    else if ltb v (2 ^ 30)
    then big_endian 4 (v + 2 * 2 ^ 30)
    else big_endian 8 (v + 3 * 2 ^ 62)

-- The value that the first `n` bytes hold without the two bits of the length, and what follows.
unfoldable pub decode_length : ℕ → List ℕ → Option (ℕ × List ℕ)
unfolding of_big_endian
decode_length n bs =
    if leb n (length bs)
    then some (of_big_endian 0 (take n bs) % 2 ^ (8 * n - 2), drop n bs)
    else none

-- `none` where the input ends before the integer does.
unfoldable pub decode : List ℕ → Option (ℕ × List ℕ)
unfolding decode_length
decode [] = none
decode (b ∷ bs) = decode_length (2 ^ (b / 64 % 4)) (b ∷ bs)
