-- ===== src/VarInt/Tests.antt =====
-- Tests of `varint.rs`, by the examples of RFC 9000, section A.1.
use wtransport.Prelude.{◌≤◌, ◌≡◌, refl, arith, [], ◌∷◌, length, done}
use wtransport.Quic.Encoding.{encode}
use wtransport.VarInt.{varint_max_size, size}
use wtransport.VarInt.Size.{size-encode}

encode_two : encode 15293 ≡ 0x7b ∷ 0xbd ∷ []
unfolding encode
encode_two = refl

size-encode_example :
    (size 15293 ≡ done (length (encode 15293))) × (length (encode 15293) ≤ varint_max_size)
size-encode_example = size-encode 15293 (omega arith)
