-- ===== src/Ids/StreamId.antt =====
-- wtransport-proto/src/ids.rs: the id of a QUIC stream.
use wtransport.Prelude.{◌==◌, if◌then◌else◌, Bool, bit_and}
use wtransport.VarInt.{VarInt, varint_max}

pub record StreamId : Type 0 where
  pub varint : VarInt

-- `StreamId::MAX`
abbrev pub largest : StreamId
largest = record { varint = varint_max }

unfoldable pub new : VarInt → StreamId
new varint = record { varint = varint }

unfoldable pub is_bidirectional : StreamId → Bool
is_bidirectional s = bit_and s.varint 0x2 == 0

unfoldable pub is_client_initiated : StreamId → Bool
is_client_initiated s = bit_and s.varint 0x1 == 0

-- `is_server as u64` is 1 for `true`.
unfoldable pub is_local : StreamId → Bool → Bool
is_local s is_server = bit_and s.varint 0x1 == (if is_server then 1 else 0)
