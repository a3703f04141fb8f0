-- ===== src/Bytes/Vec.antt =====
-- wtransport-proto/src/bytes.rs: `impl BytesWriter for Vec<u8>`, which grows and never fails.
pub mod Laws
use wtransport.Prelude.{
  ℕ, List, ◌++◌, ok, Outcome, done, bind, expect_ok, length, take, drop, replicate,
}
use wtransport.VarInt.{VarInt, size}
use wtransport.Quic.Octets.{Octets}
use wtransport.Bytes.Writer.{Write, BytesWriter}
use wtransport.Bytes.Buffer

module _ (o : Octets) where
  -- `resize(offset + size, 0)`, then the write into `self[offset..]`, which shares the memory.
  unfoldable pub put_varint : VarInt → Write (List ℕ)
  unfolding size Buffer.new_writer Buffer.put_varint
  put_varint varint self = bind (size varint) λ n.
      let resized = self ++ replicate n 0 in
      bind (Buffer.put_varint o varint (Buffer.new_writer o (drop (length self) resized)))
        λ (result, w).
          bind (expect_ok result) λ _. done (ok tt, take (length self) resized ++ o.buf_mut w)

  unfoldable pub put_bytes : List ℕ → Write (List ℕ)
  put_bytes bytes self = done (ok tt, self ++ bytes)

  abbrev pub vec_writer : BytesWriter (List ℕ)
  vec_writer = record { put_varint = put_varint; put_bytes = put_bytes }
