-- ===== src/Datagram.antt =====
-- wtransport-proto/src/datagram.rs: an HTTP/3 datagram is a quarter stream id and a payload.
pub mod Laws
pub mod App
pub mod Tests
use wtransport.Prelude.{
  ℕ, ◌+◌, List, Option, none, some, Result, ok, err, Outcome, done, bind, expect_ok, ltb,
  if◌then◌else◌, length,
}
use wtransport.VarInt.{VarInt, size}
use wtransport.ErrorCode.{ErrorCode}
use wtransport.Ids.QStreamId
use wtransport.Ids.QStreamId.{QStreamId, InvalidQStreamId}
use wtransport.Quic.Octets.{Octets}
use wtransport.Bytes.Writer.{EndOfBuffer, end_of_buffer}
use wtransport.Bytes.Buffer

pub record Datagram : Type 0 where
  pub qstream_id : QStreamId
  pub payload : List ℕ

unfoldable pub new : QStreamId → List ℕ → Datagram
new qstream_id payload = record { qstream_id = qstream_id; payload = payload }

unfoldable pub write_size : Datagram → Outcome ℕ
unfolding size
write_size d = bind (size d.qstream_id.varint) λ n. done (n + length d.payload)

module _ (o : Octets) where
  abbrev with_id :
      Buffer.BufferReader o
      → Result QStreamId InvalidQStreamId
      → Outcome (Result Datagram ErrorCode)
  unfolding Buffer.buffer_remaining
  with_id reader (ok qstream_id) =
      bind (Buffer.buffer_remaining o reader)
        λ payload. done (ok (record { qstream_id = qstream_id; payload = payload }))
  with_id reader (err _) = done (err ErrorCode.datagram)

  abbrev with_varint : Option VarInt → Buffer.BufferReader o → Outcome (Result Datagram ErrorCode)
  unfolding with_id QStreamId.try_from_varint
  with_varint (some varint) reader = with_id reader (QStreamId.try_from_varint varint)
  with_varint none reader = done (err ErrorCode.datagram)

  unfoldable pub read : List ℕ → Outcome (Result Datagram ErrorCode)
  unfolding with_varint Buffer.new Buffer.get_varint
  read quic_datagram =
      bind (Buffer.get_varint o (Buffer.new o quic_datagram))
        λ (varint, reader). with_varint varint reader

  -- The result, and the caller's buffer after the call.
  unfoldable pub write : Datagram → List ℕ → Outcome (Result ℕ EndOfBuffer × List ℕ)
  unfolding write_size Buffer.new_writer Buffer.put_varint Buffer.put_bytes Buffer.offset_writer
  write d buffer = bind (write_size d) λ n.
      if ltb (length buffer) n
      then done (err end_of_buffer, buffer)
      else (bind (Buffer.put_varint o d.qstream_id.varint (Buffer.new_writer o buffer))
          λ (put_id, w₁). bind (expect_ok put_id) λ _.
            bind (Buffer.put_bytes o d.payload w₁) λ (put_payload, w₂).
              bind (expect_ok put_payload) λ _. done (ok (Buffer.offset_writer o w₂), o.buf_mut w₂))
