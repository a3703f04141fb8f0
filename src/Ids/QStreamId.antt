-- ===== src/Ids/QStreamId.antt =====
-- wtransport-proto/src/ids.rs: a quarter stream id, by which a datagram names its session.
-- A shift left wraps at 2 ^ 64, as on `u64`.
use wtransport.Prelude.{
  ◌*◌, ◌/◌, ◌%◌, ◌^◌, leb, if◌then◌else◌, ◌&&◌, Result, ok, err, Outcome, done, bind, assert,
}
use wtransport.VarInt.{VarInt, varint_max, from_u64_unchecked}
use wtransport.Ids.StreamId
use wtransport.Ids.StreamId.{StreamId}
use wtransport.Ids.SessionId
use wtransport.Ids.SessionId.{SessionId}

pub data InvalidQStreamId : Type 0 where
  invalid_qstream_id : InvalidQStreamId

pub record QStreamId : Type 0 where
  pub varint : VarInt

-- `QStreamId::MAX`
abbrev pub largest : QStreamId
largest = record { varint = 1152921504606846975 }

-- `>> 2` is `/ 4`.
unfoldable pub from_session_id : SessionId → Outcome QStreamId
unfolding SessionId.into_varint from_u64_unchecked
from_session_id session_id =
    let value = SessionId.into_varint session_id / 4 in
    bind (assert (leb value largest.varint))
      λ _. bind (from_u64_unchecked value) λ varint. done (record { varint = varint })

-- `<< 2` is `* 4` modulo 2 ^ 64.
unfoldable pub into_stream_id : QStreamId → Outcome StreamId
unfolding from_u64_unchecked StreamId.new
into_stream_id q =
    bind (assert (leb (q.varint * 4 % 2 ^ 64) varint_max))
      λ _. bind (from_u64_unchecked (q.varint * 4 % 2 ^ 64)) λ varint. done (StreamId.new varint)

unfoldable pub into_session_id : QStreamId → Outcome SessionId
unfolding into_stream_id SessionId.from_session_stream_unchecked
into_session_id q = bind (into_stream_id q) λ stream_id.
    bind (assert (StreamId.is_bidirectional stream_id && StreamId.is_client_initiated stream_id))
      λ _. SessionId.from_session_stream_unchecked stream_id

unfoldable pub try_from_varint : VarInt → Result QStreamId InvalidQStreamId
try_from_varint varint =
    if leb varint largest.varint then ok (record { varint = varint }) else err invalid_qstream_id
