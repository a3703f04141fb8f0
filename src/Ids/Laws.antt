-- ===== src/Ids/Laws.antt =====
-- Which varints are session ids, and how quarter stream ids stand for them.
use wtransport.Prelude.{
  ◌*◌, ◌/◌, ◌%◌, ◌^◌, ◌<◌, ◌≡◌, ◌↔◌, arith, true, false, not, ok, err, done, bit_and, bit_and-one,
  bit_and-two, le→leb,
}
use wtransport.VarInt.{VarInt, IsVarInt, varint_max}
use wtransport.Ids.StreamId
use wtransport.Ids.StreamId.{StreamId}
use wtransport.Ids.SessionId
use wtransport.Ids.SessionId.{SessionId, InvalidSessionId, invalid_session_id}
use wtransport.Ids.QStreamId
use wtransport.Ids.QStreamId.{QStreamId, InvalidQStreamId, invalid_qstream_id}

-- A session id is a varint and a client-initiated bidirectional stream: a multiple of four.
pub record IsSessionId (s : SessionId) : Type 0 where
  pub in_range : IsVarInt s.session_stream.varint
  pub quarter : s.session_stream.varint % 4 ≡ 0

abbrev pub IsQStreamId : QStreamId → Type 0
IsQStreamId q = q.varint < 2 ^ 60

-- The two low bits of a stream id tell its four types apart, and a peer's own streams are those
-- that it initiates.
pub stream_types :
    (s : StreamId)
    → ((StreamId.is_bidirectional s ≡ true) ↔ (s.varint % 4 < 2))
      × ((StreamId.is_client_initiated s ≡ true) ↔ (s.varint % 2 ≡ 0))
      × (StreamId.is_local s false ≡ StreamId.is_client_initiated s)
      × (StreamId.is_local s true ≡ not (StreamId.is_client_initiated s))
unfolding StreamId.is_bidirectional StreamId.is_client_initiated StreamId.is_local
stream_types s = ground (arith, bit_and-one s.varint, bit_and-two s.varint)

-- `try_from_varint` accepts exactly the multiples of four, as the session of that stream, and
-- rejects every other id.
pub try_from_varint_cases :
    (v : VarInt)
    → ((SessionId.try_from_varint v ≡ ok (record { session_stream = record { varint = v } }))
        ↔ (v % 4 ≡ 0))
      × ((SessionId.try_from_varint v ≡ err invalid_session_id) ↔ (¬ (v % 4 ≡ 0)))
unfolding SessionId.try_from_varint
try_from_varint_cases v = ground (arith, bit_and-one v, bit_and-two v)

-- The stream and the session of a quarter stream id that is four times a varint.
pub into_stream_id_lem :
    (v : VarInt)
    → v < 2 ^ 60
    → QStreamId.into_stream_id (record { varint = v }) ≡ done (record { varint = v * 4 })
unfolding QStreamId.into_stream_id
into_stream_id_lem v h =
    let wrap : v * 4 % 2 ^ 64 ≡ v * 4 = omega arith in
    rw (wrap, le→leb (v * 4) varint_max (omega arith))

into_session_id_lem :
    (v : VarInt)
    → v < 2 ^ 60
    → QStreamId.into_session_id (record { varint = v })
      ≡ done (record { session_stream = record { varint = v * 4 } })
unfolding QStreamId.into_session_id
into_session_id_lem v h =
    let wrap : v * 4 % 2 ^ 64 ≡ v * 4 = omega arith in
    let two : bit_and (v * 4) 2 ≡ 0 = omega (arith, bit_and-two (v * 4)) in
    let one : bit_and (v * 4) 1 ≡ 0 = omega (arith, bit_and-one (v * 4)) in
    rw (wrap, le→leb (v * 4) varint_max (omega arith), two, one)

pub from_session_id_lem :
    (s : SessionId)
    → IsVarInt s.session_stream.varint
    → QStreamId.from_session_id s ≡ done (record { varint = s.session_stream.varint / 4 })
unfolding QStreamId.from_session_id
from_session_id_lem s h = ground arith

-- Every session id has a quarter stream id, and leads back to itself through both ways out, with no
-- debug assertion failing.
pub qstream-session :
    (s : SessionId)
    → IsSessionId s
    → (q : QStreamId) × (QStreamId.from_session_id s ≡ done q)
      × IsQStreamId q
      × (QStreamId.into_stream_id q ≡ done s.session_stream)
      × (QStreamId.into_session_id q ≡ done s)
qstream-session s h =
    let v = s.session_stream.varint in
    let quarter : v / 4 < 2 ^ 60 = omega arith in
    let back : v / 4 * 4 ≡ v = omega arith in
    (
      record { varint = v / 4 },
      from_session_id_lem s h.in_range,
      quarter,
      rw back at (into_stream_id_lem (v / 4) quarter),
      rw back at (into_session_id_lem (v / 4) quarter),
    )

-- Every quarter stream id that a datagram may carry leads to a session id, and back to itself.
pub session-qstream :
    (q : QStreamId)
    → IsQStreamId q
    → (s : SessionId) × (QStreamId.into_session_id q ≡ done s)
      × IsSessionId s
      × (QStreamId.from_session_id s ≡ done q)
session-qstream q h =
    let v = q.varint in
    let s : SessionId = record { session_stream = record { varint = v * 4 } } in
    let back : v * 4 / 4 ≡ v = omega arith in
    (
      s,
      into_session_id_lem v h,
      record { in_range = omega arith; quarter = omega arith },
      rw back at (from_session_id_lem s (omega arith)),
    )

-- `try_from_varint` accepts a varint exactly when four times it is a varint again.
pub try_from_varint_bounds :
    (v : VarInt)
    → ((QStreamId.try_from_varint v ≡ ok (record { varint = v })) ↔ IsVarInt (v * 4))
      × ((QStreamId.try_from_varint v ≡ err invalid_qstream_id) ↔ (varint_max < v * 4))
unfolding QStreamId.try_from_varint
try_from_varint_bounds v = ground arith
