-- ===== src/Ids/Tests.antt =====
-- Tests of `ids.rs`: stream 8 is a session, and streams 5 and 6 are not.
use wtransport.Prelude.{◌≡◌, arith, done}
use wtransport.Ids.StreamId.{StreamId}
use wtransport.Ids.SessionId.{SessionId}
use wtransport.Ids.QStreamId
use wtransport.Ids.QStreamId.{QStreamId, invalid_qstream_id}
use wtransport.Ids.Laws.{IsQStreamId, qstream-session}

abbrev five : StreamId
five = record { varint = 5 }

abbrev eight : SessionId
eight = record { session_stream = record { varint = 8 } }

abbrev two : QStreamId
two = record { varint = 2 }

qstream-session_example :
    (q : QStreamId) × (QStreamId.from_session_id eight ≡ done q)
    × IsQStreamId q
    × (QStreamId.into_stream_id q ≡ done eight.session_stream)
    × (QStreamId.into_session_id q ≡ done eight)
qstream-session_example =
    qstream-session eight (record { in_range = omega arith; quarter = omega arith })
