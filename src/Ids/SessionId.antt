-- ===== src/Ids/SessionId.antt =====
-- wtransport-proto/src/ids.rs: a WebTransport session id, which is the id of the session's stream.
use wtransport.Prelude.{if◌then◌else◌, ◌&&◌, Result, ok, err, Outcome, done, bind, assert}
use wtransport.VarInt.{VarInt}
use wtransport.Ids.StreamId
use wtransport.Ids.StreamId.{StreamId}

pub data InvalidSessionId : Type 0 where
  invalid_session_id : InvalidSessionId

pub record SessionId : Type 0 where
  pub session_stream : StreamId

unfoldable pub into_varint : SessionId → VarInt
into_varint s = s.session_stream.varint

unfoldable pub try_from_session_stream : StreamId → Result SessionId InvalidSessionId
unfolding StreamId.is_bidirectional StreamId.is_client_initiated
try_from_session_stream stream_id =
    if StreamId.is_bidirectional stream_id && StreamId.is_client_initiated stream_id
    then ok (record { session_stream = stream_id })
    else err invalid_session_id

unfoldable pub from_session_stream_unchecked : StreamId → Outcome SessionId
unfolding StreamId.is_bidirectional StreamId.is_client_initiated
from_session_stream_unchecked stream_id =
    bind (assert (StreamId.is_bidirectional stream_id && StreamId.is_client_initiated stream_id))
      λ _. done (record { session_stream = stream_id })

unfoldable pub try_from_varint : VarInt → Result SessionId InvalidSessionId
unfolding try_from_session_stream StreamId.new
try_from_varint varint = try_from_session_stream (StreamId.new varint)
