-- ===== src/Stream.antt =====
-- wtransport/src/engine/stream.rs: a QUIC stream by its kind, who opened it and whether it runs both
-- ways, and by its stage, raw, with HTTP/3 on it or of a WebTransport session.
pub mod Errors
pub mod BiRemote
pub mod BiLocal
pub mod UniRemote
pub mod UniLocal
pub mod Quic
pub mod Poll
pub mod App
pub mod Laws
pub mod Connected
pub mod Tests
use wtransport.Prelude.{
  ℕ, Option, none, some, Result, ok, err, Outcome, done, bind, assert, expect, leb,
}
use wtransport.VarInt.{VarInt, varint_max, from_u64_unchecked}
use wtransport.Ids.SessionId.{SessionId}
use wtransport.Ids.StreamId
use wtransport.Ids.StreamId.{StreamId}
use wtransport.Quic.Streams.{Quinn}
use wtransport.StreamHeader.{StreamHeader, get_session_id}
use wtransport.Bytes.Async.Chain.{Async}

pub data Raw : Type 0 where
  raw : Raw

pub record H3 : Type 0 where
  pub header : Option StreamHeader

pub record Wt : Type 0 where
  pub session_id : SessionId

-- `BiRemote`, `BiLocal` and `Bi` have the same two fields; the files are named for the kinds.
pub record TwoWay (q : Quinn) : Type 0 where
  pub send : q.Send
  pub recv : q.Recv

pub record Stream (K S : Type 0) : Type 0 where
  pub kind : K
  pub stage : S

module _ (q : Quinn) where
  -- `QuicSendStream::id` and `QuicRecvStream::id`
  unfoldable pub checked_id : ℕ → Outcome StreamId
  unfolding from_u64_unchecked StreamId.new
  checked_id id =
      bind (assert (leb id varint_max))
        λ _. bind (from_u64_unchecked id) λ varint. done (StreamId.new varint)

  unfoldable pub send_stream_id : q.Send → Outcome StreamId
  unfolding checked_id
  send_stream_id s = checked_id (q.send_id s)

  unfoldable pub recv_stream_id : q.Recv → Outcome StreamId
  unfolding checked_id
  recv_stream_id r = checked_id (q.recv_id r)

  -- `QuicRecvStream::stop`; `quinn::VarInt::MAX` is 2 ^ 62 - 1 too.
  unfoldable pub recv_stop : VarInt → q.Recv → Outcome q.Recv
  recv_stop error_code r = bind (assert (leb error_code varint_max)) λ _. done (q.stop error_code r)

-- A body that works on a part of the stream.
module _ {S T E A : Type 0} (part : S → T) (with_part : T → S → S) where
  abbrev pub put_back : S → Option (Result A E × T) → Option (Result A E × S)
  put_back s none = none
  put_back s (some (x, t)) = some (x, with_part t s)

  abbrev pub on_part : Async T E A → Async S E A
  on_part m s = bind (m (part s)) λ out. done (put_back s out)

-- The methods `header` of the unidirectional HTTP/3 streams.
unfoldable pub header_of : H3 → Outcome StreamHeader
header_of h = expect h.header

-- The two `expect`s of `upgrade` to a WebTransport stream.
unfoldable pub session_of : H3 → Outcome SessionId
unfolding header_of get_session_id
session_of h =
    bind (header_of h) λ header. bind (get_session_id header) λ session_id. expect session_id
