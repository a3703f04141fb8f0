-- ===== src/Frame/Async.antt =====
-- wtransport-proto/src/frame.rs: `Frame::read_async` and `Frame::write_async`.
pub mod Reading
pub mod Writing
pub mod Tests
use wtransport.Prelude.{
  expect_ok, length, ℕ, List, Option, none, some, Result, ok, err, if◌then◌else◌,
}
use wtransport.VarInt.{try_from_u64}
use wtransport.Ids.SessionId
use wtransport.Ids.SessionId.{SessionId, InvalidSessionId}
use wtransport.Quic.Octets.{Octets}
use wtransport.Bytes.Async.{IoError, AsyncRead}
use wtransport.Bytes.Async.Fill.{get_buffer_async}
use wtransport.Bytes.Async.GetVarint.{get_varint_async}
use wtransport.Bytes.Async.Write.{AsyncWrite, put_varint_async, put_buffer_async}
use wtransport.Bytes.Async.Chain.{Async, ◌>>=◌, pure, fail, lift, converted}
use wtransport.Frame.{
  Frame, FrameReadError, unknown_frame, invalid_session_id, new, new_webtransport, get_session_id,
}
use wtransport.Frame.Kind
use wtransport.Frame.Kind.{FrameKind, is_webtransport}

pub data FrameReadAsyncError : Type 0 where
  frame : FrameReadError → FrameReadAsyncError
  io : IoError → FrameReadAsyncError

module _ {R : Type 0} (o : Octets) (reader : AsyncRead R) (polls : ℕ) where
  abbrev pub FrameRead : Type 0
  FrameRead = Async R FrameReadAsyncError Frame

  abbrev pub session_async : Result SessionId InvalidSessionId → FrameRead
  session_async (ok session_id) = lift (new_webtransport session_id)
  session_async (err _) = fail (frame FrameReadError.invalid_session_id)

  unfoldable pub kind_async : FrameKind → FrameRead
  unfolding new new_webtransport SessionId.try_from_varint get_varint_async get_buffer_async
  kind_async kind =
      if is_webtransport kind
      then (do
        varint ← converted io (get_varint_async o reader polls)
        session_async (SessionId.try_from_varint varint))
      else (do
        payload_len ← converted io (get_varint_async o reader polls)
        payload ← converted io (get_buffer_async reader polls payload_len)
        lift (new kind payload none))

  abbrev pub parsed_async : Option FrameKind → FrameRead
  unfolding kind_async
  parsed_async none = fail (frame unknown_frame)
  parsed_async (some kind) = kind_async kind

  unfoldable pub read_async : FrameRead
  unfolding kind_async Kind.parse get_varint_async
  read_async = do
    kind_id ← converted io (get_varint_async o reader polls)
    parsed_async (Kind.parse kind_id)

module _ {W : Type 0} (o : Octets) (writer : AsyncWrite W) (polls : ℕ) where
  unfoldable pub body_async : List ℕ → Option SessionId → Async W IoError (Unit {0})
  unfolding put_varint_async put_buffer_async try_from_u64
  body_async payload (some session_id) =
      put_varint_async writer o polls session_id.session_stream.varint >>= λ n. pure tt
  body_async payload none = lift (expect_ok (try_from_u64 (length payload))) >>= λ len.
      put_varint_async writer o polls len >>= λ n. put_buffer_async writer polls payload

  unfoldable pub write_async : Frame → Async W IoError (Unit {0})
  unfolding Kind.id get_session_id put_varint_async body_async
  write_async f = put_varint_async writer o polls (Kind.id f.kind) >>= λ n.
      lift (get_session_id f) >>= λ session_id. body_async f.payload session_id
