-- ===== src/StreamHeader/Async.antt =====
-- wtransport-proto/src/stream.rs: `StreamHeader::read_async` and `StreamHeader::write_async`.
pub mod Reading
pub mod Writing
pub mod Tests
use wtransport.Prelude.{ℕ, Option, none, some, Result, ok, err, if◌then◌else◌}
use wtransport.Ids.SessionId
use wtransport.Ids.SessionId.{SessionId, InvalidSessionId}
use wtransport.Quic.Octets.{Octets}
use wtransport.Bytes.Async.{IoError, AsyncRead}
use wtransport.Bytes.Async.GetVarint.{get_varint_async}
use wtransport.Bytes.Async.Write.{AsyncWrite, put_varint_async}
use wtransport.Bytes.Async.Chain.{Async, ◌>>=◌, pure, fail, lift, converted}
use wtransport.StreamHeader.{
  StreamHeader, StreamHeaderReadError, unknown_stream, invalid_session_id, new, get_session_id,
}
use wtransport.StreamHeader.Kind
use wtransport.StreamHeader.Kind.{StreamKind, is_webtransport}

pub data StreamHeaderReadAsyncError : Type 0 where
  stream_header : StreamHeaderReadError → StreamHeaderReadAsyncError
  io : IoError → StreamHeaderReadAsyncError

module _ {R : Type 0} (o : Octets) (reader : AsyncRead R) (polls : ℕ) where
  abbrev pub HeaderRead : Type 0
  HeaderRead = Async R StreamHeaderReadAsyncError StreamHeader

  abbrev pub session_async : StreamKind → Result SessionId InvalidSessionId → HeaderRead
  session_async kind (ok session_id) = lift (new kind (some session_id))
  session_async kind (err _) = fail (stream_header StreamHeaderReadError.invalid_session_id)

  unfoldable pub kind_async : StreamKind → HeaderRead
  unfolding new SessionId.try_from_varint get_varint_async
  kind_async kind =
      if is_webtransport kind
      then (do
        varint ← converted io (get_varint_async o reader polls)
        session_async kind (SessionId.try_from_varint varint))
      else lift (new kind none)

  abbrev pub parsed_async : Option StreamKind → HeaderRead
  unfolding kind_async
  parsed_async none = fail (stream_header unknown_stream)
  parsed_async (some kind) = kind_async kind

  unfoldable pub read_async : HeaderRead
  unfolding kind_async Kind.parse get_varint_async
  read_async = do
    kind_id ← converted io (get_varint_async o reader polls)
    parsed_async (Kind.parse kind_id)

module _ {W : Type 0} (o : Octets) (writer : AsyncWrite W) (polls : ℕ) where
  unfoldable pub rest_async : Option SessionId → Async W IoError (Unit {0})
  unfolding put_varint_async
  rest_async (some session_id) =
      put_varint_async writer o polls session_id.session_stream.varint >>= λ n. pure tt
  rest_async none = pure tt

  unfoldable pub write_async : StreamHeader → Async W IoError (Unit {0})
  unfolding Kind.id get_session_id put_varint_async rest_async
  write_async h = put_varint_async writer o polls (Kind.id h.kind) >>= λ n.
      lift (get_session_id h) >>= λ session_id. rest_async session_id
