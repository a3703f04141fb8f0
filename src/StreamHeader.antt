-- ===== src/StreamHeader.antt =====
-- wtransport-proto/src/stream.rs: the header that a unidirectional stream begins with.
pub mod Kind
pub mod Wire
pub mod Reading
pub mod Writing
pub mod Buffered
pub mod Async
pub mod Tests
use wtransport.Prelude.{
  ℕ, ◌+◌, Bool, true, false, Option, none, some, Result, ok, err, Outcome, done, bind, assert,
  expect, expect_ok, ltb, if◌then◌else◌,
}
use wtransport.VarInt.{VarInt, size}
use wtransport.Ids.SessionId
use wtransport.Ids.SessionId.{SessionId, InvalidSessionId}
use wtransport.Quic.Octets.{Octets}
use wtransport.Bytes.Reader.{Read, BytesReader, ◌>>=◌, pure, lift}
use wtransport.Bytes.Writer.{
  Write, BytesWriter, ◌>>◌, given, written_ok, EndOfBuffer, end_of_buffer,
}
use wtransport.Bytes.Buffer.{
  BufferReader, BufferReaderChild, BufferWriter, buffer_reader, buffer_writer, child, commit,
  capacity_writer,
}
use Kind.{StreamKind, control, webtransport, exercise, is_id_exercise, is_webtransport}
use Kind

pub data StreamHeaderReadError : Type 0 where
  unknown_stream invalid_session_id : StreamHeaderReadError

pub record StreamHeader : Type 0 where
  pub kind : StreamKind
  pub session_id : Option SessionId

-- `StreamHeader::MAX_SIZE`
abbrev pub max_size : ℕ
max_size = 16

abbrev is_some : Option SessionId → Bool
is_some (some s) = true
is_some none = false

-- The debug assertions of `new`.
abbrev new_checks : StreamKind → Option SessionId → Outcome (Unit {0})
new_checks (exercise id) session_id = assert (is_id_exercise id)
new_checks webtransport session_id = assert (is_some session_id)
new_checks _ session_id = done tt

unfoldable pub new : StreamKind → Option SessionId → Outcome StreamHeader
unfolding is_id_exercise
new kind session_id =
    bind (new_checks kind session_id) λ _. done (record { kind = kind; session_id = session_id })

unfoldable pub new_control : Outcome StreamHeader
unfolding new
new_control = new control none

unfoldable pub new_webtransport : SessionId → Outcome StreamHeader
unfolding new
new_webtransport session_id = new webtransport (some session_id)

-- The method `session_id`.
unfoldable pub get_session_id : StreamHeader → Outcome (Option SessionId)
get_session_id h =
    if is_webtransport h.kind then (bind (expect h.session_id) λ s. done (some s)) else done none

module _ {R : Type 0} (reader : BytesReader R) where
  abbrev finish_read :
      StreamKind → Option SessionId → Read R (Result StreamHeader StreamHeaderReadError)
  finish_read kind session_id = lift (new kind session_id) >>= λ header. pure (ok header)

  abbrev read_session :
      StreamKind
      → Result SessionId InvalidSessionId
      → Read R (Result StreamHeader StreamHeaderReadError)
  read_session kind (ok session_id) = finish_read kind (some session_id)
  read_session kind (err _) = pure (err StreamHeaderReadError.invalid_session_id)

  unfoldable pub read_kind : StreamKind → Read R (Result StreamHeader StreamHeaderReadError)
  unfolding new SessionId.try_from_varint
  read_kind kind =
      if is_webtransport kind
      then (do varint ← reader.get_varint; read_session kind (SessionId.try_from_varint varint))
      else finish_read kind none

  abbrev read_parsed : Option StreamKind → Read R (Result StreamHeader StreamHeaderReadError)
  unfolding read_kind
  read_parsed none = pure (err unknown_stream)
  read_parsed (some kind) = read_kind kind

  unfoldable pub read : Read R (Result StreamHeader StreamHeaderReadError)
  unfolding read_kind Kind.parse
  read = do kind_id ← reader.get_varint; read_parsed (Kind.parse kind_id)

module _ {W : Type 0} (writer : BytesWriter W) where
  abbrev write_session : Option SessionId → Write W
  write_session (some session_id) = writer.put_varint session_id.session_stream.varint
  write_session none = written_ok

  unfoldable pub write : StreamHeader → Write W
  unfolding Kind.id get_session_id
  write h = writer.put_varint (Kind.id h.kind) >> given (get_session_id h) write_session

abbrev add_session : ℕ → Option SessionId → Outcome ℕ
add_session head (some session_id) =
    bind (size session_id.session_stream.varint) λ n. done (head + n)
add_session head none = done head

unfoldable pub write_size : StreamHeader → Outcome ℕ
unfolding Kind.id get_session_id size
write_size h =
    bind (get_session_id h)
      λ session_id. bind (size (Kind.id h.kind)) λ head. add_session head session_id

module _ (o : Octets) where
  -- What `read_from_buffer` makes of the child's read.
  abbrev settle :
      BufferReader o
      → BufferReaderChild o
      → Option (Result StreamHeader StreamHeaderReadError)
      → Outcome (Option (Result StreamHeader StreamHeaderReadError) × BufferReader o)
  settle parent c (some (ok header)) = bind (commit o c) λ parent'. done (some (ok header), parent')
  settle parent c (some (err error)) = done (some (err error), parent)
  settle parent c none = done (none, parent)

  unfoldable pub read_from_buffer :
      Read (BufferReader o) (Result StreamHeader StreamHeaderReadError)
  unfolding read child commit
  read_from_buffer parent = bind (child o parent) λ c.
      bind (read (buffer_reader o) c.reader)
        λ (found, reader). settle parent (record { reader = reader; parent = c.parent }) found

  unfoldable pub write_to_buffer : StreamHeader → Write (BufferWriter o)
  unfolding write write_size capacity_writer
  write_to_buffer h w = bind (write_size h) λ n.
      if ltb (capacity_writer o w) n
      then done (err end_of_buffer, w)
      else (bind (write (buffer_writer o) h w)
          λ (result, w'). bind (expect_ok result) λ _. done (ok tt, w'))
