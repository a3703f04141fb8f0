-- ===== src/Frame.antt =====
-- wtransport-proto/src/frame.rs: HTTP/3 frames, read from any `BytesReader` and written to any
-- `BytesWriter`. The capacity needed is a sum that stays below 2 ^ 63, so it never wraps.
pub mod Kind
pub mod Wire
pub mod Reading
pub mod Writing
pub mod Buffered
pub mod Async
pub mod Tests
use wtransport.Prelude.{
  ℕ, ◌+◌, Bool, true, false, List, [], ◌∷◌, Option, none, some, Result, ok, err, Outcome, done,
  bind, assert, expect, expect_ok, ltb, leb, ◌==◌, if◌then◌else◌, length,
}
use wtransport.VarInt.{VarInt, varint_max, size, try_from_u64}
use wtransport.Ids.SessionId
use wtransport.Ids.SessionId.{SessionId, InvalidSessionId}
use wtransport.Quic.Octets.{Octets}
use wtransport.Bytes.Reader.{Read, BytesReader, ◌>>=◌, pure, lift}
use wtransport.Bytes.Writer.{Write, BytesWriter, ◌>>◌, given, EndOfBuffer, end_of_buffer}
use wtransport.Bytes.Buffer.{
  BufferReader, BufferReaderChild, BufferWriter, buffer_reader, buffer_writer, child, commit,
  capacity_writer,
}
use Kind.{FrameKind, headers, settings, webtransport, exercise, is_id_exercise, is_webtransport}
use Kind

pub data FrameReadError : Type 0 where
  unknown_frame invalid_session_id : FrameReadError

pub record Frame : Type 0 where
  pub kind : FrameKind
  pub payload : List ℕ
  pub session_id : Option SessionId

abbrev is_empty : List ℕ → Bool
is_empty [] = true
is_empty (b ∷ bs) = false

abbrev is_some : Option SessionId → Bool
is_some (some s) = true
is_some none = false

-- The debug assertions of `new`.
abbrev new_checks : FrameKind → List ℕ → Option SessionId → Outcome (Unit {0})
new_checks (exercise id) payload session_id = assert (is_id_exercise id)
new_checks webtransport payload session_id =
    bind (assert (is_empty payload)) λ _. assert (is_some session_id)
new_checks _ payload session_id = done tt

unfoldable pub new : FrameKind → List ℕ → Option SessionId → Outcome Frame
unfolding is_id_exercise
new kind payload session_id = bind (new_checks kind payload session_id) λ _.
    bind (assert (leb (length payload) varint_max))
      λ _. done (record { kind = kind; payload = payload; session_id = session_id })

unfoldable pub new_headers : List ℕ → Outcome Frame
unfolding new
new_headers payload = new headers payload none

unfoldable pub new_settings : List ℕ → Outcome Frame
unfolding new
new_settings payload = new settings payload none

unfoldable pub new_webtransport : SessionId → Outcome Frame
unfolding new
new_webtransport session_id = new webtransport [] (some session_id)

unfoldable pub new_exercise : VarInt → List ℕ → Outcome Frame
unfolding new is_id_exercise
new_exercise id payload = bind (assert (is_id_exercise id)) λ _. new (exercise id) payload none

-- The method `session_id`.
unfoldable pub get_session_id : Frame → Outcome (Option SessionId)
get_session_id f =
    if is_webtransport f.kind then (bind (expect f.session_id) λ s. done (some s)) else done none

module _ {R : Type 0} (reader : BytesReader R) where
  abbrev read_session : Result SessionId InvalidSessionId → Read R (Result Frame FrameReadError)
  read_session (ok session_id) = lift (new_webtransport session_id) >>= λ frame. pure (ok frame)
  read_session (err _) = pure (err FrameReadError.invalid_session_id)

  unfoldable pub read_kind : FrameKind → Read R (Result Frame FrameReadError)
  unfolding new new_webtransport SessionId.try_from_varint
  read_kind kind =
      if is_webtransport kind
      then (do varint ← reader.get_varint; read_session (SessionId.try_from_varint varint))
      else (do
        payload_len ← reader.get_varint
        payload ← reader.get_bytes payload_len
        frame ← lift (new kind payload none)
        pure (ok frame))

  abbrev read_parsed : Option FrameKind → Read R (Result Frame FrameReadError)
  unfolding read_kind
  read_parsed none = pure (err unknown_frame)
  read_parsed (some kind) = read_kind kind

  unfoldable pub read : Read R (Result Frame FrameReadError)
  unfolding read_kind Kind.parse
  read = do kind_id ← reader.get_varint; read_parsed (Kind.parse kind_id)

module _ {W : Type 0} (writer : BytesWriter W) where
  abbrev write_body : List ℕ → Option SessionId → Write W
  write_body payload (some session_id) = writer.put_varint session_id.session_stream.varint
  write_body payload none =
      given (expect_ok (try_from_u64 (length payload)))
        λ len. writer.put_varint len >> writer.put_bytes payload

  unfoldable pub write : Frame → Write W
  unfolding Kind.id get_session_id try_from_u64
  write f = writer.put_varint (Kind.id f.kind) >> given (get_session_id f) (write_body f.payload)

abbrev body_size : List ℕ → Option SessionId → Outcome ℕ
body_size payload (some session_id) = size session_id.session_stream.varint
body_size payload none =
    bind (expect_ok (try_from_u64 (length payload)))
      λ len. bind (size len) λ n. done (n + length payload)

unfoldable pub write_size : Frame → Outcome ℕ
unfolding Kind.id get_session_id size try_from_u64
write_size f = bind (get_session_id f) λ session_id.
    bind (size (Kind.id f.kind))
      λ head. bind (body_size f.payload session_id) λ body. done (head + body)

module _ (o : Octets) where
  -- What `read_from_buffer` makes of the child's read.
  abbrev settle :
      BufferReader o
      → BufferReaderChild o
      → Option (Result Frame FrameReadError)
      → Outcome (Option (Result Frame FrameReadError) × BufferReader o)
  settle parent c (some (ok frame)) = bind (commit o c) λ parent'. done (some (ok frame), parent')
  settle parent c (some (err error)) = done (some (err error), parent)
  settle parent c none = done (none, parent)

  unfoldable pub read_from_buffer : Read (BufferReader o) (Result Frame FrameReadError)
  unfolding read child commit
  read_from_buffer parent = bind (child o parent) λ c.
      bind (read (buffer_reader o) c.reader)
        λ (found, reader). settle parent (record { reader = reader; parent = c.parent }) found

  unfoldable pub write_to_buffer : Frame → Write (BufferWriter o)
  unfolding write write_size capacity_writer
  write_to_buffer f w = bind (write_size f) λ n.
      if ltb (capacity_writer o w) n
      then done (err end_of_buffer, w)
      else (bind (write (buffer_writer o) f w)
          λ (result, w'). bind (expect_ok result) λ _. done (ok tt, w'))
