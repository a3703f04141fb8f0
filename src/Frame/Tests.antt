-- ===== src/Frame/Tests.antt =====
-- Tests of `frame.rs`, on the cursor that stands for `octets`.
use wtransport.Prelude.{
  ℕ, ◌≤◌, ◌<◌, ◌≡◌, ◌⊎◌, refl, arith, true, false, List, [], ◌∷◌, ◌++◌, none, some, ok, err, done,
  length,
}
use wtransport.Quic.Encoding.{encode, decode}
use wtransport.Quic.Octets.{unread}
use wtransport.Quic.Octets.Cursor.{Cursor, cursor, cursor-OctetsLaws, over}
use wtransport.Bytes.Writer.{end_of_buffer}
use wtransport.Bytes.Buffer.{buffer_reader, buffer_writer}
use wtransport.Bytes.Buffer.Laws.{buffer-ReaderLaws, buffer-WriterLaws, written_so_far, has_room}
use wtransport.Frame.{
  Frame, read, write, write_size, read_from_buffer, write_to_buffer, invalid_session_id,
}
use wtransport.Frame.Kind
use wtransport.Frame.Kind.{headers, webtransport}
use wtransport.Frame.Wire.{IsFrame, wire, decode_body, decode_frame}
use wtransport.Frame.Reading.{read_prefix}
use wtransport.Frame.Writing.{write_cases, write_size-wire}
use wtransport.Frame.Buffered.{Settled, read_from_buffer-Settled, write_to_buffer_cases}

abbrev three_bytes : Frame
three_bytes = record { kind = headers; payload = 7 ∷ 8 ∷ 9 ∷ []; session_id = none }

three_bytes-IsFrame : IsFrame three_bytes
three_bytes-IsFrame = record { kind_ok = tt; short = omega arith; shape = refl }

abbrev in_session : Frame
in_session = record {
  kind = webtransport;
  payload = [];
  session_id = some (record { session_stream = record { varint = 4 } });
}

in_session-IsFrame : IsFrame in_session
in_session-IsFrame = record {
  kind_ok = tt;
  short = omega arith;
  shape = (refl, (_, refl, record { in_range = omega arith; quarter = omega arith }));
}

wire-three_bytes : wire three_bytes ≡ 1 ∷ 3 ∷ 7 ∷ 8 ∷ 9 ∷ []
unfolding wire encode Kind.id
wire-three_bytes = refl

-- The session id 5 belongs to a stream of the server.
bad_session : decode_frame (0x40 ∷ 0x41 ∷ 5 ∷ []) ≡ some (err invalid_session_id, [])
unfolding decode_frame decode_body decode Kind.parse
bad_session = refl

read_from_buffer-Settled_example :
    Settled cursor cursor-OctetsLaws
      (over (0x40 ∷ 0x41 ∷ 5 ∷ []))
      (read_from_buffer cursor (over (0x40 ∷ 0x41 ∷ 5 ∷ [])))
      (decode_frame (unread cursor (over (0x40 ∷ 0x41 ∷ 5 ∷ []))))
read_from_buffer-Settled_example =
    read_from_buffer-Settled cursor cursor-OctetsLaws (over (0x40 ∷ 0x41 ∷ 5 ∷ []))

abbrev whole : List ℕ
whole = wire in_session ++ 1 ∷ []

read_prefix_example :
    (r' : Cursor) × (read (buffer_reader cursor) (over (1 ∷ 3 ∷ 7 ∷ 8 ∷ [])) ≡ done (none, r'))
    × (cursor.buf r' ≡ 1 ∷ 3 ∷ 7 ∷ 8 ∷ [])
read_prefix_example =
    read_prefix (buffer_reader cursor)
      (buffer-ReaderLaws cursor cursor-OctetsLaws (1 ∷ 3 ∷ 7 ∷ 8 ∷ [])) (over (1 ∷ 3 ∷ 7 ∷ 8 ∷ []))
      three_bytes 9 [] refl three_bytes-IsFrame wire-three_bytes

abbrev room : Cursor
room = over (0 ∷ 0 ∷ 0 ∷ 0 ∷ 0 ∷ 0 ∷ [])

write_cases_example :
    ((has_room cursor cursor-OctetsLaws room (length (wire three_bytes)) ≡ true)
      × ((w' : Cursor) × (write (buffer_writer cursor) three_bytes room ≡ done (ok tt, w'))
          × (written_so_far cursor cursor-OctetsLaws w'
              ≡ written_so_far cursor cursor-OctetsLaws room ++ wire three_bytes)))
    ⊎ ((has_room cursor cursor-OctetsLaws room (length (wire three_bytes)) ≡ false)
        × ((w' : Cursor) × (write (buffer_writer cursor) three_bytes room
              ≡ done (err end_of_buffer, w'))))
write_cases_example =
    write_cases (buffer_writer cursor) (buffer-WriterLaws cursor cursor-OctetsLaws) three_bytes room
      three_bytes-IsFrame

write_to_buffer_cases_example :
    ((length (wire three_bytes) ≤ cursor.cap_mut room)
      × ((w' : Cursor) × (write_to_buffer cursor three_bytes room ≡ done (ok tt, w'))
          × (written_so_far cursor cursor-OctetsLaws w'
              ≡ written_so_far cursor cursor-OctetsLaws room ++ wire three_bytes)))
    ⊎ ((cursor.cap_mut room < length (wire three_bytes))
        × (write_to_buffer cursor three_bytes room ≡ done (err end_of_buffer, room)))
write_to_buffer_cases_example =
    write_to_buffer_cases cursor cursor-OctetsLaws three_bytes room three_bytes-IsFrame

write_size-wire_example : write_size in_session ≡ done (length (wire in_session))
write_size-wire_example = write_size-wire in_session in_session-IsFrame
