-- ===== src/StreamHeader/Tests.antt =====
-- Tests of the stream headers, on the cursor that stands for `octets`.
use wtransport.Prelude.{ℕ, ◌≡◌, refl, arith, List, [], ◌∷◌, ◌++◌, some}
use wtransport.Quic.Encoding.{encode}
use wtransport.Quic.Octets.{unread}
use wtransport.Quic.Octets.Cursor.{Cursor, cursor, cursor-OctetsLaws, over}
use wtransport.StreamHeader.{StreamHeader, read_from_buffer}
use wtransport.StreamHeader.Kind
use wtransport.StreamHeader.Kind.{webtransport}
use wtransport.StreamHeader.Wire.{IsHeader, wire, decode_header}
use wtransport.StreamHeader.Buffered.{Settled, read_header-Settled}

abbrev in_session : StreamHeader
in_session = record {
  kind = webtransport;
  session_id = some (record { session_stream = record { varint = 4 } });
}

in_session-IsHeader : IsHeader in_session
in_session-IsHeader = record {
  kind_ok = tt;
  shape = (_, refl, record { in_range = omega arith; quarter = omega arith });
}

wire-in_session : wire in_session ≡ 0x40 ∷ 0x54 ∷ 4 ∷ []
unfolding wire encode Kind.id
wire-in_session = refl

read_header-Settled_example :
    Settled cursor cursor-OctetsLaws
      (over (3 ∷ 9 ∷ []))
      (read_from_buffer cursor (over (3 ∷ 9 ∷ [])))
      (decode_header (unread cursor (over (3 ∷ 9 ∷ []))))
read_header-Settled_example = read_header-Settled cursor cursor-OctetsLaws (over (3 ∷ 9 ∷ []))

abbrev whole : List ℕ
whole = wire in_session ++ 1 ∷ []

abbrev no_room : Cursor
no_room = over (0 ∷ 0 ∷ [])
