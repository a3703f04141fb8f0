-- ===== src/Datagram/Tests.antt =====
-- Tests of the datagrams, on the cursor that stands for `octets`.
use wtransport.Prelude.{ℕ, ◌≡◌, arith, List, [], ◌∷◌, some, none, ok, done, ◌==◌, if◌then◌else◌}
use wtransport.Ids.SessionId.{SessionId}
use wtransport.Quic.Octets.Cursor.{cursor, cursor-OctetsLaws}
use wtransport.Datagram.{Datagram}
use wtransport.Datagram.App
use wtransport.Datagram.App.Laws.{read-write}

abbrev of_two : Datagram
of_two = record { qstream_id = record { varint = 2 }; payload = 5 ∷ 6 ∷ [] }

abbrev ones : List ℕ
ones = 1 ∷ 1 ∷ 1 ∷ 1 ∷ []

abbrev four : SessionId
four = record { session_stream = record { varint = 4 } }

abbrev eight : SessionId
eight = record { session_stream = record { varint = 8 } }

read-write_example :
    (d : App.Datagram) × (App.write cursor eight (7 ∷ []) ≡ done d)
    × (App.read cursor four d.quic_dgram
        ≡ done (
            ok
              (if four.session_stream.varint == eight.session_stream.varint then some d else none)))
    × (App.deref d ≡ done (7 ∷ []))
read-write_example =
    read-write cursor cursor-OctetsLaws four eight (7 ∷ [])
      (record { in_range = omega arith; quarter = omega arith })
