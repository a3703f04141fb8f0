-- ===== src/Bytes/Tests.antt =====
-- Tests of the readers and writers, on the cursor that stands for `octets`.
use wtransport.Prelude.{ℕ, List, [], ◌∷◌}
use wtransport.Quic.Octets.Cursor.{cursor}
use wtransport.Bytes.Buffer.{BufferReaderChild}

abbrev two_and_more : List ℕ
two_and_more = 0x7b ∷ 0xbd ∷ 1 ∷ []

-- A child that has read two bytes of the three that its parent had left.
abbrev advanced : BufferReaderChild cursor
advanced = record {
  reader = record { passed = 5 ∷ 6 ∷ []; left = 7 ∷ [] };
  parent = record { passed = 4 ∷ []; left = 5 ∷ 6 ∷ 7 ∷ [] };
}
