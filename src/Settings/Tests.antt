-- ===== src/Settings/Tests.antt =====
-- Tests of `settings.rs`, on the cursor that stands for `octets`.
use wtransport.Prelude.{ℕ, ◌≤◌, ◌≡◌, ◌⊎◌, refl, arith, List, [], ◌∷◌, none, some, ok, done, length}
use wtransport.VarInt.{VarInt, varint_max}
use wtransport.Quic.Encoding.{encode, decode}
use wtransport.Quic.Octets.Cursor.{cursor, cursor-OctetsLaws}
use wtransport.Frame.{Frame}
use wtransport.Frame.Kind.{FrameKind}
use wtransport.Settings.{
  Settings, get, with_enable_webtransport, with_h3_datagrams, with_frame, generate_frame,
}
use wtransport.Settings.Setting.{enable_webtransport, h3_datagram, parse, id}
use wtransport.Settings.Pairs.{Pairs, CutOff, collect, cut_short}
use wtransport.Settings.Reading.{with_frame-collect}
use wtransport.Settings.Writing.{IsSettings, settings_bytes, settings_frame}
use wtransport.Settings.RoundTrip.{with_frame-generate_frame, with_frame-IsSettings}

abbrev usual : Settings
usual = (enable_webtransport, 1) ∷ (h3_datagram, 1) ∷ []

built : with_h3_datagrams (with_enable_webtransport []) ≡ usual
unfolding with_h3_datagrams with_enable_webtransport
built = refl

usual-IsSettings : IsSettings usual
unfolding get
usual-IsSettings = (tt, omega arith, refl, (tt, omega arith, refl, tt))

usual_short : length (settings_bytes usual) ≤ varint_max
unfolding id encode
usual_short = omega arith

-- The setting 1 with the value 0, twice.
abbrev twice : Frame
twice = record { kind = FrameKind.settings; payload = 1 ∷ 0 ∷ 1 ∷ 0 ∷ []; session_id = none }

with_frame-collect_example :
    (ps : List (VarInt × VarInt)) × (tail : List ℕ) × Pairs twice.payload ps tail
    × (((tail ≡ []) × (with_frame cursor twice ≡ done (some (collect ps []))))
        ⊎ (CutOff tail × (with_frame cursor twice ≡ done (some (cut_short (collect ps []))))))
with_frame-collect_example = with_frame-collect cursor cursor-OctetsLaws twice refl

with_frame-generate_frame_example :
    (f : Frame) × (generate_frame cursor usual ≡ done f)
    × (with_frame cursor f ≡ done (some (ok usual)))
with_frame-generate_frame_example =
    with_frame-generate_frame cursor cursor-OctetsLaws usual usual-IsSettings usual_short

with_frame-usual : with_frame cursor (settings_frame usual) ≡ done (some (ok usual))
unfolding with_frame parse id decode encode get
with_frame-usual = refl

with_frame-IsSettings_example : IsSettings usual
with_frame-IsSettings_example =
    with_frame-IsSettings cursor cursor-OctetsLaws (settings_frame usual) refl with_frame-usual

abbrev two_zeros : List ℕ
two_zeros = 0 ∷ 0 ∷ []

abbrev three : VarInt
three = 3
