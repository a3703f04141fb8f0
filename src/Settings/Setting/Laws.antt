-- ===== src/Settings/Setting/Laws.antt =====
-- Settings and their ids stand for each other, and no reserved id is a setting.
use wtransport.Prelude.{◌≤◌, ◌≡◌, ◌↔◌, ◌⊎◌, refl, ap, arith, true, ok, err}
use wtransport.VarInt.{VarInt, IsVarInt}
use wtransport.Settings.Setting.{
  SettingId, reserved_setting, exercise, qpack_max_table_capacity, max_field_section_size,
  qpack_blocked_streams, h3_datagram, enable_webtransport, is_exercise, parse, id, same,
}

-- An exercise setting has an id of the form `0x1f * N + 0x21`.
abbrev pub IsSetting : SettingId → Type 0
IsSetting (exercise i) = (is_exercise i ≡ true) × IsVarInt i
IsSetting _ = Unit {0}

pub parse-id : (k : SettingId) → IsSetting k → parse (id k) ≡ ok k
unfolding parse id
parse-id qpack_max_table_capacity h = refl
parse-id max_field_section_size h = refl
parse-id qpack_blocked_streams h = refl
parse-id h3_datagram h = refl
parse-id enable_webtransport h = refl
parse-id (exercise i) h = ground arith

pub id-IsVarInt : (k : SettingId) → IsSetting k → IsVarInt (id k)
unfolding id
id-IsVarInt (exercise i) h = h.1
id-IsVarInt _ h = omega arith

pub id-parse : (i : VarInt) {k : SettingId} → IsVarInt i → parse i ≡ ok k → (id k ≡ i) × IsSetting k
unfolding parse id
id-parse i {k = qpack_max_table_capacity} h e = ground arith
id-parse i {k = max_field_section_size} h e = ground arith
id-parse i {k = qpack_blocked_streams} h e = ground arith
id-parse i {k = h3_datagram} h e = ground arith
id-parse i {k = enable_webtransport} h e = ground arith
id-parse i {k = exercise j} h e = ground arith

-- Exactly 0 and 2 to 5 are reserved.
pub parse_reserved_iff :
    (i : VarInt) → (parse i ≡ err reserved_setting) ↔ ((i ≡ 0) ⊎ ((2 ≤ i) × (i ≤ 5)))
unfolding parse
parse_reserved_iff i = ground arith

pub same_refl : (k : SettingId) → same k k ≡ true
same_refl (exercise i) = ground arith
same_refl qpack_max_table_capacity = refl
same_refl max_field_section_size = refl
same_refl qpack_blocked_streams = refl
same_refl h3_datagram = refl
same_refl enable_webtransport = refl

pub same-eq : (j k : SettingId) → same j k ≡ true → j ≡ k
same-eq qpack_max_table_capacity qpack_max_table_capacity e = refl
same-eq max_field_section_size max_field_section_size e = refl
same-eq qpack_blocked_streams qpack_blocked_streams e = refl
same-eq h3_datagram h3_datagram e = refl
same-eq enable_webtransport enable_webtransport e = refl
same-eq (exercise i) (exercise j) e = let p : i ≡ j = ground arith in ap exercise p
same-eq _ _ e = cc
