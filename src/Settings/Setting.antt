-- ===== src/Settings/Setting.antt =====
-- wtransport-proto/src/settings.rs: the settings of a connection and their ids.
pub mod Laws
use wtransport.Prelude.{
  ℕ, ◌-◌, ◌%◌, Bool, true, false, ◌&&◌, ◌||◌, Result, ok, err, leb, ◌==◌, if◌then◌else◌,
}
use wtransport.VarInt.{VarInt, from_u32}

pub data ParseError : Type 0 where
  reserved_setting unknown_setting : ParseError

pub data SettingId : Type 0 where
  qpack_max_table_capacity max_field_section_size qpack_blocked_streams : SettingId
  h3_datagram enable_webtransport : SettingId
  exercise : VarInt → SettingId

-- `setting_ids`
abbrev pub settings_qpack_max_table_capacity : VarInt
settings_qpack_max_table_capacity = 0x01

abbrev pub settings_max_field_section_size : VarInt
settings_max_field_section_size = 0x06

abbrev pub settings_qpack_blocked_streams : VarInt
settings_qpack_blocked_streams = 0x07

abbrev pub settings_h3_datagram : VarInt
settings_h3_datagram = 0xffd277

abbrev pub settings_enable_webtransport : VarInt
settings_enable_webtransport = 0x2b603742

unfoldable pub is_reserved : VarInt → Bool
is_reserved id = id == 0x0 || id == 0x2 || id == 0x3 || id == 0x4 || id == 0x5

-- The subtraction is made only where it does not underflow.
unfoldable pub is_exercise : VarInt → Bool
is_exercise id = leb 0x21 id && ((id - 0x21) % 0x1f == 0)

unfoldable pub parse : VarInt → Result SettingId ParseError
unfolding is_reserved is_exercise
parse id =
    if is_reserved id
    then err reserved_setting
    else if is_exercise id
    then ok (exercise id)
    else if id == settings_qpack_max_table_capacity
    then ok qpack_max_table_capacity
    else if id == settings_max_field_section_size
    then ok max_field_section_size
    else if id == settings_qpack_blocked_streams
    then ok qpack_blocked_streams
    else if id == settings_h3_datagram
    then ok h3_datagram
    else if id == settings_enable_webtransport
    then ok enable_webtransport
    else err unknown_setting

unfoldable pub id : SettingId → VarInt
id qpack_max_table_capacity = settings_qpack_max_table_capacity
id max_field_section_size = settings_max_field_section_size
id qpack_blocked_streams = settings_qpack_blocked_streams
id h3_datagram = settings_h3_datagram
id enable_webtransport = settings_enable_webtransport
id (exercise i) = i

-- The derived `Eq`, by which the map finds a setting.
abbrev pub same : SettingId → SettingId → Bool
same qpack_max_table_capacity qpack_max_table_capacity = true
same max_field_section_size max_field_section_size = true
same qpack_blocked_streams qpack_blocked_streams = true
same h3_datagram h3_datagram = true
same enable_webtransport enable_webtransport = true
same (exercise i) (exercise j) = i == j
same _ _ = false
