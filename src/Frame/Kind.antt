-- ===== src/Frame/Kind.antt =====
-- wtransport-proto/src/frame.rs: the types of a frame and their ids. `data` is a reserved word.
pub mod Laws
use wtransport.Prelude.{
  ℕ, ◌-◌, ◌%◌, Bool, true, false, ◌&&◌, Option, none, some, leb, ◌==◌, if◌then◌else◌,
}
use wtransport.VarInt.{VarInt}

pub data FrameKind : Type 0 where
  data_frame headers settings webtransport : FrameKind
  exercise : VarInt → FrameKind

-- The subtraction is made only where it does not underflow.
unfoldable pub is_id_exercise : VarInt → Bool
is_id_exercise id = leb 0x21 id && ((id - 0x21) % 0x1f == 0)

-- `frame_kind_ids`
abbrev pub data_id : VarInt
data_id = 0x00

abbrev pub headers_id : VarInt
headers_id = 0x01

abbrev pub settings_id : VarInt
settings_id = 0x04

abbrev pub webtransport_stream_id : VarInt
webtransport_stream_id = 0x41

unfoldable pub parse : VarInt → Option FrameKind
unfolding is_id_exercise
parse id =
    if id == data_id
    then some data_frame
    else if id == headers_id
    then some headers
    else if id == settings_id
    then some settings
    else if id == webtransport_stream_id
    then some webtransport
    else if is_id_exercise id
    then some (exercise id)
    else none

unfoldable pub id : FrameKind → VarInt
id data_frame = data_id
id headers = headers_id
id settings = settings_id
id webtransport = webtransport_stream_id
id (exercise i) = i

-- `matches!(kind, FrameKind::WebTransport)`
abbrev pub is_webtransport : FrameKind → Bool
is_webtransport webtransport = true
is_webtransport _ = false
