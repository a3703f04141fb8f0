-- ===== src/StreamHeader/Kind.antt =====
-- wtransport-proto/src/stream.rs: the types of a unidirectional stream and their ids.
pub mod Laws
use wtransport.Prelude.{
  ℕ, ◌-◌, ◌%◌, Bool, true, false, ◌&&◌, Option, none, some, leb, ◌==◌, if◌then◌else◌,
}
use wtransport.VarInt.{VarInt}

pub data StreamKind : Type 0 where
  control qpack_encoder qpack_decoder webtransport : StreamKind
  exercise : VarInt → StreamKind

-- The subtraction is made only where it does not underflow.
unfoldable pub is_id_exercise : VarInt → Bool
is_id_exercise id = leb 0x21 id && ((id - 0x21) % 0x1f == 0)

-- `stream_type_ids`
abbrev pub control_stream : VarInt
control_stream = 0x0

abbrev pub qpack_encoder_stream : VarInt
qpack_encoder_stream = 0x02

abbrev pub qpack_decoder_stream : VarInt
qpack_decoder_stream = 0x03

abbrev pub webtransport_stream : VarInt
webtransport_stream = 0x54

unfoldable pub parse : VarInt → Option StreamKind
unfolding is_id_exercise
parse id =
    if id == control_stream
    then some control
    else if id == qpack_encoder_stream
    then some qpack_encoder
    else if id == qpack_decoder_stream
    then some qpack_decoder
    else if id == webtransport_stream
    then some webtransport
    else if is_id_exercise id
    then some (exercise id)
    else none

unfoldable pub id : StreamKind → VarInt
id control = control_stream
id qpack_encoder = qpack_encoder_stream
id qpack_decoder = qpack_decoder_stream
id webtransport = webtransport_stream
id (exercise i) = i

-- `matches!(kind, StreamKind::WebTransport)`
abbrev pub is_webtransport : StreamKind → Bool
is_webtransport webtransport = true
is_webtransport _ = false
