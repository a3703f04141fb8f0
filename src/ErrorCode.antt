-- ===== src/ErrorCode.antt =====
-- wtransport-proto/src/error.rs: the HTTP/3, QPACK and WebTransport errors and their codes.
pub mod Codes
pub mod Tests
use Prim.Native.String.{String}
use wtransport.VarInt.{VarInt}

pub data ErrorCode : Type 0 where
  datagram no_error stream_creation closed_critical_stream frame_unexpected frame id : ErrorCode
  settings missing_settings message decompression buffered_stream_rejected : ErrorCode
  session_gone : ErrorCode

-- `h3_error_codes`, `qpack_error_codes` and `wt_error_codes`, which `from_u32` makes.
abbrev pub h3_datagram_error : VarInt
h3_datagram_error = 0x33

abbrev pub h3_no_error : VarInt
h3_no_error = 0x0100

abbrev pub h3_stream_creation_error : VarInt
h3_stream_creation_error = 0x0103

abbrev pub h3_closed_critical_stream : VarInt
h3_closed_critical_stream = 0x0104

abbrev pub h3_frame_unexpected : VarInt
h3_frame_unexpected = 0x0105

abbrev pub h3_frame_error : VarInt
h3_frame_error = 0x0106

abbrev pub h3_id_error : VarInt
h3_id_error = 0x0108

abbrev pub h3_settings_error : VarInt
h3_settings_error = 0x0109

abbrev pub h3_missing_settings : VarInt
h3_missing_settings = 0x010a

abbrev pub h3_message_error : VarInt
h3_message_error = 0x010e

abbrev pub qpack_decompression_failed : VarInt
qpack_decompression_failed = 0x0200

abbrev pub webtransport_buffered_stream_rejected : VarInt
webtransport_buffered_stream_rejected = 0x3994bd84

abbrev pub webtransport_session_gone : VarInt
webtransport_session_gone = 0x170d7b68

unfoldable pub to_code : ErrorCode → VarInt
to_code datagram = h3_datagram_error
to_code no_error = h3_no_error
to_code stream_creation = h3_stream_creation_error
to_code closed_critical_stream = h3_closed_critical_stream
to_code frame_unexpected = h3_frame_unexpected
to_code frame = h3_frame_error
to_code id = h3_id_error
to_code settings = h3_settings_error
to_code missing_settings = h3_missing_settings
to_code message = h3_message_error
to_code decompression = qpack_decompression_failed
to_code buffered_stream_rejected = webtransport_buffered_stream_rejected
to_code session_gone = webtransport_session_gone

-- `Display`
unfoldable pub display : ErrorCode → String
display datagram = "DatagramError"
display no_error = "NoError"
display stream_creation = "StreamCreationError"
display closed_critical_stream = "ClosedCriticalStreamError"
display frame_unexpected = "FrameUnexpectedError"
display frame = "FrameError"
display id = "IdError"
display settings = "SettingsError"
display missing_settings = "MissingSettingsError"
display message = "MessageError"
display decompression = "DecompressionError"
display buffered_stream_rejected = "BufferedStreamRejected"
display session_gone = "SessionGone"
