-- ===== src/ErrorCode/Codes.antt =====
-- The codes tell the errors apart, and fit the sizes on which the callers rely.
use Prim.Native.String.{String}
use text.Mathlib.Text as Text
use wtransport.Prelude.{ℕ, ◌≡◌, refl, arith, ◌==◌, Option, some, none, if◌then◌else◌}
use wtransport.VarInt.{IsVarInt}
use wtransport.ErrorCode.{ErrorCode, to_code, display}

-- The error of each code, written as its inverse.
of_code : ℕ → Option ErrorCode
of_code c =
    if c == 0x33
    then some ErrorCode.datagram
    else if c == 0x0100
    then some ErrorCode.no_error
    else if c == 0x0103
    then some ErrorCode.stream_creation
    else if c == 0x0104
    then some ErrorCode.closed_critical_stream
    else if c == 0x0105
    then some ErrorCode.frame_unexpected
    else if c == 0x0106
    then some ErrorCode.frame
    else if c == 0x0108
    then some ErrorCode.id
    else if c == 0x0109
    then some ErrorCode.settings
    else if c == 0x010a
    then some ErrorCode.missing_settings
    else if c == 0x010e
    then some ErrorCode.message
    else if c == 0x0200
    then some ErrorCode.decompression
    else if c == 0x3994bd84
    then some ErrorCode.buffered_stream_rejected
    else if c == 0x170d7b68
    then some ErrorCode.session_gone
    else none

of_code-to_code : (e : ErrorCode) → of_code (to_code e) ≡ some e
unfolding of_code to_code
of_code-to_code ErrorCode.datagram = refl
of_code-to_code _ = refl

-- No two errors share a code.
pub to_code-injective : (e d : ErrorCode) → to_code e ≡ to_code d → e ≡ d
to_code-injective e d h = cc (of_code-to_code e, of_code-to_code d)

-- Every code is a `u32`, hence a varint that QUIC can carry.
pub to_code-IsVarInt : (e : ErrorCode) → IsVarInt (to_code e)
unfolding to_code
to_code-IsVarInt ErrorCode.datagram = omega arith
to_code-IsVarInt _ = omega arith

-- The error of each name.
of_name : String → Option ErrorCode
of_name name =
    if Text.◌==◌ name "DatagramError"
    then some ErrorCode.datagram
    else if Text.◌==◌ name "NoError"
    then some ErrorCode.no_error
    else if Text.◌==◌ name "StreamCreationError"
    then some ErrorCode.stream_creation
    else if Text.◌==◌ name "ClosedCriticalStreamError"
    then some ErrorCode.closed_critical_stream
    else if Text.◌==◌ name "FrameUnexpectedError"
    then some ErrorCode.frame_unexpected
    else if Text.◌==◌ name "FrameError"
    then some ErrorCode.frame
    else if Text.◌==◌ name "IdError"
    then some ErrorCode.id
    else if Text.◌==◌ name "SettingsError"
    then some ErrorCode.settings
    else if Text.◌==◌ name "MissingSettingsError"
    then some ErrorCode.missing_settings
    else if Text.◌==◌ name "MessageError"
    then some ErrorCode.message
    else if Text.◌==◌ name "DecompressionError"
    then some ErrorCode.decompression
    else if Text.◌==◌ name "BufferedStreamRejected"
    then some ErrorCode.buffered_stream_rejected
    else if Text.◌==◌ name "SessionGone"
    then some ErrorCode.session_gone
    else none

of_name-display : (e : ErrorCode) → of_name (display e) ≡ some e
unfolding of_name display
of_name-display ErrorCode.datagram = refl
of_name-display _ = refl

-- No two errors are shown by the same name.
pub display-injective : (e d : ErrorCode) → display e ≡ display d → e ≡ d
display-injective e d h = cc (of_name-display e, of_name-display d)
