-- ===== src/Stream/Errors.antt =====
-- wtransport/src/engine/stream.rs: the errors of the streams and the conversions by which `?` makes
-- them of those of wtransport-proto; and `StreamError` of wtransport/src/error.rs.
use wtransport.Bytes.Async.{IoError}
use wtransport.Frame.Async.{FrameReadAsyncError}
use wtransport.Frame
use wtransport.StreamHeader.Async.{StreamHeaderReadAsyncError}
use wtransport.StreamHeader

pub data FrameReadError : Type 0 where
  unknown_frame invalid_session_id end_of_stream connection_closed : FrameReadError

pub data FrameWriteError : Type 0 where
  end_of_stream connection_closed : FrameWriteError

pub data UpgradeError : Type 0 where
  unknown_stream invalid_session_id connection_closed end_of_stream : UpgradeError

pub data StreamError : Type 0 where
  connection_closed stopped : StreamError

unfoldable pub io_to_upgrade : IoError → UpgradeError
io_to_upgrade IoError.not_connected = UpgradeError.connection_closed
io_to_upgrade IoError.closed = UpgradeError.end_of_stream

unfoldable pub read_to_upgrade : StreamHeaderReadAsyncError → UpgradeError
unfolding io_to_upgrade
read_to_upgrade (StreamHeaderReadAsyncError.stream_header StreamHeader.unknown_stream) =
    UpgradeError.unknown_stream
read_to_upgrade (StreamHeaderReadAsyncError.stream_header StreamHeader.invalid_session_id) =
    UpgradeError.invalid_session_id
read_to_upgrade (StreamHeaderReadAsyncError.io io_error) = io_to_upgrade io_error

unfoldable pub io_to_frame_read : IoError → FrameReadError
io_to_frame_read IoError.not_connected = FrameReadError.connection_closed
io_to_frame_read IoError.closed = FrameReadError.end_of_stream

unfoldable pub read_to_frame_read : FrameReadAsyncError → FrameReadError
unfolding io_to_frame_read
read_to_frame_read (FrameReadAsyncError.frame Frame.unknown_frame) = FrameReadError.unknown_frame
read_to_frame_read (FrameReadAsyncError.frame Frame.invalid_session_id) =
    FrameReadError.invalid_session_id
read_to_frame_read (FrameReadAsyncError.io io_error) = io_to_frame_read io_error

unfoldable pub io_to_frame_write : IoError → FrameWriteError
io_to_frame_write IoError.not_connected = FrameWriteError.connection_closed
io_to_frame_write IoError.closed = FrameWriteError.end_of_stream
