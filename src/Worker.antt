-- ===== src/Worker.antt =====
-- wtransport/src/engine/worker.rs: the streams that the peer opens for HTTP/3 itself, and the errors
-- that end a connection. What an `await` returns is an argument of the definition that awaits it.
pub mod Streams
pub mod Invariant
pub mod Handling
pub mod Reaches
pub mod Accept
pub mod Connects
pub mod Requests
pub mod Local
pub mod Run
pub mod Tests
use Prim.Native.String.{String}
use wtransport.Prelude.{Bool, true, false, Option, none, some, Result, ok, err, Outcome, done}
use wtransport.ErrorCode.{ErrorCode}
pub use wtransport.Stream.Errors.{FrameReadError, FrameWriteError, UpgradeError, StreamError}
use wtransport.H3Error.{H3Error}

pub data WorkerError : Type 0 where
  local_closed : H3Error → WorkerError
  remote_closed : WorkerError

abbrev pub closing : ErrorCode → String → WorkerError
closing code reason = local_closed (record { code = code; reason = reason })

unfoldable pub with_upgrade_err : UpgradeError → String → WorkerError
with_upgrade_err UpgradeError.unknown_stream reason = closing ErrorCode.frame_unexpected reason
with_upgrade_err UpgradeError.invalid_session_id reason = closing ErrorCode.frame_unexpected reason
with_upgrade_err UpgradeError.connection_closed reason = remote_closed
with_upgrade_err UpgradeError.end_of_stream reason = closing ErrorCode.closed_critical_stream reason

unfoldable pub with_frame_write_err : FrameWriteError → String → WorkerError
with_frame_write_err FrameWriteError.end_of_stream reason =
    closing ErrorCode.closed_critical_stream reason
with_frame_write_err FrameWriteError.connection_closed reason = remote_closed

unfoldable pub with_frame_read_err : FrameReadError → String → WorkerError
with_frame_read_err FrameReadError.unknown_frame reason = closing ErrorCode.frame_unexpected reason
with_frame_read_err FrameReadError.invalid_session_id reason =
    closing ErrorCode.frame_unexpected reason
with_frame_read_err FrameReadError.end_of_stream reason =
    closing ErrorCode.closed_critical_stream reason
with_frame_read_err FrameReadError.connection_closed reason = remote_closed
