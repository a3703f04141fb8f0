-- ===== src/ConnectionError.antt =====
-- wtransport/src/error.rs: the errors of a connection, a stream and a datagram, made of those of the
-- `quinn` crate, of which the data types have the variants that the code matches on; and what closing
-- a connection for an error of the worker or of a session does.
pub mod Laws
pub mod Tests
use Prim.Native.String.{String}
use wtransport.Prelude.{
  ℕ, List, Option, none, some, Result, ok, err, Outcome, done, bind, assert, expect, leb,
}
use wtransport.VarInt.{VarInt, varint_max, try_from_u64, from_u64_unchecked, VarIntBoundsExceeded}
use wtransport.ErrorCode.{to_code}
use wtransport.H3Error.{H3Error}
use wtransport.Stream.Errors.{StreamError}
use wtransport.Session.{SessionError}
use wtransport.Worker.{WorkerError}

pub record ConnectionClosed : Type 0 where
  pub code : VarInt
  pub reason : List ℕ

pub data ConnectionError : Type 0 where
  connection_closed : ConnectionClosed → ConnectionError
  timed_out locally_closed quic_error : ConnectionError
  h3 : H3Error → ConnectionError

pub data DatagramError : Type 0 where
  connection_closed unsupported_by_peer protocol : DatagramError

-- The code and the reason of `quinn::ConnectionClose` and `quinn::ApplicationClose`.
pub data QuinnConnectionError : Type 0 where
  version_mismatch transport_error reset timed_out locally_closed : QuinnConnectionError
  connection_closed application_closed : ℕ → List ℕ → QuinnConnectionError

pub data QuinnWriteError : Type 0 where
  stopped : ℕ → QuinnWriteError
  connection_lost : QuinnConnectionError → QuinnWriteError
  unknown_stream zero_rtt_rejected : QuinnWriteError

pub data QuinnReadError : Type 0 where
  reset : ℕ → QuinnReadError
  connection_lost : QuinnConnectionError → QuinnReadError
  unknown_stream illegal_ordered_read zero_rtt_rejected : QuinnReadError

pub data QuinnStoppedError : Type 0 where
  connection_lost : QuinnConnectionError → QuinnStoppedError
  unknown_stream zero_rtt_rejected : QuinnStoppedError

pub data QuinnSendDatagramError : Type 0 where
  unsupported_by_peer disabled too_large : QuinnSendDatagramError
  connection_lost : QuinnConnectionError → QuinnSendDatagramError

-- `unwrap_or_default`, whose default is 0.
abbrev code_or_default : Result VarInt VarIntBoundsExceeded → VarInt
code_or_default (ok code) = code
code_or_default (err e) = 0

unfoldable pub of_connection : QuinnConnectionError → Outcome ConnectionError
unfolding try_from_u64 from_u64_unchecked
of_connection QuinnConnectionError.version_mismatch = done ConnectionError.quic_error
of_connection QuinnConnectionError.transport_error = done ConnectionError.quic_error
of_connection (QuinnConnectionError.connection_closed error_code reason) = done (
    ConnectionError.connection_closed
      (record { code = code_or_default (try_from_u64 error_code); reason = reason }))
of_connection (QuinnConnectionError.application_closed error_code reason) =
    bind (assert (leb error_code varint_max)) λ _.
      bind (from_u64_unchecked error_code)
        λ code. done (ConnectionError.connection_closed (record { code = code; reason = reason }))
of_connection QuinnConnectionError.reset = done ConnectionError.quic_error
of_connection QuinnConnectionError.timed_out = done ConnectionError.timed_out
of_connection QuinnConnectionError.locally_closed = done ConnectionError.locally_closed

unfoldable pub of_write : QuinnWriteError → StreamError
of_write (QuinnWriteError.stopped code) = StreamError.stopped
of_write (QuinnWriteError.connection_lost e) = StreamError.connection_closed
of_write QuinnWriteError.unknown_stream = StreamError.stopped
of_write QuinnWriteError.zero_rtt_rejected = StreamError.stopped

unfoldable pub of_read : QuinnReadError → StreamError
of_read (QuinnReadError.reset code) = StreamError.stopped
of_read (QuinnReadError.connection_lost e) = StreamError.connection_closed
of_read QuinnReadError.unknown_stream = StreamError.stopped
of_read QuinnReadError.illegal_ordered_read = StreamError.stopped
of_read QuinnReadError.zero_rtt_rejected = StreamError.stopped

unfoldable pub of_stopped : QuinnStoppedError → StreamError
of_stopped (QuinnStoppedError.connection_lost e) = StreamError.connection_closed
of_stopped QuinnStoppedError.unknown_stream = StreamError.stopped
of_stopped QuinnStoppedError.zero_rtt_rejected = StreamError.stopped

unfoldable pub of_send_datagram : QuinnSendDatagramError → DatagramError
of_send_datagram QuinnSendDatagramError.unsupported_by_peer = DatagramError.unsupported_by_peer
of_send_datagram QuinnSendDatagramError.disabled = DatagramError.protocol
of_send_datagram QuinnSendDatagramError.too_large = DatagramError.protocol
of_send_datagram (QuinnSendDatagramError.connection_lost e) = DatagramError.connection_closed

-- The call of `close` on the connection, if there is one: its code and its reason.
abbrev pub Closing : Type 0
Closing = Outcome (ConnectionError × Option (VarInt × String))

abbrev close_reason : Option QuinnConnectionError → Closing
unfolding of_connection
close_reason reason = bind (expect reason) λ e. bind (of_connection e) λ error. done (error, none)

-- The two functions get what `close_reason` of the connection returns.
unfoldable pub close_worker_error : WorkerError → Option QuinnConnectionError → Closing
unfolding to_code close_reason
close_worker_error (WorkerError.local_closed h3error) reason =
    bind (assert (leb (to_code h3error.code) varint_max))
      λ _. done (ConnectionError.h3 h3error, some (to_code h3error.code, h3error.reason))
close_worker_error WorkerError.remote_closed reason = close_reason reason

unfoldable pub close_session_error : SessionError → Option QuinnConnectionError → Closing
unfolding close_reason
close_session_error (SessionError.local_closed h3error) reason =
    done (ConnectionError.h3 h3error, none)
close_session_error SessionError.remote_closed reason = close_reason reason
