-- ===== src/ConnectionError/Laws.antt =====
-- What closing a connection tells the peer and the application.
use wtransport.Prelude.{◌≤◌, ◌≡◌, refl, le→leb, Option, none, some, done}
use wtransport.VarInt.{varint_max, from_u64_unchecked}
use wtransport.ErrorCode.{to_code}
use wtransport.ErrorCode.Codes.{to_code-IsVarInt}
use wtransport.Worker.{WorkerError}
use wtransport.ConnectionError.{
  ConnectionError, QuinnConnectionError, Closing, of_connection, close_worker_error,
}

-- An application closes with a code that is a varint.
abbrev pub Application : QuinnConnectionError → Type 0
Application (QuinnConnectionError.application_closed error_code reason) = error_code ≤ varint_max
Application _ = Unit {0}

-- A worker that found its connection closed leaves a connection that says why.
abbrev pub Explained : WorkerError → Option QuinnConnectionError → Type 0
Explained (WorkerError.local_closed h3error) reason = Unit {0}
Explained WorkerError.remote_closed none = ⊥
Explained WorkerError.remote_closed (some e) = Application e

-- The connection is closed with the code and the reason of the worker's error, which is what the
-- application gets; or it was closed before, and is not closed again.
abbrev pub Closes : WorkerError → Closing → Type 0
Closes (WorkerError.local_closed h3error) out =
    out ≡ done (ConnectionError.h3 h3error, some (to_code h3error.code, h3error.reason))
Closes WorkerError.remote_closed out = (error : ConnectionError) × (out ≡ done (error, none))

pub of_connection_total :
    (e : QuinnConnectionError)
    → Application e
    → (error : ConnectionError) × (of_connection e ≡ done error)
unfolding of_connection from_u64_unchecked
of_connection_total QuinnConnectionError.version_mismatch h = (_, refl)
of_connection_total QuinnConnectionError.transport_error h = (_, refl)
of_connection_total QuinnConnectionError.reset h = (_, refl)
of_connection_total QuinnConnectionError.timed_out h = (_, refl)
of_connection_total QuinnConnectionError.locally_closed h = (_, refl)
of_connection_total (QuinnConnectionError.connection_closed code reason) h = (_, refl)
of_connection_total (QuinnConnectionError.application_closed code reason) h = (
  ConnectionError.connection_closed (record { code = code; reason = reason }),
  rw (le→leb _ _ h) refl,
)

-- On every error of the worker, where the reason of a connection that is closed is known and has a
-- code that is a varint, `close_worker_error` returns: an HTTP/3 error is what the peer and the
-- application are told, and for any other the connection is not closed again.
pub close_worker_error-Closes :
    (e : WorkerError) (reason : Option QuinnConnectionError)
    → Explained e reason
    → Closes e (close_worker_error e reason)
unfolding close_worker_error
close_worker_error-Closes (WorkerError.local_closed h3error) reason h =
    rw (le→leb (to_code h3error.code) varint_max (to_code-IsVarInt h3error.code)) refl
close_worker_error-Closes WorkerError.remote_closed none h = absurd h
close_worker_error-Closes WorkerError.remote_closed (some e) h =
    let (error, told) = of_connection_total e h in (error, rw told refl)
