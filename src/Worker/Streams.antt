-- ===== src/Worker/Streams.antt =====
-- wtransport/src/engine/worker.rs: the control stream and the QPACK streams of the peer. The state
-- holds the three streams, the settings that the watch channel shows, and whether it has a receiver.
use wtransport.Prelude.{
  Bool, true, false, ℕ, Option, none, some, Result, ok, err, Outcome, done, panic, bind, assert,
  if◌then◌else◌,
}
use wtransport.ErrorCode.{ErrorCode}
use wtransport.Ids.StreamId.{StreamId}
use wtransport.Quic.Octets.{Octets}
use wtransport.Frame.{Frame}
use wtransport.Frame.Kind.{FrameKind}
use wtransport.Settings.{Settings, is_settings, with_frame}
use wtransport.StreamHeader.{StreamHeader}
use wtransport.StreamHeader.Kind.{
  StreamKind, control, qpack_encoder, qpack_decoder, webtransport, exercise,
}
use wtransport.Worker.{
  WorkerError, remote_closed, closing, FrameReadError, StreamError, with_frame_read_err,
}

-- A `Stream<UniRemote, H3>`: its QUIC stream, which the model names by its id, and its header.
pub record UniStream : Type 0 where
  pub stream : StreamId
  pub header : StreamHeader

pub record Remote : Type 0 where
  pub settings_stream : Option UniStream
  pub qpack_enc_stream : Option UniStream
  pub qpack_dec_stream : Option UniStream
  pub inc_settings : Option Settings
  pub has_receiver : Bool

abbrev pub is_control : StreamKind → Bool
is_control control = true
is_control _ = false

abbrev pub is_some : Option UniStream → Bool
is_some (some s) = true
is_some none = false

-- The state with which `run` starts.
abbrev pub start : Remote
start = record {
  settings_stream = none;
  qpack_enc_stream = none;
  qpack_dec_stream = none;
  inc_settings = none;
  has_receiver = true;
}

abbrev pub with_settings : UniStream → Settings → Remote → Remote
with_settings stream settings w = record {
  settings_stream = some stream;
  qpack_enc_stream = w.qpack_enc_stream;
  qpack_dec_stream = w.qpack_dec_stream;
  inc_settings = some settings;
  has_receiver = w.has_receiver;
}

abbrev pub with_qpack_enc : UniStream → Remote → Remote
with_qpack_enc stream w = record {
  settings_stream = w.settings_stream;
  qpack_enc_stream = some stream;
  qpack_dec_stream = w.qpack_dec_stream;
  inc_settings = w.inc_settings;
  has_receiver = w.has_receiver;
}

abbrev pub with_qpack_dec : UniStream → Remote → Remote
with_qpack_dec stream w = record {
  settings_stream = w.settings_stream;
  qpack_enc_stream = w.qpack_enc_stream;
  qpack_dec_stream = some stream;
  inc_settings = w.inc_settings;
  has_receiver = w.has_receiver;
}

-- The result and the state after it.
abbrev pub Handled : Type 0
Handled = Result (Unit {0}) WorkerError × Remote

-- `watch::Sender::send`, which fails and stores nothing where no receiver is left.
unfoldable pub publish : UniStream → Settings → Remote → Handled
publish stream settings w =
    if w.has_receiver then (ok tt, with_settings stream settings w) else (err remote_closed, w)

-- `none` where the fuel of `with_frame` ran out, which it does not.
unfoldable pub on_settings :
    UniStream → Remote → Option (Result Settings ErrorCode) → Outcome (Option Handled)
on_settings stream w none = done none
on_settings stream w (some (err code)) =
    done (some (err (closing code "Unable to receive SETTINGS"), w))
on_settings stream w (some (ok settings)) = done (some (publish stream settings w))

module _ (o : Octets) where
  unfoldable pub on_frame :
      UniStream → Remote → Result Frame FrameReadError → Outcome (Option Handled)
  on_frame stream w (err e) =
      done (some (err (with_frame_read_err e "Unable to receive SETTINGS"), w))
  on_frame stream w (ok frame) =
      if is_settings frame.kind
      then bind (with_frame o frame) (on_settings stream w)
      else done
          (some (err (closing ErrorCode.missing_settings "Unexpected frame on control stream"), w))

  -- `RemoteSettingsStream::on_stream_recv`, with the first frame that it reads.
  unfoldable pub on_control_stream :
      UniStream → Result Frame FrameReadError → Remote → Outcome (Option Handled)
  on_control_stream stream read w = bind (assert (is_control stream.header.kind)) λ _.
      if is_some w.settings_stream
      then done (some (err (closing ErrorCode.stream_creation "Duplicate control stream"), w))
      else on_frame stream w read

-- `RemoteQPackEncStream::on_stream_recv`
unfoldable pub on_qpack_enc_stream : UniStream → Remote → Handled
on_qpack_enc_stream stream w =
    if is_some w.qpack_enc_stream
    then (err (closing ErrorCode.stream_creation "Duplicate QPACK.ENC stream"), w)
    else (ok tt, with_qpack_enc stream w)

-- `RemoteQPackDecStream::on_stream_recv`
unfoldable pub on_qpack_dec_stream : UniStream → Remote → Handled
on_qpack_dec_stream stream w =
    if is_some w.qpack_dec_stream
    then (err (closing ErrorCode.stream_creation "Duplicate QPACK.DEC stream"), w)
    else (ok tt, with_qpack_dec stream w)

module _ (o : Octets) where
  unfoldable pub by_kind :
      StreamKind → UniStream → Result Frame FrameReadError → Remote → Outcome (Option Handled)
  by_kind control stream read w = on_control_stream o stream read w
  by_kind qpack_encoder stream read w = done (some (on_qpack_enc_stream stream w))
  by_kind qpack_decoder stream read w = done (some (on_qpack_dec_stream stream w))
  by_kind webtransport stream read w = panic
  by_kind (exercise id) stream read w = done (some (ok tt, w))

  -- `handle_new_h3_uni`; `read` is what the first read of the stream returns, if it is made.
  unfoldable pub handle_new_h3_uni :
      UniStream → Result Frame FrameReadError → Remote → Outcome (Option Handled)
  handle_new_h3_uni stream read w = by_kind stream.header.kind stream read w

abbrev is_exercise : FrameKind → Bool
is_exercise (FrameKind.exercise id) = true
is_exercise _ = false

-- One turn of `RemoteSettingsStream::done`; `none` where the loop goes on.
unfoldable pub settings_done : Result Frame FrameReadError → Option WorkerError
unfolding with_frame_read_err
settings_done (err e) = some (with_frame_read_err e "Error on control stream")
settings_done (ok frame) =
    if is_exercise frame.kind
    then none
    else some (closing ErrorCode.frame_unexpected "Unexpected frame on remote control stream")

-- One turn of `RemoteQPackEncStream::done`.
unfoldable pub qpack_enc_done : Result (Option ℕ) StreamError → Option WorkerError
qpack_enc_done (ok (some n)) = none
qpack_enc_done (ok none) =
    some (closing ErrorCode.closed_critical_stream "Closed remote QPACK.ENC stream")
qpack_enc_done (err StreamError.stopped) =
    some (closing ErrorCode.closed_critical_stream "Closed remote QPACK.ENC stream")
qpack_enc_done (err StreamError.connection_closed) = some remote_closed

-- One turn of `RemoteQPackDecStream::done`.
unfoldable pub qpack_dec_done : Result (Option ℕ) StreamError → Option WorkerError
qpack_dec_done (ok (some n)) = none
qpack_dec_done (ok none) =
    some (closing ErrorCode.closed_critical_stream "Closed remote QPACK.DEC stream")
qpack_dec_done (err StreamError.stopped) =
    some (closing ErrorCode.closed_critical_stream "Closed remote QPACK.DEC stream")
qpack_dec_done (err StreamError.connection_closed) = some remote_closed

-- `LocalSettingsStream::done`, once the stream is stopped.
unfoldable pub local_settings_done : Result (Unit {0}) StreamError → WorkerError
local_settings_done (err StreamError.connection_closed) = remote_closed
local_settings_done (err StreamError.stopped) =
    closing ErrorCode.closed_critical_stream "Closed local control stream"
local_settings_done (ok _) = closing ErrorCode.closed_critical_stream "Closed local control stream"
