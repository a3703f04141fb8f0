-- ===== src/Session.antt =====
-- wtransport/src/engine/session.rs: a session is requested on a stream by one side, and accepted or
-- refused by the other. A request that ends in an error drops its stream.
pub mod Validation
pub mod Confirming
pub mod Established
pub mod Answering
pub mod Tests
use Prim.Native.String.{String}
use text.Mathlib.Text.{◌==◌}
use wtransport.Prelude.{
  ℕ, zero, suc, ◌&&◌, List, [], ◌∷◌, Option, none, some, Result, ok, err, Outcome, done, bind,
  if◌then◌else◌,
}
use wtransport.ErrorCode.{ErrorCode}
use wtransport.H3Error.{H3Error}
use wtransport.Ids.SessionId
use wtransport.Ids.SessionId.{SessionId}
use wtransport.Quic.Octets.{Octets}
use wtransport.Quic.Qpack.{Qpack}
use wtransport.Quic.Streams.{Quinn}
use wtransport.Frame.{Frame}
use wtransport.Frame.Kind.{FrameKind}
use wtransport.Headers
use wtransport.Headers.{Headers}
use wtransport.Stream.{Stream, Raw, H3, TwoWay}
use wtransport.Stream.Errors.{FrameReadError, FrameWriteError}
use wtransport.Stream.BiRemote
use wtransport.Stream.BiLocal

pub data SessionError : Type 0 where
  local_closed : H3Error → SessionError
  remote_closed : SessionError

abbrev pub closing : ErrorCode → String → SessionError
closing code reason = local_closed (record { code = code; reason = reason })

unfoldable pub with_frame_write_err : FrameWriteError → String → SessionError
with_frame_write_err FrameWriteError.end_of_stream reason =
    closing ErrorCode.closed_critical_stream reason
with_frame_write_err FrameWriteError.connection_closed reason = remote_closed

unfoldable pub with_frame_read_err : FrameReadError → String → SessionError
with_frame_read_err FrameReadError.unknown_frame reason = closing ErrorCode.frame_unexpected reason
with_frame_read_err FrameReadError.invalid_session_id reason =
    closing ErrorCode.frame_unexpected reason
with_frame_read_err FrameReadError.end_of_stream reason =
    closing ErrorCode.closed_critical_stream reason
with_frame_read_err FrameReadError.connection_closed reason = remote_closed

abbrev pub unwrap_or_default : Option String → String
unwrap_or_default none = ""
unwrap_or_default (some s) = s

-- `SessionRemoteRequest::validate_headers`
unfoldable pub validate_request : Headers → Result (Unit {0}) SessionError
unfolding Headers.get
validate_request headers =
    if unwrap_or_default (Headers.get ":method" headers) == "CONNECT"
    then if unwrap_or_default (Headers.get ":protocol" headers) == "webtransport"
      then if unwrap_or_default (Headers.get ":scheme" headers) == "https"
        then ok tt
        else err (closing ErrorCode.message "Protocol not supported")
      else err (closing ErrorCode.message "Protocol not supported")
    else err (closing ErrorCode.message "Method not supported")

-- `SessionRemoteResponse::validate_headers`
unfoldable pub validate_response : Headers → Result (Unit {0}) SessionError
unfolding Headers.get
validate_response headers =
    if unwrap_or_default (Headers.get ":status" headers) == "200"
    then ok tt
    else err (closing ErrorCode.message "CONNECT refused")

-- The headers that `accept` and `request` collect.
unfoldable pub response_headers : Headers
unfolding Headers.from_iter
response_headers =
    Headers.from_iter ((":status", "200") ∷ ("sec-webtransport-http3-draft", "draft02") ∷ [])

unfoldable pub request_headers : Headers
unfolding Headers.from_iter
request_headers =
    Headers.from_iter
      ((":method", "CONNECT") ∷ (":protocol", "webtransport") ∷ (":scheme", "https") ∷ [])

module _ (q : Quinn) where
  pub record SessionRemoteRequest : Type 0 where
    pub stream : Stream (TwoWay q) H3
    pub headers : Headers

  pub record SessionRemoteResponse : Type 0 where
    pub stream : Stream (TwoWay q) H3

  pub record Session : Type 0 where
    pub stream : Stream (TwoWay q) Raw

  -- `Session::id`; the id of the stream is read twice.
  unfoldable pub id : Session → Outcome SessionId
  unfolding BiLocal.bi_id SessionId.from_session_stream_unchecked
  id s = bind (BiLocal.bi_id q s.stream) SessionId.from_session_stream_unchecked

module _ (q : Quinn) (o : Octets) (p : Qpack) (polls : ℕ) where
  abbrev pub Answer : Type 0 → Type 0
  Answer A = Outcome (Option (Result A SessionError))

  abbrev pub accept_written :
      Option (Result (Unit {0}) FrameWriteError × Stream (TwoWay q) H3) → Answer (Session q)
  unfolding with_frame_write_err BiRemote.normalize
  accept_written none = done none
  accept_written (some (err e, s)) =
      done (some (err (with_frame_write_err e "Unable to accept SESSION")))
  accept_written (some (ok _, s)) = done (some (ok (record { stream = BiRemote.normalize q s })))

  abbrev pub accept_valid :
      Stream (TwoWay q) H3 → Result (Unit {0}) SessionError → Answer (Session q)
  unfolding BiRemote.id Headers.generate_frame BiRemote.write_frame accept_written response_headers
  accept_valid s (err e) = done (some (err e))
  accept_valid s (ok _) = bind (BiRemote.id q s) λ id.
      bind (Headers.generate_frame p response_headers id)
        λ frame. bind (BiRemote.write_frame q o polls frame s) accept_written

  unfoldable pub accept : SessionRemoteRequest q → Answer (Session q)
  unfolding accept_valid validate_request
  accept self = accept_valid self.stream (validate_request self.headers)

  abbrev pub request_written :
      Option (Result (Unit {0}) FrameWriteError × Stream (TwoWay q) H3)
      → Answer (SessionRemoteResponse q)
  unfolding with_frame_write_err
  request_written none = done none
  request_written (some (err e, s)) =
      done (some (err (with_frame_write_err e "Unable to request SESSION")))
  request_written (some (ok _, s)) = done (some (ok (record { stream = s })))

  -- `SessionLocalRequest::request`, whose request holds the stream alone.
  unfoldable pub request : Stream (TwoWay q) H3 → Answer (SessionRemoteResponse q)
  unfolding BiLocal.id Headers.generate_frame BiLocal.write_frame request_written request_headers
  request s = bind (BiLocal.id q s) λ id.
      bind (Headers.generate_frame p request_headers id)
        λ frame. bind (BiLocal.write_frame q o polls frame s) request_written

  abbrev pub answered : Stream (TwoWay q) H3 → Result (Unit {0}) SessionError → Answer (Session q)
  unfolding BiLocal.normalize
  answered s (err e) = done (some (err e))
  answered s (ok _) = done (some (ok (record { stream = BiLocal.normalize q s })))

  abbrev pub response_decoded : Stream (TwoWay q) H3 → Result Headers ErrorCode → Answer (Session q)
  unfolding validate_response answered
  response_decoded s (err h3code) =
      done (some (err (closing h3code "Error on decoding headers on response")))
  response_decoded s (ok headers) = answered s (validate_response headers)

  abbrev pub by_kind :
      (Stream (TwoWay q) H3 → Answer (Session q))
      → Frame
      → Stream (TwoWay q) H3
      → FrameKind
      → Answer (Session q)
  unfolding BiLocal.id Headers.with_frame response_decoded
  by_kind next frame s FrameKind.headers =
      bind (BiLocal.id q s) λ id. bind (Headers.with_frame p frame id) (response_decoded s)
  by_kind next frame s (FrameKind.exercise i) = next s
  by_kind next frame s _ =
      done (some (err (closing ErrorCode.frame_unexpected "Unexpected frame on SESSION reply")))

  abbrev pub frame_read :
      (Stream (TwoWay q) H3 → Answer (Session q))
      → Option (Result Frame FrameReadError × Stream (TwoWay q) H3)
      → Answer (Session q)
  unfolding with_frame_read_err by_kind
  frame_read next none = done none
  frame_read next (some (err e, s)) =
      done (some (err (with_frame_read_err e "Unable to read reply SESSION")))
  frame_read next (some (ok frame, s)) = by_kind next frame s frame.kind

  -- The loop of `confirm`, with a turn for each frame that it reads; `none` also where the fuel ran
  -- out.
  unfoldable pub confirm : ℕ → Stream (TwoWay q) H3 → Answer (Session q)
  unfolding BiLocal.read_frame frame_read
  confirm zero s = done none
  confirm (suc fuel) s = bind (BiLocal.read_frame q o polls s) (frame_read (confirm fuel))
