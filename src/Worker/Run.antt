-- ===== src/Worker/Run.antt =====
-- wtransport/src/engine/worker.rs: the loop of `run`. A turn is the branch of its `select!` that is
-- ready, with what the `await` of it returned, or the end of a task that `process_inc_uni` or
-- `process_inc_bi` spawned; any of them may be next.
pub mod Invariant
mod Streams
mod Tasks
pub mod Serves
pub mod Places
pub mod Capacity
pub mod Settings
pub mod Ends
mod Tests
use wtransport.Prelude.{
  ℕ, zero, suc, List, [], ◌∷◌, ◌++◌, Option, none, some, Result, ok, err, Outcome, done, panic,
  bind,
}
use wtransport.Ids.SessionId.{SessionId}
use wtransport.Quic.Octets.{Octets}
use wtransport.Quic.Qpack.{Qpack}
use wtransport.Quic.Streams.{Quinn}
use wtransport.Frame.{Frame}
use wtransport.Stream.{Stream, Raw, H3, TwoWay}
use wtransport.Stream.UniRemote.{UniRemote}
use wtransport.Stream.UniLocal.{UniLocal}
use wtransport.Session.{SessionRemoteRequest}
use wtransport.Worker.{WorkerError, FrameReadError, UpgradeError, StreamError}
use wtransport.Worker.Streams.{
  UniStream, Remote, Handled, start, handle_new_h3_uni, settings_done, qpack_enc_done,
  qpack_dec_done, local_settings_done,
}
use wtransport.Worker.Accept.{
  Reserve, Accepted, accepted, stopped, failed, accept_uni, accept_bi, Routed, dropped, to_h3,
  to_wt, process_inc_uni, process_inc_bi,
}
use wtransport.Worker.Requests as Requests
use wtransport.Worker.Requests.{Taken, handle_new_h3_bi}
use wtransport.Worker.Local.{on_ready_connection}

-- The places of the channels of HTTP/3 streams.
unfoldable pub capacity : ℕ
capacity = 1024

module _ (q : Quinn) where
  -- The control and QPACK streams of the peer, the two channels of HTTP/3 streams with what was sent
  -- and not received, how many spawned tasks have not ended, and what was sent to the application.
  pub record Loop : Type 0 where
    pub remote : Remote
    pub h3_uni : List UniStream
    pub h3_bi : List (Stream (TwoWay q) H3 × Frame)
    pub uni_tasks : ℕ
    pub bi_tasks : ℕ
    pub wt_uni : List UniStream
    pub wt_bi : List (Stream (TwoWay q) H3 × SessionId)
    pub sessions : List (SessionRemoteRequest q)

  abbrev pub initial : Loop
  initial = record {
    remote = start;
    h3_uni = [];
    h3_bi = [];
    uni_tasks = 0;
    bi_tasks = 0;
    wt_uni = [];
    wt_bi = [];
    sessions = [];
  }

  pub data Turn : Type 0 where
    -- The first read of the stream that is handled, if it is made.
    handle_uni : Result Frame FrameReadError → Turn
    handle_bi : Reserve → Turn
    incoming_uni : Option (Stream (UniRemote q) Raw) → Reserve → Reserve → Turn
    incoming_bi : Option (Stream (TwoWay q) Raw) → Reserve → Reserve → Turn
    local_settings_stopped : Result (Unit {0}) StreamError → Turn
    control_frame : Result Frame FrameReadError → Turn
    qpack_enc_read : Result (Option ℕ) StreamError → Turn
    qpack_dec_read : Result (Option ℕ) StreamError → Turn
    uni_upgraded : Result UniStream UpgradeError → Turn
    bi_read : Stream (TwoWay q) H3 → Result Frame FrameReadError → Turn

  -- The loop goes on, or `run` returns an error.
  abbrev pub Turned : Type 0
  Turned = Outcome (Option (Result Loop WorkerError))

  abbrev pub goes_on : Loop → Turned
  goes_on w = done (some (ok w))

  abbrev pub handled_uni : Loop → Option Handled → Turned
  handled_uni w none = done none
  handled_uni w (some (ok _, remote)) = goes_on (record w { remote = remote })
  handled_uni w (some (err e, remote)) = done (some (err e))

  abbrev pub handled_bi : Loop → Result (Taken q) WorkerError → Turned
  handled_bi w (err e) = done (some (err e))
  handled_bi w (ok Taken.dropped) = goes_on w
  handled_bi w (ok (Taken.rejected recv)) = goes_on w
  handled_bi w (ok (Taken.requested request)) =
      goes_on (record w { sessions = w.sessions ++ request ∷ [] })

  abbrev pub recv_uni : Octets → Result Frame FrameReadError → Loop → List UniStream → Turned
  unfolding handle_new_h3_uni
  recv_uni o read w [] = goes_on w
  recv_uni o read w (stream ∷ rest) =
      bind (handle_new_h3_uni o stream read w.remote) (handled_uni (record w { h3_uni = rest }))

  abbrev pub recv_bi : Qpack → Reserve → Loop → List (Stream (TwoWay q) H3 × Frame) → Turned
  unfolding handle_new_h3_bi
  recv_bi p slot w [] = goes_on w
  recv_bi p slot w ((stream, frame) ∷ rest) =
      bind (handle_new_h3_bi q p stream frame slot) (handled_bi (record w { h3_bi = rest }))

  abbrev pub spawn_uni : {A : Type 0} → Loop → Accepted A → Turned
  spawn_uni w (accepted stream) = goes_on (record w { uni_tasks = suc w.uni_tasks })
  spawn_uni w (stopped stream code) = goes_on w
  spawn_uni w (failed e) = done (some (err e))

  abbrev pub spawn_bi : {A : Type 0} → Loop → Accepted A → Turned
  spawn_bi w (accepted stream) = goes_on (record w { bi_tasks = suc w.bi_tasks })
  spawn_bi w (stopped stream code) = goes_on w
  spawn_bi w (failed e) = done (some (err e))

  -- A turn of the loop of a `done`, which is pending where there is no stream yet.
  abbrev pub while_open : Loop → Option UniStream → Option WorkerError → Turned
  while_open w none ended = goes_on w
  while_open w (some stream) none = goes_on w
  while_open w (some stream) (some e) = done (some (err e))

  abbrev pub send_uni : Loop → Routed UniStream UniStream → Loop
  send_uni w dropped = w
  send_uni w (to_h3 stream) = record w { h3_uni = w.h3_uni ++ stream ∷ [] }
  send_uni w (to_wt stream) = record w { wt_uni = w.wt_uni ++ stream ∷ [] }

  abbrev pub send_bi : Loop → Stream (TwoWay q) H3 → Outcome (Routed Frame SessionId) → Loop
  send_bi w stream panic = w
  send_bi w stream (done dropped) = w
  send_bi w stream (done (to_h3 frame)) = record w { h3_bi = w.h3_bi ++ (stream, frame) ∷ [] }
  send_bi w stream (done (to_wt session_id)) = record w {
    wt_bi = w.wt_bi ++ (stream, session_id) ∷ [];
  }

  abbrev pub uni_task : Result UniStream UpgradeError → Loop → ℕ → Turned
  unfolding process_inc_uni
  uni_task upgraded w zero = goes_on w
  uni_task upgraded w (suc n) =
      goes_on (send_uni (record w { uni_tasks = n }) (process_inc_uni upgraded))

  -- A task that panics ends, and the worker goes on.
  abbrev pub bi_task : Stream (TwoWay q) H3 → Result Frame FrameReadError → Loop → ℕ → Turned
  unfolding process_inc_bi
  bi_task stream read w zero = goes_on w
  bi_task stream read w (suc n) =
      goes_on (send_bi (record w { bi_tasks = n }) stream (process_inc_bi read))

  -- One turn of the loop of `run`.
  unfoldable pub turn : Octets → Qpack → Turn → Loop → Turned
  unfolding recv_uni recv_bi accept_uni accept_bi settings_done qpack_enc_done qpack_dec_done
      local_settings_done uni_task bi_task
  turn o p (handle_uni read) w = recv_uni o read w w.h3_uni
  turn o p (handle_bi slot) w = recv_bi p slot w w.h3_bi
  turn o p (incoming_uni stream h3slot wtslot) w =
      bind (accept_uni stream h3slot wtslot) (spawn_uni w)
  turn o p (incoming_bi stream h3slot wtslot) w = bind (accept_bi stream h3slot wtslot) (spawn_bi w)
  turn o p (local_settings_stopped result) w = done (some (err (local_settings_done result)))
  turn o p (control_frame read) w = while_open w w.remote.settings_stream (settings_done read)
  turn o p (qpack_enc_read read) w = while_open w w.remote.qpack_enc_stream (qpack_enc_done read)
  turn o p (qpack_dec_read read) w = while_open w w.remote.qpack_dec_stream (qpack_dec_done read)
  turn o p (uni_upgraded upgraded) w = uni_task upgraded w w.uni_tasks
  turn o p (bi_read stream read) w = bi_task stream read w w.bi_tasks

  abbrev pub then_turns : (Loop → Turned) → Option (Result Loop WorkerError) → Turned
  then_turns next none = done none
  then_turns next (some (err e)) = done (some (err e))
  then_turns next (some (ok w)) = next w

  -- The turns in their order: the loop after them, or the error that ended it.
  unfoldable pub turns : Octets → Qpack → List Turn → Loop → Turned
  turns o p [] w = goes_on w
  turns o p (t ∷ rest) w = bind (turn o p t w) (then_turns (turns o p rest))

  abbrev pub settings_ready : Turned → Option (Result (Stream (UniLocal q) H3) WorkerError) → Turned
  settings_ready served none = done none
  settings_ready served (some (err e)) = done (some (err e))
  settings_ready served (some (ok stream)) = served

  -- `run`, with what the connection returns to `open_uni`, and the turns that it takes.
  unfoldable pub run : {E : Type 0} → Octets → Qpack → ℕ → Result q.Send E → List Turn → Turned
  unfolding on_ready_connection turns
  run o p polls opened ts =
      bind (on_ready_connection q o polls opened) (settings_ready (turns o p ts initial))
