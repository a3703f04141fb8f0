-- ===== src/Engine/State.antt =====
-- wtransport/src/engine/mod.rs: the engine with its channels and the handle of its worker. A channel
-- is what was sent to it and not received; `task` is what the worker's task returns when it is
-- joined, and `none` as long as it runs and holds its ends of the channels; `permits` is how many
-- tasks of `process_inc_uni` or `process_inc_bi` still hold an `OwnedPermit` of the channel, which
-- keep it open when the worker ended.
use wtransport.Prelude.{
  ℕ, zero, suc, true, List, [], ◌∷◌, Option, none, some, Result, ok, err, Outcome, done, bind,
}
use wtransport.Quic.Streams.{Quinn}
use wtransport.Settings.{Settings}
use wtransport.Stream.{Stream, Wt, TwoWay}
use wtransport.Stream.UniRemote.{UniRemote}
use wtransport.Session.{SessionRemoteRequest}
use wtransport.Worker.{WorkerError}
use wtransport.Worker.Local.{WorkerHandler, result}

-- `WorkerHandler::run_worker`
unfoldable pub run_worker : WorkerHandler
run_worker = record { join_handle = true; stored = none }

module _ (q : Quinn) where
  pub record Engine : Type 0 where
    pub worker_handle : WorkerHandler
    pub settings_channel : Option Settings
    pub bi_streams_channel : List (Stream (TwoWay q) Wt)
    pub uni_streams_channel : List (Stream (UniRemote q) Wt)
    pub session_streams_channel : List (SessionRemoteRequest q)

  -- `Engine::new`
  unfoldable pub new : Engine
  unfolding run_worker
  new = record {
    worker_handle = run_worker;
    settings_channel = none;
    bi_streams_channel = [];
    uni_streams_channel = [];
    session_streams_channel = [];
  }

  module _ {T E : Type 0} where
    unfoldable pub worker_result :
        Result (Result T WorkerError) E → Engine → Outcome (WorkerError × Engine)
    unfolding result
    worker_result task self =
        bind (result task self.worker_handle)
          λ out. done (out.0, record self { worker_handle = out.1 })

    -- `recv` of a channel, which is pending where nothing was sent and a sender or a permit is left.
    unfoldable pub received :
        {A : Type 0}
        → (List A → Engine)
        → Option (Result (Result T WorkerError) E)
        → ℕ
        → Engine
        → List A
        → Outcome (Option (Result A WorkerError × Engine))
    unfolding worker_result
    received left task permits self (stream ∷ rest) = done (some (ok stream, left rest))
    received left none permits self [] = done none
    received left (some task) (suc permits) self [] = done none
    received left (some task) zero self [] =
        bind (worker_result task self) λ out. done (some (err out.0, out.1))

    -- No task holds a permit of the channel of sessions.
    unfoldable pub accept_session :
        Option (Result (Result T WorkerError) E)
        → Engine
        → Outcome (Option (Result (SessionRemoteRequest q) WorkerError × Engine))
    unfolding received
    accept_session task self =
        received (λ rest. record self { session_streams_channel = rest }) task zero self
          self.session_streams_channel

    unfoldable pub accept_bi :
        Option (Result (Result T WorkerError) E)
        → ℕ
        → Engine
        → Outcome (Option (Result (Stream (TwoWay q) Wt) WorkerError × Engine))
    unfolding received
    accept_bi task permits self =
        received (λ rest. record self { bi_streams_channel = rest }) task permits self
          self.bi_streams_channel

    unfoldable pub accept_uni :
        Option (Result (Result T WorkerError) E)
        → ℕ
        → Engine
        → Outcome (Option (Result (Stream (UniRemote q) Wt) WorkerError × Engine))
    unfolding received
    accept_uni task permits self =
        received (λ rest. record self { uni_streams_channel = rest }) task permits self
          self.uni_streams_channel
