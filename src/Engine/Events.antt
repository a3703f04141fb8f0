-- ===== src/Engine/Events.antt =====
-- Calls of `accept_uni`, with the tasks that the worker spawned and that may still send streams.
use wtransport.Prelude.{
  ℕ, zero, suc, List, [], ◌∷◌, ◌++◌, Option, none, some, Result, ok, err, Outcome, done, bind,
}
use wtransport.Quic.Streams.{Quinn}
use wtransport.Stream.{Stream, Wt}
use wtransport.Stream.UniRemote.{UniRemote}
use wtransport.Worker.{WorkerError}
use wtransport.Engine.State.{Engine, accept_uni}

-- What may happen on the channel: the application calls `accept_uni`, a task sends a stream on its
-- permit, or a task drops its permit.
pub data Event (A : Type 0) : Type 0 where
  asks : Event A
  sends : A → Event A
  drops : Event A

module _ (q : Quinn) where
  abbrev pub Waiting : Type 0
  Waiting = Stream (UniRemote q) Wt

  -- What the calls returned, `none` for one that was pending and given up.
  abbrev pub Answers : Type 0
  Answers = List (Option (Result Waiting WorkerError))

  abbrev pub heard : Option (Result Waiting WorkerError) → Answers × Engine q → Answers × Engine q
  heard answer (rest, self) = (answer ∷ rest, self)

  abbrev pub noting :
      (Engine q → Outcome (Answers × Engine q))
      → Engine q
      → Option (Result Waiting WorkerError × Engine q)
      → Outcome (Answers × Engine q)
  noting next self none = bind (next self) λ rest. done (heard none rest)
  noting next self (some (answer, self')) =
      bind (next self') λ rest. done (heard (some answer) rest)

  -- The events in their order, with the permits that tasks hold. A task without one sends nothing.
  unfoldable pub happens :
      {T E : Type 0}
      → Option (Result (Result T WorkerError) E)
      → List (Event Waiting)
      → ℕ
      → Engine q
      → Outcome (Answers × Engine q)
  unfolding accept_uni
  happens task [] permits self = done ([], self)
  happens task (asks ∷ events) permits self =
      bind (accept_uni q task permits self) (noting (happens task events permits) self)
  happens task (sends stream ∷ events) zero self = happens task events zero self
  happens task (sends stream ∷ events) (suc n) self =
      happens task events n
        (record self { uni_streams_channel = self.uni_streams_channel ++ stream ∷ [] })
  happens task (drops ∷ events) zero self = happens task events zero self
  happens task (drops ∷ events) (suc n) self = happens task events n self

  -- The streams that are sent while permits last.
  abbrev pub sent : ℕ → List (Event Waiting) → List Waiting
  sent permits [] = []
  sent permits (asks ∷ events) = sent permits events
  sent zero (sends stream ∷ events) = sent zero events
  sent (suc n) (sends stream ∷ events) = stream ∷ sent n events
  sent zero (drops ∷ events) = sent zero events
  sent (suc n) (drops ∷ events) = sent n events

  -- The streams among the answers.
  abbrev pub streams : Answers → List Waiting
  streams [] = []
  streams (some (ok stream) ∷ answers) = stream ∷ streams answers
  streams (some (err e) ∷ answers) = streams answers
  streams (none ∷ answers) = streams answers
