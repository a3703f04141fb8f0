-- ===== src/Engine/Drains.antt =====
-- What the application gets from an engine whose worker ended, while tasks that the worker spawned
-- may still send it streams.
use wtransport.Prelude.{
  ℕ, zero, suc, ◌≡◌, ◌⊎◌, refl, sym, ap, ◌∙◌, inl, inr, true, false, List, [], ◌∷◌, ◌++◌, Option,
  none, some, Result, ok, err, Outcome, done, append-nil, append_assoc, replicate, length,
}
use wtransport.Quic.Streams.{Quinn}
use wtransport.Worker.{WorkerError}
use wtransport.Worker.Local.{WorkerHandler, result}
use wtransport.Engine.Events.{Event, asks, sends, drops, Waiting, Answers, happens, sent, streams}
use wtransport.Engine.State.{Engine, worker_result, received, accept_uni}

module _ (q : Quinn) where
  -- The handle has the error of the worker, or has still to join its task.
  abbrev pub Joins : WorkerError → WorkerHandler → Type 0
  Joins e h = (h.stored ≡ some e) ⊎ ((h.stored ≡ none) × (h.join_handle ≡ true))

  module _ (e : WorkerError) where
    -- There is an answer for each call: the first stream that waits, or where none waits, nothing yet
    -- as long as a permit is held, and the error behind that. A stream that is sent waits behind the
    -- others.
    abbrev pub Follows : ℕ → List (Waiting q) → List (Event (Waiting q)) → Answers q → Type 0
    Follows permits queue [] answers = answers ≡ []
    Follows permits (stream ∷ queue) (asks ∷ events) answers =
        (rest : Answers q) × (answers ≡ some (ok stream) ∷ rest) × Follows permits queue events rest
    Follows zero [] (asks ∷ events) answers =
        (rest : Answers q) × (answers ≡ some (err e) ∷ rest) × Follows zero [] events rest
    Follows (suc n) [] (asks ∷ events) answers =
        (rest : Answers q) × (answers ≡ none ∷ rest) × Follows (suc n) [] events rest
    Follows zero queue (sends stream ∷ events) answers = Follows zero queue events answers
    Follows (suc n) queue (sends stream ∷ events) answers =
        Follows n (queue ++ stream ∷ []) events answers
    Follows zero queue (drops ∷ events) answers = Follows zero queue events answers
    Follows (suc n) queue (drops ∷ events) answers = Follows n queue events answers

    -- The first error is that of the worker, and so is every answer behind it.
    abbrev pub Final : Answers q → Type 0
    Final [] = Unit {0}
    Final (none ∷ answers) = Final answers
    Final (some (ok stream) ∷ answers) = Final answers
    Final (some (err x) ∷ answers) = (x ≡ e) × (answers ≡ replicate (length answers) (some (err e)))

    Follows-replicate :
        (events : List (Event (Waiting q))) (answers : Answers q)
        → Follows zero [] events answers
        → answers ≡ replicate (length answers) (some (err e))
    Follows-replicate [] answers h = rw h refl
    Follows-replicate (asks ∷ events) answers (rest, same, h) =
        rw same (ap (λ more. some (err e) ∷ more) (Follows-replicate events rest h))
    Follows-replicate (sends s ∷ events) answers h = Follows-replicate events answers h
    Follows-replicate (drops ∷ events) answers h = Follows-replicate events answers h

    Follows-Final :
        (events : List (Event (Waiting q))) (n : ℕ) (queue : List (Waiting q)) (answers : Answers q)
        → Follows n queue events answers
        → Final answers
    Follows-Final [] n queue answers h = rw h tt
    Follows-Final (asks ∷ events) n (s ∷ queue) answers (rest, same, h) =
        rw same (Follows-Final events n queue rest h)
    Follows-Final (asks ∷ events) zero [] answers (rest, same, h) =
        rw same (refl, Follows-replicate events rest h)
    Follows-Final (asks ∷ events) (suc n) [] answers (rest, same, h) =
        rw same (Follows-Final events (suc n) [] rest h)
    Follows-Final (sends s ∷ events) zero queue answers h =
        Follows-Final events zero queue answers h
    Follows-Final (sends s ∷ events) (suc n) queue answers h =
        Follows-Final events n (queue ++ s ∷ []) answers h
    Follows-Final (drops ∷ events) zero queue answers h = Follows-Final events zero queue answers h
    Follows-Final (drops ∷ events) (suc n) queue answers h = Follows-Final events n queue answers h

    -- What comes of the events, from a channel with these streams.
    abbrev Drained :
        ℕ → List (Waiting q) → List (Event (Waiting q)) → Outcome (Answers q × Engine q) → Type 0
    Drained n queue events out =
        (answers : Answers q) × (self' : Engine q) × (out ≡ done (answers, self'))
        × Follows n queue events answers
        × (streams q answers ++ self'.uni_streams_channel ≡ queue ++ sent q n events)

    module _ (T E : Type 0) where
      abbrev failed : Option (Result (Result T WorkerError) E)
      failed = some (ok (err e))

      worker_result-Joins :
          (self : Engine q)
          → Joins e self.worker_handle
          → (h : WorkerHandler) × (worker_result q {T = T} {E = E} (ok (err e)) self
              ≡ done (e, record self { worker_handle = h }))
            × (h.stored ≡ some e)
      unfolding worker_result result
      worker_result-Joins self (inl known) = (
        record { join_handle = self.worker_handle.join_handle; stored = some e },
        rw known refl,
        refl,
      )
      worker_result-Joins self (inr (unknown, held)) =
          (record { join_handle = false; stored = some e }, rw (unknown, held) refl, refl)

      -- `accept_uni` by what its channel holds.
      accept_uni-received :
          (queue : List (Waiting q)) (n : ℕ) (self : Engine q)
          → self.uni_streams_channel ≡ queue
          → accept_uni q {T = T} {E = E} failed n self
            ≡ received q (λ left. record self { uni_streams_channel = left }) failed n self queue
      unfolding accept_uni
      accept_uni-received queue n self same =
          ap (received q (λ left. record self { uni_streams_channel = left }) failed n self) same

      empty_fails :
          (self : Engine q) (h : WorkerHandler)
          → self.uni_streams_channel ≡ []
          → worker_result q {T = T} {E = E} (ok (err e)) self
            ≡ done (e, record self { worker_handle = h })
          → accept_uni q {T = T} {E = E} failed 0 self
            ≡ done (some (err e, record self { worker_handle = h }))
      unfolding received
      empty_fails self h empty joined = accept_uni-received [] 0 self empty ∙ rw joined refl

      happens-Drained :
          (events : List (Event (Waiting q))) (n : ℕ) (queue : List (Waiting q)) (self : Engine q)
          → self.uni_streams_channel ≡ queue
          → Joins e self.worker_handle
          → Drained n queue events (happens q {T = T} {E = E} failed events n self)
      unfolding happens received
      happens-Drained [] n queue self same joins =
          ([], self, refl, refl, same ∙ sym (append-nil queue))
      happens-Drained (asks ∷ events) n (s ∷ queue) self same joins =
          let (answers, self', went, follows, kept) =
            happens-Drained events n queue (record self { uni_streams_channel = queue }) refl
              joins in
          (
            some (ok s) ∷ answers,
            self',
            rw (accept_uni-received (s ∷ queue) n self same, went) refl,
            (answers, refl, follows),
            ap (λ rest. s ∷ rest) kept,
          )
      happens-Drained (asks ∷ events) (suc n) [] self same joins =
          let (answers, self', went, follows, kept) =
            happens-Drained events (suc n) [] self same joins in
          (
            none ∷ answers,
            self',
            rw (accept_uni-received [] (suc n) self same, went) refl,
            (answers, refl, follows),
            kept,
          )
      happens-Drained (asks ∷ events) zero [] self same joins =
          let (h, joined, known) = worker_result-Joins self joins in
          let (answers, self', went, follows, kept) =
            happens-Drained events zero [] (record self { worker_handle = h }) same (inl known) in
          (
            some (err e) ∷ answers,
            self',
            rw (empty_fails self h same joined, went) refl,
            (answers, refl, follows),
            kept,
          )
      happens-Drained (sends s ∷ events) zero queue self same joins =
          happens-Drained events zero queue self same joins
      happens-Drained (sends s ∷ events) (suc n) queue self same joins =
          let (answers, self', went, follows, kept) =
            happens-Drained events n (queue ++ s ∷ [])
              (record self { uni_streams_channel = self.uni_streams_channel ++ s ∷ [] })
              (ap (λ left. left ++ s ∷ []) same) joins in
          (answers, self', went, follows, kept ∙ append_assoc queue (s ∷ []) (sent q n events))
      happens-Drained (drops ∷ events) zero queue self same joins =
          happens-Drained events zero queue self same joins
      happens-Drained (drops ∷ events) (suc n) queue self same joins =
          happens-Drained events n queue self same joins

      -- Let the worker have ended with an error, which its handle has stored or gets when it joins the
      -- task, while tasks may hold permits of the channel. Then in every order of calls of
      -- `accept_uni`, of streams that the tasks send and of permits that they drop, no call panics.
      -- It returns the first stream that waits; where none waits it is pending as long as a permit is
      -- held, and then it returns the error of the worker, as does every call behind it. The streams
      -- that were returned and those that are left are the ones that were in the channel and then
      -- those that were sent, in their order.
      pub happens-Final :
          (events : List (Event (Waiting q))) (permits : ℕ) (self : Engine q)
          → Joins e self.worker_handle
          → (answers : Answers q) × (self' : Engine q) × (happens q {T = T} {E = E} failed events
                permits self
              ≡ done (answers, self'))
            × Follows permits self.uni_streams_channel events answers
            × Final answers
            × (streams q answers ++ self'.uni_streams_channel
                ≡ self.uni_streams_channel ++ sent q permits events)
      happens-Final events permits self joins =
          let (answers, self', went, follows, kept) =
            happens-Drained events permits self.uni_streams_channel self refl joins in
          (answers, self', went, follows, Follows-Final events permits _ answers follows, kept)
