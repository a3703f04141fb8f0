-- ===== src/Connection/Closes.antt =====
-- What the steps of a connection attempt return and close.
use Prim.Native.String.{String}
use wtransport.Prelude.{
  ◌≡◌, ◌⊎◌, refl, inl, inr, ℕ, List, [], ◌∷◌, ◌++◌, Option, none, some, Result, ok, err, done,
}
use wtransport.VarInt.{VarInt}
use wtransport.ErrorCode.{to_code}
use wtransport.Quic.Octets.{Octets}
use wtransport.Quic.Qpack.{Qpack}
use wtransport.Quic.Streams.{Quinn}
use wtransport.Session.{SessionError}
use wtransport.Worker.{WorkerError}
use wtransport.ConnectionError.{
  ConnectionError, Closing, QuinnConnectionError, of_connection, close_worker_error,
  close_session_error,
}
use wtransport.ConnectionError.Laws.{
  Application, Explained, of_connection_total, close_worker_error-Closes,
}
use wtransport.Connection.{
  Connection, Connected, with_quic, with_worker, with_session, dropping, drop_close, listed, made,
}

module _ (q : Quinn) where
  -- What an error closes before the engine is dropped: nothing, or an HTTP/3 error with its code and
  -- its reason.
  abbrev pub Told : ConnectionError → List (VarInt × String) → Type 0
  Told (ConnectionError.h3 e) closes = (closes ≡ []) ⊎ (closes ≡ (to_code e.code, e.reason) ∷ [])
  Told _ closes = closes ≡ []

  -- A connection, for which nothing is closed, or an error, for which the last close is that of the
  -- engine.
  abbrev pub Ended : Connected q → Type 0
  Ended out =
      ((c : Connection q) × (out ≡ done (some (ok c, []))))
      ⊎ ((e : ConnectionError) × (closes : List (VarInt × String)) × (out
            ≡ done (some (err e, closes ++ drop_close ∷ [])))
          × Told e closes)

  -- An error of the QUIC connection attempt is converted, and there is nothing to close.
  abbrev pub Concluded : Result (Unit {0}) QuinnConnectionError → Connected q → Type 0
  Concluded (err e) out =
      (error : ConnectionError) × (of_connection e ≡ done error)
      × (out ≡ done (some (err error, [])))
  Concluded (ok _) out = Ended out

  abbrev pub Converts : Result (Unit {0}) QuinnConnectionError → Type 0
  Converts (err e) = Application e
  Converts (ok _) = Unit {0}

  -- The error and the close that an error of the worker or of a session makes.
  abbrev pub ClosesTold : Closing → Type 0
  ClosesTold closing =
      (e : ConnectionError) × (close : Option (VarInt × String)) × (closing ≡ done (e, close))
      × Told e (listed close)

  nothing-Told : (e : ConnectionError) → Told e []
  nothing-Told (ConnectionError.h3 h) = inl refl
  nothing-Told (ConnectionError.connection_closed c) = refl
  nothing-Told ConnectionError.timed_out = refl
  nothing-Told ConnectionError.locally_closed = refl
  nothing-Told ConnectionError.quic_error = refl

  pub worker-ClosesTold :
      (e : WorkerError) (reason : Option QuinnConnectionError)
      → Explained WorkerError.remote_closed reason
      → ClosesTold (close_worker_error e reason)
  worker-ClosesTold (WorkerError.local_closed h3error) reason h = (
    ConnectionError.h3 h3error,
    some (to_code h3error.code, h3error.reason),
    close_worker_error-Closes (WorkerError.local_closed h3error) reason tt,
    inr refl,
  )
  worker-ClosesTold WorkerError.remote_closed reason h =
      let (error, told) = close_worker_error-Closes WorkerError.remote_closed reason h in
      (error, none, told, nothing-Told error)

  pub session-ClosesTold :
      (e : SessionError) (reason : Option QuinnConnectionError)
      → Explained WorkerError.remote_closed reason
      → ClosesTold (close_session_error e reason)
  unfolding close_session_error
  session-ClosesTold (SessionError.local_closed h3error) reason h =
      (ConnectionError.h3 h3error, none, refl, inl refl)
  session-ClosesTold SessionError.remote_closed none h = absurd h
  session-ClosesTold SessionError.remote_closed (some e) h =
      let (error, told) = of_connection_total e h in (error, none, rw told refl, nothing-Told error)

  pub dropping-Ended : (closing : Closing) → ClosesTold closing → Ended (dropping closing)
  unfolding dropping
  dropping-Ended closing (e, close, made, told) = inr (e, listed close, rw made refl, told)

module _ (q : Quinn) (o : Octets) (p : Qpack) (polls : ℕ) (ended : WorkerError)
    (reason : Option QuinnConnectionError)
    (known : Explained WorkerError.remote_closed reason) where
  pub worker-Ended :
      {A : Type 0} (y : Result A WorkerError) (next : A → Connected q)
      → ((a : A) → y ≡ ok a → Ended q (next a))
      → Ended q (with_worker q o p polls ended reason (some y) next)
  unfolding with_worker
  worker-Ended (ok a) next k = k a refl
  worker-Ended (err e) next k = dropping-Ended q _ (worker-ClosesTold q e reason known)

  pub session-Ended :
      {A : Type 0} (y : Result A SessionError) (next : A → Connected q)
      → ((a : A) → y ≡ ok a → Ended q (next a))
      → Ended q (with_session q o p polls ended reason (some y) next)
  unfolding with_session
  session-Ended (ok a) next k = k a refl
  session-Ended (err e) next k = dropping-Ended q _ (session-ClosesTold q e reason known)

  pub quic-Concluded :
      (quic : Result (Unit {0}) QuinnConnectionError) (next : Connected q)
      → Converts q quic
      → Ended q next
      → Concluded q quic (with_quic q o p polls ended reason quic next)
  unfolding with_quic
  quic-Concluded (ok _) next h k = k
  quic-Concluded (err e) next h k =
      let (error, made) = of_connection_total e h in (error, made, rw made refl)
