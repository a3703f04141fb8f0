-- ===== src/Connection.antt =====
-- wtransport/src/connection.rs: a connection attempt, and what a connection offers. What the worker
-- ended with and what `close_reason` of the `quinn` connection returns are arguments, as is what the
-- channels of the engine return. The calls of `close` on the connection are part of a result.
pub mod Closes
pub mod Concludes
pub mod Established
pub mod Opened
pub mod Datagrams
mod Tests
use Prim.Native.String.{String}
use wtransport.Prelude.{
  Bool, true, false, ℕ, List, [], ◌∷◌, ◌++◌, Option, none, some, Result, ok, err, Outcome, done,
  bind,
}
use wtransport.VarInt.{VarInt, from_u32}
use wtransport.Ids.SessionId.{SessionId}
use wtransport.Quic.Octets.{Octets}
use wtransport.Quic.Qpack.{Qpack}
use wtransport.Quic.Streams.{Quinn}
use wtransport.Datagram.App.{Datagram}
use wtransport.Settings.{Settings}
use wtransport.Stream.{Stream, Raw, H3, Wt, TwoWay}
use wtransport.Stream.App.{SendStream, RecvStream, send_new, recv_new}
use wtransport.Stream.BiLocal
use wtransport.Stream.BiRemote
use wtransport.Stream.UniLocal
use wtransport.Stream.UniLocal.{UniLocal}
use wtransport.Stream.UniRemote
use wtransport.Stream.UniRemote.{UniRemote}
use wtransport.Session as Session
use wtransport.Session.{
  Session, SessionError, SessionRemoteRequest, SessionRemoteResponse, accept, request, confirm,
}
use wtransport.Worker.{WorkerError}
use wtransport.ConnectionError.{
  ConnectionError, DatagramError, QuinnConnectionError, QuinnSendDatagramError, Closing,
  of_connection, close_worker_error, close_session_error,
}
use wtransport.Engine as Engine
use wtransport.Engine.{Given, remote_settings, connect_session}

-- A result with the calls of `close` that were made for it: their codes and reasons.
abbrev pub Answer : Type 0 → Type 0
Answer A = Outcome (Option (Result A ConnectionError × List (VarInt × String)))

abbrev pub listed : Option (VarInt × String) → List (VarInt × String)
listed none = []
listed (some close) = close ∷ []

-- The close of `Drop` of the engine.
abbrev pub drop_close : VarInt × String
unfolding from_u32
drop_close = (from_u32 0, "")

-- An error after the engine was made, which is dropped then.
abbrev pub dropping : {A : Type 0} → Closing → Answer A
unfolding drop_close
dropping closing = bind closing λ out. done (some (err out.0, listed out.1 ++ drop_close ∷ []))

-- An error on a connection that lives on.
abbrev pub living : {A : Type 0} → Closing → Answer A
living closing = bind closing λ out. done (some (err out.0, listed out.1))

module _ (q : Quinn) where
  -- The `quinn` connection and the engine, which `Connection` has too, are arguments.
  pub record Connection : Type 0 where
    pub session : Session q

  unfoldable pub session_id : Connection → Outcome SessionId
  unfolding Session.id
  session_id self = Session.id q self.session

  abbrev pub Connected : Type 0
  Connected = Answer Connection

module _ (q : Quinn) (o : Octets) (p : Qpack) (polls : ℕ) (ended : WorkerError)
    (reason : Option QuinnConnectionError) where
  -- The `map_err` of a step with the worker, and the step behind it.
  abbrev pub with_worker :
      {A : Type 0} → Option (Result A WorkerError) → (A → Connected q) → Connected q
  unfolding close_worker_error
  with_worker none next = done none
  with_worker (some (err e)) next = dropping (close_worker_error e reason)
  with_worker (some (ok a)) next = next a

  -- The `map_err` of a step with the session, and the step behind it.
  abbrev pub with_session :
      {A : Type 0} → Option (Result A SessionError) → (A → Connected q) → Connected q
  unfolding close_session_error
  with_session none next = done none
  with_session (some (err e)) next = dropping (close_session_error e reason)
  with_session (some (ok a)) next = next a

  abbrev pub made : Session q → Connected q
  made session = done (some (ok (record { session = session }), []))

  -- `quic_connecting.await?`
  abbrev pub with_quic : Result (Unit {0}) QuinnConnectionError → Connected q → Connected q
  unfolding of_connection
  with_quic (err e) next = bind (of_connection e) λ error. done (some (err error, []))
  with_quic (ok _) next = next

  -- What the channel of sessions returns, where it returns.
  abbrev pub accepting : Option (Option (SessionRemoteRequest q)) → Connected q
  unfolding accept close_worker_error
  accepting none = done none
  accepting (some incoming) =
      with_worker (some (Engine.accept ended incoming))
        λ asked. bind (accept q o p polls asked) λ answer. with_session answer made

  -- `connect_as_server`, with what the QUIC connection attempt, the channel of settings and the
  -- channel of sessions return.
  unfoldable pub connect_as_server :
      {E : Type 0}
      → Result (Unit {0}) QuinnConnectionError
      → Option Settings
      → List (Result (Option Settings) E)
      → Option (Option (SessionRemoteRequest q))
      → Connected q
  unfolding with_quic remote_settings with_worker accepting
  connect_as_server quic shown changes incoming =
      with_quic quic (with_worker (remote_settings ended shown changes) λ _. accepting incoming)

  abbrev pub requesting : ℕ → Stream (TwoWay q) H3 → Connected q
  unfolding request confirm with_session
  requesting fuel stream = bind (request q o p polls stream) λ sent.
      with_session sent λ response.
        bind (confirm q o p polls fuel response.stream) λ answer. with_session answer made

  -- `connect_as_client`, with what `open_bi` of the connection returns instead of a session.
  unfoldable pub connect_as_client :
      {E : Type 0}
      → ℕ
      → Result (Unit {0}) QuinnConnectionError
      → Option Settings
      → List (Result (Option Settings) E)
      → Option (Stream (TwoWay q) Raw)
      → Connected q
  unfolding with_quic remote_settings with_worker requesting connect_session
  connect_as_client fuel quic shown changes opened = with_quic quic (
      with_worker (remote_settings ended shown changes)
        λ _. with_worker (some (connect_session q o polls ended opened)) (requesting fuel))

  -- `Connecting::new`
  unfoldable pub connecting :
      {E : Type 0}
      → Bool
      → ℕ
      → Result (Unit {0}) QuinnConnectionError
      → Option Settings
      → List (Result (Option Settings) E)
      → Option (Option (SessionRemoteRequest q))
      → Option (Stream (TwoWay q) Raw)
      → Connected q
  unfolding connect_as_server connect_as_client
  connecting true fuel quic shown changes incoming opened =
      connect_as_server quic shown changes incoming
  connecting false fuel quic shown changes incoming opened =
      connect_as_client fuel quic shown changes opened

  -- The `map_err` of the methods of `Connection`.
  abbrev pub given : {A B : Type 0} → (A → B) → Option (Result A WorkerError) → Answer B
  unfolding close_worker_error
  given value none = done none
  given value (some (err e)) = living (close_worker_error e reason)
  given value (some (ok a)) = done (some (ok (value a), []))

  abbrev pub two_streams : Stream (TwoWay q) Wt → SendStream q × RecvStream q
  unfolding BiRemote.into_raw send_new recv_new
  two_streams wtstream =
      let raw_stream = BiRemote.into_raw q wtstream in
      (send_new q raw_stream.0, recv_new q raw_stream.1)

  abbrev pub local_streams : Stream (TwoWay q) Wt → SendStream q × RecvStream q
  unfolding BiLocal.into_raw send_new recv_new
  local_streams wtstream =
      let raw_stream = BiLocal.into_raw q wtstream in
      (send_new q raw_stream.0, recv_new q raw_stream.1)

  -- With what the channel of streams returns.
  unfoldable pub accept_bi : Option (Stream (TwoWay q) Wt) → Answer (SendStream q × RecvStream q)
  unfolding given two_streams
  accept_bi incoming = given two_streams (some (Engine.accept ended incoming))

  abbrev pub recv_stream : Stream (UniRemote q) Wt → RecvStream q
  unfolding UniRemote.into_raw recv_new
  recv_stream wtstream = recv_new q (UniRemote.into_raw q wtstream)

  unfoldable pub accept_uni : Option (Stream (UniRemote q) Wt) → Answer (RecvStream q)
  unfolding given recv_stream
  accept_uni incoming = given recv_stream (some (Engine.accept ended incoming))

  -- With the stream that the QUIC connection opens.
  unfoldable pub open_bi :
      Connection q → Option (Stream (TwoWay q) Raw) → Answer (SendStream q × RecvStream q)
  unfolding Session.id Engine.open_bi given local_streams
  open_bi self opened =
      bind (Session.id q self.session)
        λ session_id. bind (Engine.open_bi q o polls ended session_id opened) (given local_streams)

  abbrev pub send_stream : Stream (UniLocal q) Wt → SendStream q
  unfolding UniLocal.into_raw send_new
  send_stream wtstream = send_new q (UniLocal.into_raw q wtstream)

  unfoldable pub open_uni : Connection q → Option (Stream (UniLocal q) Raw) → Answer (SendStream q)
  unfolding Session.id Engine.open_uni given send_stream
  open_uni self opened =
      bind (Session.id q self.session)
        λ session_id. bind (Engine.open_uni q o polls ended session_id opened) (given send_stream)

  abbrev pub received :
      Option (Result Datagram WorkerError)
      → Outcome (Option (Result Datagram DatagramError × List (VarInt × String)))
  unfolding close_worker_error
  received none = done none
  received (some (ok dgram)) = done (some (ok dgram, []))
  received (some (err e)) =
      bind (close_worker_error e reason)
        λ out. done (some (err DatagramError.connection_closed, listed out.1))

  -- With the datagrams that the QUIC connection returns.
  unfoldable pub receive_datagram :
      {E : Type 0}
      → Connection q
      → List (Result (List ℕ) E)
      → Outcome (Option (Result Datagram DatagramError × List (VarInt × String)))
  unfolding Session.id Engine.receive_datagram received
  receive_datagram self dgrams =
      bind (Session.id q self.session)
        λ session_id. bind (Engine.receive_datagram o ended session_id dgrams) received

  -- With what the QUIC connection answers.
  unfoldable pub send_datagram :
      Connection q
      → (List ℕ → Result (Unit {0}) QuinnSendDatagramError)
      → List ℕ
      → Outcome (Result (Unit {0}) DatagramError)
  unfolding Session.id Engine.send_datagram
  send_datagram self send payload =
      bind (Session.id q self.session) λ session_id. Engine.send_datagram o send payload session_id
