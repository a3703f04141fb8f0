-- ===== src/Engine.antt =====
-- wtransport/src/engine/mod.rs: what a connection offers to the application. What the channels and
-- the `quinn` connection return when they are awaited is an argument; where one of them ends, the
-- error is the result of the worker.
pub mod Laws
pub mod Opening
pub mod State
pub mod Events
pub mod Drains
pub mod Tests
use wtransport.Prelude.{ℕ, List, [], ◌∷◌, Option, none, some, Result, ok, err, Outcome, done, bind}
use wtransport.Ids.SessionId.{SessionId}
use wtransport.Quic.Octets.{Octets}
use wtransport.Quic.Streams.{Quinn}
use wtransport.H3Error.{H3Error}
use wtransport.Datagram.App as App
use wtransport.Datagram.App.{Datagram}
use wtransport.Settings.{Settings}
use wtransport.StreamHeader as Header
use wtransport.Stream.{Stream, Raw, H3, Wt, TwoWay}
use wtransport.Stream.Errors.{UpgradeError}
use wtransport.Stream.BiLocal
use wtransport.Stream.UniLocal
use wtransport.Stream.UniLocal.{UniLocal}
use wtransport.Worker.{WorkerError, local_closed}
use wtransport.ConnectionError.{QuinnSendDatagramError, DatagramError, of_send_datagram}

-- A result, or `none` while the operation is pending. `ended` is what `worker_result` returns.
abbrev pub Given : Type 0 → Type 0
Given A = Outcome (Option (Result A WorkerError))

-- `accept_session`, `accept_bi` and `accept_uni`, whose bodies are the same on three channels.
unfoldable pub accept : {A : Type 0} → WorkerError → Option A → Result A WorkerError
accept ended (some stream) = ok stream
accept ended none = err ended

-- The loop of `remote_settings`: what the channel shows first, and then after each change of it,
-- which is an error where the worker is gone.
unfoldable pub remote_settings :
    {E : Type 0}
    → WorkerError
    → Option Settings
    → List (Result (Option Settings) E)
    → Option (Result Settings WorkerError)
remote_settings ended (some settings) changes = some (ok settings)
remote_settings ended none [] = none
remote_settings ended none (err e ∷ changes) = some (err ended)
remote_settings ended none (ok shown ∷ changes) = remote_settings ended shown changes

module _ (o : Octets) (ended : WorkerError) (session_id : SessionId) where
  abbrev pub of_datagram : Given Datagram → Result (Option Datagram) H3Error → Given Datagram
  of_datagram next (err h3error) = done (some (err (local_closed h3error)))
  of_datagram next (ok (some dgram)) = done (some (ok dgram))
  of_datagram next (ok none) = next

  -- The loop of `receive_datagram`, with the datagrams that the connection returns.
  unfoldable pub receive_datagram : {E : Type 0} → List (Result (List ℕ) E) → Given Datagram
  unfolding App.read
  receive_datagram [] = done none
  receive_datagram (err e ∷ dgrams) = done (some (err ended))
  receive_datagram (ok quic_dgram ∷ dgrams) =
      bind (App.read o session_id quic_dgram) (of_datagram (receive_datagram dgrams))

unfoldable pub sent_datagram :
    Result (Unit {0}) QuinnSendDatagramError → Result (Unit {0}) DatagramError
unfolding of_send_datagram
sent_datagram (ok _) = ok tt
sent_datagram (err e) = err (of_send_datagram e)

-- The bytes that are given to the connection, with what it answers.
unfoldable pub send_datagram :
    Octets
    → (List ℕ → Result (Unit {0}) QuinnSendDatagramError)
    → List ℕ
    → SessionId
    → Outcome (Result (Unit {0}) DatagramError)
unfolding App.write sent_datagram
send_datagram o send payload session_id =
    bind (App.write o session_id payload) λ dgram. done (sent_datagram (send dgram.quic_dgram))

module _ (q : Quinn) (o : Octets) (polls : ℕ) (ended : WorkerError) where
  -- `connect_session`
  unfoldable pub connect_session :
      Option (Stream (TwoWay q) Raw) → Result (Stream (TwoWay q) H3) WorkerError
  unfolding BiLocal.upgrade
  connect_session (some stream) = ok (BiLocal.upgrade q stream)
  connect_session none = err ended

  abbrev pub or_ended : {A : Type 0} → Option (Result A UpgradeError) → Given A
  or_ended none = done none
  or_ended (some (ok stream)) = done (some (ok stream))
  or_ended (some (err e)) = done (some (err ended))

  unfoldable pub open_bi : SessionId → Option (Stream (TwoWay q) Raw) → Given (Stream (TwoWay q) Wt)
  unfolding BiLocal.upgrade BiLocal.upgrade_wt
  open_bi session_id none = done (some (err ended))
  open_bi session_id (some stream) =
      bind (BiLocal.upgrade_wt q o polls session_id (BiLocal.upgrade q stream)) or_ended

  abbrev pub header_ready :
      Option (Result (Stream (UniLocal q) H3) UpgradeError) → Given (Stream (UniLocal q) Wt)
  unfolding UniLocal.upgrade_wt
  header_ready none = done none
  header_ready (some (ok stream)) =
      bind (UniLocal.upgrade_wt q stream) λ upgraded. done (some (ok upgraded))
  header_ready (some (err e)) = done (some (err ended))

  unfoldable pub open_uni :
      SessionId → Option (Stream (UniLocal q) Raw) → Given (Stream (UniLocal q) Wt)
  unfolding Header.new_webtransport UniLocal.upgrade header_ready
  open_uni session_id none = done (some (err ended))
  open_uni session_id (some stream) =
      bind (Header.new_webtransport session_id)
        λ header. bind (UniLocal.upgrade q o polls header stream) header_ready
