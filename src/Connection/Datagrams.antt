-- ===== src/Connection/Datagrams.antt =====
-- Datagrams between the two ends of a connection.
use wtransport.Prelude.{◌≡◌, refl, ℕ, List, [], ◌∷◌, Option, some, Result, ok, err, done}
use wtransport.Ids.SessionId.{SessionId}
use wtransport.Ids.Laws.{IsSessionId}
use wtransport.Quic.Octets.{Octets, OctetsLaws}
use wtransport.Quic.Qpack.{Qpack}
use wtransport.Quic.Streams.{Quinn}
use wtransport.Datagram.App as App
use wtransport.Datagram.App.{Datagram}
use wtransport.Datagram.App.Laws.{read-write}
use wtransport.Worker.{WorkerError}
use wtransport.ConnectionError.{
  QuinnConnectionError, QuinnSendDatagramError, DatagramError, of_send_datagram,
}
use wtransport.Engine as Engine
use wtransport.Engine.Laws.{Foreign, arriving, receive_datagram-write}
use wtransport.Connection.{Connection, session_id, send_datagram, receive_datagram, received}

-- What `send_datagram` returns, for each answer of the QUIC connection.
abbrev pub Told :
    Result (Unit {0}) QuinnSendDatagramError → Result (Unit {0}) DatagramError → Type 0
Told (ok _) r = r ≡ ok tt
Told (err QuinnSendDatagramError.unsupported_by_peer) r = r ≡ err DatagramError.unsupported_by_peer
Told (err QuinnSendDatagramError.disabled) r = r ≡ err DatagramError.protocol
Told (err QuinnSendDatagramError.too_large) r = r ≡ err DatagramError.protocol
Told (err (QuinnSendDatagramError.connection_lost e)) r = r ≡ err DatagramError.connection_closed

sent_datagram-Told :
    (answer : Result (Unit {0}) QuinnSendDatagramError) → Told answer (Engine.sent_datagram answer)
unfolding Engine.sent_datagram of_send_datagram
sent_datagram-Told (ok _) = refl
sent_datagram-Told (err QuinnSendDatagramError.unsupported_by_peer) = refl
sent_datagram-Told (err QuinnSendDatagramError.disabled) = refl
sent_datagram-Told (err QuinnSendDatagramError.too_large) = refl
sent_datagram-Told (err (QuinnSendDatagramError.connection_lost e)) = refl

module _ (q : Quinn) (o : Octets) (laws : OctetsLaws o) (p : Qpack) (polls : ℕ)
    (ended : WorkerError) (reason : Option QuinnConnectionError) where
  -- Let both ends of a connection have the same session. `send_datagram` gives the QUIC connection
  -- one datagram. It returns `Ok` where that takes it, `UnsupportedByPeer` where the peer takes none,
  -- `Protocol` where they are disabled or this one is too large, and `ConnectionClosed` where the
  -- connection is lost. Where the datagram arrives, behind datagrams of
  -- other sessions, `receive_datagram` of the other end passes over these, returns it and closes
  -- nothing, and its payload is the one that was sent.
  pub datagram_arrives :
      (self peer : Connection q) (id : SessionId) (payload : List ℕ) (others : List (List ℕ))
      (more : List (Result (List ℕ) (Unit {0})))
      (send : List ℕ → Result (Unit {0}) QuinnSendDatagramError)
      → session_id q self ≡ done id
      → session_id q peer ≡ done id
      → IsSessionId id
      → Foreign o id others
      → (d : Datagram) × (r : Result (Unit {0}) DatagramError) × (send_datagram q o p polls ended
            reason self send payload
          ≡ done r)
        × Told (send d.quic_dgram) r
        × (receive_datagram q o p polls ended reason peer (arriving others (ok d.quic_dgram ∷ more))
            ≡ done (some (ok d, [])))
        × (App.deref d ≡ done payload)
  unfolding session_id send_datagram receive_datagram received Engine.send_datagram
  datagram_arrives self peer id payload others more send knows peer_knows id_ok foreign =
      let (d, wrote, _, shows) = read-write o laws id id payload id_ok in
      let (arrives, _) =
        receive_datagram-write o laws ended id others payload d more id_ok foreign wrote in
      (
        d,
        Engine.sent_datagram (send d.quic_dgram),
        rw (knows, wrote) refl,
        sent_datagram-Told (send d.quic_dgram),
        rw (peer_knows, arrives) refl,
        shows,
      )
