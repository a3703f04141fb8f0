-- ===== src/Connection/Concludes.antt =====
-- A connection attempt ends: with a connection, or with an error and what it closes.
use wtransport.Prelude.{
  ◌≤◌, ◌<◌, ◌≡◌, refl, inl, inr, ℕ, List, Option, none, some, Result, done, bind, length,
}
use wtransport.VarInt.{varint_max}
use wtransport.Quic.Octets.{Octets, OctetsLaws}
use wtransport.Quic.Qpack.{Qpack, Codes, Unblocked}
use wtransport.Quic.Streams.{Quinn}
use wtransport.Bytes.Async.Source.{Source}
use wtransport.Bytes.Async.Write.Sink.{Sink}
use wtransport.Settings.{Settings}
use wtransport.Stream.{Stream, Raw, H3, TwoWay}
use wtransport.Stream.BiLocal
use wtransport.Session.{
  Answer, Session, SessionError, SessionRemoteRequest, confirm, accept, request_headers,
  response_headers,
}
use wtransport.Session.Confirming.{confirm-Ended}
use wtransport.Session.Answering.{accept-AcceptEnds, request-RequestEnds}
use wtransport.Worker.{WorkerError}
use wtransport.ConnectionError.{QuinnConnectionError}
use wtransport.ConnectionError.Laws.{Explained}
use wtransport.Engine as Engine
use wtransport.Engine.{remote_settings, connect_session}
use wtransport.Connection.Closes.{
  Ended, Concluded, Converts, worker-ClosesTold, session-ClosesTold, dropping-Ended, worker-Ended,
  session-Ended, quic-Concluded,
}
use wtransport.Connection.{
  connect_as_server, connect_as_client, with_worker, with_session, accepting, requesting, made,
}

module _ (q : Quinn) (o : Octets) (laws : OctetsLaws o) (p : Qpack) (polls : ℕ)
    (sink : Sink q.writer) (source : Source q.reader) (ended : WorkerError)
    (reason : Option QuinnConnectionError) (known : Explained WorkerError.remote_closed reason)
    (ids : (w : q.Send) → q.send_id w ≤ varint_max) where
  -- A request whose answer can be encoded, on a stream that waits fewer times than it is polled.
  abbrev pub Acceptable : Option (SessionRemoteRequest q) → Type 0
  Acceptable none = Unit {0}
  Acceptable (some r) =
      ((bs : List ℕ) × Codes p (q.send_id r.stream.kind.send) response_headers bs)
      × (sink.waits r.stream.kind.send < polls)

  answer-Ended :
      (out : Answer q o p polls (Session q))
      → ((x : Result (Session q) SessionError) × (out ≡ done (some x)))
      → Ended q (
          bind out
            λ answer. with_session q o p polls ended reason answer (made q o p polls ended reason))
  answer-Ended out (x, ends) =
      rw ends (session-Ended q o p polls ended reason known x _ λ a e. inl (_, refl))

  accepting-Ended :
      (incoming : Option (SessionRemoteRequest q))
      → Acceptable incoming
      → Ended q (accepting q o p polls ended reason (some incoming))
  unfolding accepting Engine.accept with_worker
  accepting-Ended none h = dropping-Ended q _ (worker-ClosesTold q ended reason known)
  accepting-Ended (some r) ((bs, codes), enough) =
      answer-Ended (accept q o p polls r)
        (accept-AcceptEnds q o laws p polls sink source r bs (ids r.stream.kind.send) codes enough)

  requesting-Ended :
      (fuel : ℕ) (s : Stream (TwoWay q) H3) (bs : List ℕ)
      → Unblocked p
      → Codes p (q.send_id s.kind.send) request_headers bs
      → sink.waits s.kind.send < polls
      → source.waits s.kind.recv < polls
      → length (source.bytes s.kind.recv) < fuel
      → Ended q (requesting q o p polls ended reason fuel s)
  unfolding requesting with_session
  requesting-Ended fuel s bs free codes enough enough' more =
      elim (request-RequestEnds q o laws p polls sink source s bs (ids s.kind.send) codes enough) [
        | inl (e, made) ↦ rw made (dropping-Ended q _ (session-ClosesTold q e reason known))
        | inr (c, made, same) ↦ rw made (
            answer-Ended (confirm q o p polls fuel c.stream) (
              confirm-Ended q o laws p polls source fuel c.stream free (ids c.stream.kind.send)
                (rw same enough') (rw same more)))
      ]

  -- Let the reason of a connection that is closed be known and convertible, the error of a failed
  -- QUIC attempt too, the ids of streams be varints, and the settings and the session of the peer
  -- have come, or the worker have ended; let the answer to a session have an encoding that fits a
  -- frame, and its stream wait fewer times than it is polled. Then `connect_as_server` ends without
  -- a panic. A failed QUIC attempt is its converted error. Otherwise it is a connection, for which
  -- nothing is closed, or an error, for which the last close is that of the dropped engine, and
  -- before it there is none or, where the error is of HTTP/3, at most the one with its code and reason.
  pub connect_as_server-Concluded :
      (quic : Result (Unit {0}) QuinnConnectionError) (shown : Option Settings)
      (changes : List (Result (Option Settings) (Unit {0}))) (y : Result Settings WorkerError)
      (incoming : Option (SessionRemoteRequest q))
      → Converts q quic
      → remote_settings ended shown changes ≡ some y
      → Acceptable incoming
      → Concluded q quic
          (connect_as_server q o p polls ended reason quic shown changes (some incoming))
  unfolding connect_as_server
  connect_as_server-Concluded quic shown changes y incoming h settled accepted =
      quic-Concluded q o p polls ended reason known quic _ h (
        rw settled (
          worker-Ended q o p polls ended reason known y _ λ a e. accepting-Ended incoming accepted))

  -- Let the reason of a connection that is closed be known and convertible, the error of a failed
  -- QUIC attempt too, the ids of streams be varints, QPACK block no stream, and the settings of the
  -- peer have come, or the worker have ended; let the request have an encoding that fits a frame, its
  -- stream wait fewer times than it is polled, and the fuel be more than the bytes that arrive. Then
  -- `connect_as_client` ends without a panic, and closes what `connect_as_server` closes.
  pub connect_as_client-Concluded :
      (quic : Result (Unit {0}) QuinnConnectionError) (shown : Option Settings)
      (changes : List (Result (Option Settings) (Unit {0}))) (y : Result Settings WorkerError)
      (fuel : ℕ) (s : Stream (TwoWay q) Raw) (bs : List ℕ)
      → Converts q quic
      → remote_settings ended shown changes ≡ some y
      → Unblocked p
      → Codes p (q.send_id s.kind.send) request_headers bs
      → sink.waits s.kind.send < polls
      → source.waits s.kind.recv < polls
      → length (source.bytes s.kind.recv) < fuel
      → Concluded q quic
          (connect_as_client q o p polls ended reason fuel quic shown changes (some s))
  unfolding connect_as_client connect_session BiLocal.upgrade with_worker
  connect_as_client-Concluded quic shown changes y fuel s bs h settled free codes enough enough'
        more =
      quic-Concluded q o p polls ended reason known quic _ h (
        rw settled (
          worker-Ended q o p polls ended reason known y _
            λ a e. requesting-Ended fuel (BiLocal.upgrade q s) bs free codes enough enough' more))
