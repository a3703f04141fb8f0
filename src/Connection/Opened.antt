-- ===== src/Connection/Opened.antt =====
-- Streams between the two ends of a connection: what one end opens for its session, the other end
-- accepts in it.
use wtransport.Prelude.{
  ◌<◌, ◌≡◌, refl, ap, inl, inr, ℕ, List, [], ◌++◌, Option, none, some, Result, ok, err, Outcome,
  done, panic, bind,
}
use wtransport.Ids.SessionId.{SessionId}
use wtransport.Ids.Laws.{IsSessionId}
use wtransport.Quic.Octets.{Octets, OctetsLaws}
use wtransport.Quic.Qpack.{Qpack}
use wtransport.Quic.Streams.{Quinn}
use wtransport.Bytes.Async.Source.{Source}
use wtransport.Bytes.Async.Write.Sink.{Sink}
use wtransport.StreamHeader.{get_session_id}
use wtransport.StreamHeader.Wire.{IsHeader, wire}
use wtransport.StreamHeader.Wire.RoundTrip.{decode_header-wire}
use wtransport.Frame.{Frame}
use wtransport.Stream.Errors.{UpgradeError}
use wtransport.Stream.BiLocal
use wtransport.Stream.BiRemote
use wtransport.Worker.Accept.{process_inc_bi, to_wt}
use wtransport.Worker.Connects.{bi_session_connects}
use wtransport.Connection.Established.{read_frame-send}
use wtransport.Stream.{Stream, Raw, H3, Wt, TwoWay, session_of, header_of}
use wtransport.Stream.App.{SendStream, RecvStream, send_new, recv_new}
use wtransport.Stream.Laws.{uni_upgrade-Upgraded}
use wtransport.Stream.UniLocal.{UniLocal, uni_local_raw}
use wtransport.Stream.UniRemote
use wtransport.Stream.UniRemote.{UniRemote, uni_remote_raw}
use wtransport.Worker.{WorkerError}
use wtransport.ConnectionError.{Closing, QuinnConnectionError, close_worker_error}
use wtransport.Engine as Engine
use wtransport.Engine.{Given}
use wtransport.Engine.Opening.{Opened, open_uni-Opened, session_header}
use wtransport.Connection.{
  Connection, session_id, given, living, send_stream, open_uni, accept_uni, recv_stream,
  local_streams, two_streams, open_bi, accept_bi,
}

living_fails :
    {A : Type 0} (closing : Closing) (a : A) → ¬ (living {A = A} closing ≡ done (some (ok a, [])))
living_fails (done out) a made = cc
living_fails panic a made = cc

module _ (q : Quinn) (o : Octets) (laws : OctetsLaws o) (p : Qpack) (polls : ℕ)
    (sink : Sink q.writer) (source : Source q.reader) (ended : WorkerError)
    (reason : Option QuinnConnectionError) where
  open sink use {written}
  open source use {bytes}

  stream_written :
      (id : SessionId) (w : q.Send) (send : SendStream q) (out : Given (Stream (UniLocal q) Wt))
      → Opened q o laws polls sink ended id w out
      → bind out (given q o p polls ended reason (send_stream q o p polls ended reason))
        ≡ done (some (ok send, []))
      → written send.stream ≡ written w ++ wire (session_header id)
  unfolding given send_stream
  stream_written id w send out (inr same) made =
      absurd (living_fails (close_worker_error ended reason) send (rw same at made))
  stream_written id w send out (inl (s, same, session, left)) made =
      let got = rw same at made in let is : s.kind.send ≡ send.stream = cc in rw is at left

  -- Let the sink and the source wait fewer times than they are polled, and let the session of the
  -- connection have an id of a session. Where `open_uni` returned a stream, on which nothing was
  -- written before, and its bytes arrive in order, the other end upgrades the stream to one of the
  -- same session, and `accept_uni` gives it to the application with what follows the header.
  pub uni_stream_arrives :
      (self : Connection q) (id : SessionId) (w : q.Send) (send : SendStream q) (r : q.Recv)
      (rest : List ℕ) (ended' : WorkerError) (reason' : Option QuinnConnectionError)
      → session_id q self ≡ done id
      → IsSessionId id
      → sink.waits w < polls
      → written w ≡ []
      → open_uni q o p polls ended reason self (some (uni_local_raw q w))
        ≡ done (some (ok send, []))
      → source.waits r < polls
      → bytes r ≡ written send.stream ++ rest
      → (t : Stream (UniRemote q) H3) × (wt : Stream (UniRemote q) Wt) × (recv : RecvStream q)
        × (UniRemote.upgrade q o polls (uni_remote_raw q r) ≡ done (some (ok t)))
        × (UniRemote.upgrade_wt q t ≡ done wt)
        × (wt.stage.session_id ≡ id)
        × (accept_uni q o p polls ended' reason' (some wt) ≡ done (some (ok recv, [])))
        × (bytes recv.stream ≡ rest)
  unfolding open_uni session_id accept_uni recv_stream given Engine.accept UniRemote.upgrade_wt
      session_of header_of get_session_id
  uni_stream_arrives self id w send r rest ended' reason' known id_ok enough empty made enough'
        arrived =
      let made' = rw known at made in
      let left =
        stream_written id w send _ (open_uni-Opened q o laws polls sink ended id w id_ok enough)
          made' in
      let v : IsHeader (session_header id) = record { kind_ok = tt; shape = (id, refl, id_ok) } in
      let all : bytes r ≡ wire (session_header id) ++ rest = rw (left, empty) at arrived in
      let (t, got, header, next, _) =
        rw (all, decode_header-wire (session_header id) rest v) at
          (uni_upgrade-Upgraded q o laws polls source r enough') in
      (
        t,
        record { kind = t.kind; stage = record { session_id = id } },
        recv_new q t.kind.recv,
        got,
        rw header refl,
        refl,
        refl,
        next,
      )

  streams_made :
      (streams : SendStream q × RecvStream q)
      (out : Outcome (Option (Result (Stream (TwoWay q) Wt) UpgradeError)))
      → bind
          (bind out (Engine.or_ended q o polls ended))
          (given q o p polls ended reason (local_streams q o p polls ended reason))
        ≡ done (some (ok streams, []))
      → (s' : Stream (TwoWay q) Wt) × (out ≡ done (some (ok s')))
        × (local_streams q o p polls ended reason s' ≡ streams)
  unfolding given
  streams_made streams panic made = cc
  streams_made streams (done none) made = cc
  streams_made streams (done (some (err e))) made =
      absurd (living_fails (close_worker_error ended reason) streams made)
  streams_made streams (done (some (ok s'))) made = (s', refl, cc)

  -- Let the sink and the source wait fewer times than they are polled, and let the session of the
  -- connection have an id of a session. Where `open_bi` returned two streams, with nothing written
  -- before, and the bytes of the first arrive in order, the other end reads a frame that
  -- `process_inc_bi` routes to the same session, and `accept_bi` gives the application its two
  -- streams, the one it reads with what follows the frame, and the one it writes as it was.
  pub bi_stream_arrives :
      (self : Connection q) (id : SessionId) (s : Stream (TwoWay q) Raw)
      (streams : SendStream q × RecvStream q) (t : Stream (TwoWay q) Raw) (rest : List ℕ)
      (ended' : WorkerError) (reason' : Option QuinnConnectionError)
      → session_id q self ≡ done id
      → IsSessionId id
      → sink.waits s.kind.send < polls
      → written s.kind.send ≡ []
      → open_bi q o p polls ended reason self (some s) ≡ done (some (ok streams, []))
      → source.waits t.kind.recv < polls
      → bytes t.kind.recv ≡ written streams.0.stream ++ rest
      → (f : Frame) × (t' : Stream (TwoWay q) H3) × (recv : RecvStream q) × (BiRemote.read_frame q o
            polls
            (BiRemote.upgrade q t)
          ≡ done (some (ok f, t')))
        × (process_inc_bi (ok f) ≡ done (to_wt id))
        × (accept_bi q o p polls ended' reason' (some (BiRemote.upgrade_wt q id t'))
            ≡ done (some (ok (record { stream = t.kind.send }, recv), [])))
        × (bytes recv.stream ≡ rest)
  unfolding open_bi session_id accept_bi two_streams local_streams given Engine.open_bi
      Engine.accept BiRemote.upgrade BiRemote.upgrade_wt BiLocal.upgrade BiLocal.into_raw
      BiRemote.into_raw send_new recv_new
  bi_stream_arrives self id s streams t rest ended' reason' known id_ok enough empty made enough'
        arrived =
      let (s', upgraded, is) = streams_made streams _ (rw known at made) in
      let same : s'.kind.send ≡ streams.0.stream = ap (λ x. x.0.stream) is in
      let (f, t', read, routed, next) =
        bi_session_connects q o laws polls sink source id (BiLocal.upgrade q s) s'
          (BiRemote.upgrade q t) rest id_ok enough empty upgraded enough' (rw same arrived) in
      let kept : t'.kind.send ≡ t.kind.send =
        read_frame-send q o polls (BiRemote.upgrade q t) t' (ok f) read in
      (f, t', recv_new q t'.kind.recv, read, routed, rw kept refl, next)
