-- ===== src/Connection/Established.antt =====
-- The two ends of a connection: a client and a server that connect have the same session.
use wtransport.Prelude.{
  ◌≤◌, ◌<◌, ◌≡◌, refl, sym, ap, ◌∙◌, ℕ, suc, List, [], ◌++◌, Option, none, some, Result, ok,
  Outcome, done, panic, bind, le→leb, bit_and, bit_and-one, bit_and-two, arith,
}
use wtransport.VarInt.{varint_max, from_u64_unchecked}
use wtransport.Ids.SessionId
use wtransport.Ids.SessionId.{SessionId}
use wtransport.Ids.Laws.{IsSessionId}
use wtransport.Ids.StreamId
use wtransport.Quic.Octets.{Octets, OctetsLaws}
use wtransport.Quic.Qpack.{Qpack, Codes}
use wtransport.Quic.Streams.{Quinn}
use wtransport.Bytes.Async.Source.{Source}
use wtransport.Bytes.Async.Write.Sink.{Sink}
use wtransport.Frame.{Frame, get_session_id}
use wtransport.Headers.Laws.{headers_frame}
use wtransport.Settings.{Settings}
use wtransport.Stream.{Stream, Raw, H3, TwoWay, put_back, send_stream_id, checked_id}
use wtransport.Stream.Errors.{FrameReadError}
use wtransport.Stream.BiRemote
use wtransport.Stream.BiLocal
use wtransport.Session as Session
use wtransport.Session.{
  Session, SessionRemoteRequest, SessionRemoteResponse, request, request_headers, response_headers,
  accept, confirm, validate_request,
}
use wtransport.Session.Established.{request_arrives, response_confirms}
use wtransport.Worker.{WorkerError}
use wtransport.Worker.Accept.{permit, to_h3, process_inc_bi}
use wtransport.Worker.Requests.{requested, handle_new_h3_bi, request_sent}
use wtransport.ConnectionError.{QuinnConnectionError}
use wtransport.Engine.{remote_settings, connect_session}
use wtransport.Engine as Engine
use wtransport.Connection.{
  connect_as_server, connect_as_client, with_quic, with_worker, with_session, accepting, requesting,
  made, session_id,
}

-- The session of the stream with an id.
abbrev pub session_of : ℕ → SessionId
session_of id = record { session_stream = record { varint = id } }

module _ (q : Quinn) (o : Octets) (polls : ℕ) where
  put_back_send :
      (t t' : Stream (TwoWay q) H3) (x : Result Frame FrameReadError)
      (out : Outcome (Option (Result Frame FrameReadError × q.Recv)))
      → bind out (λ y. done (put_back (BiRemote.recv_part q) (BiRemote.with_recv q) t y))
        ≡ done (some (x, t'))
      → t'.kind.send ≡ t.kind.send
  put_back_send t t' x panic read = cc
  put_back_send t t' x (done none) read = cc
  put_back_send t t' x (done (some (y, r))) read =
      let is : BiRemote.with_recv q r t ≡ t' = cc in ap (λ u. u.kind.send) (sym is)

  -- Reading a frame leaves the send stream as it was.
  pub read_frame-send :
      (t t' : Stream (TwoWay q) H3) (x : Result Frame FrameReadError)
      → BiRemote.read_frame q o polls t ≡ done (some (x, t'))
      → t'.kind.send ≡ t.kind.send
  unfolding BiRemote.read_frame
  read_frame-send t t' x read = put_back_send t t' x _ read

module _ (q : Quinn) (o : Octets) (laws : OctetsLaws o) (p : Qpack) (polls : ℕ)
    (sink : Sink q.writer) (source : Source q.reader) where
  open sink use {written}
  open source use {bytes}

  -- The frame that the server reads is the request, and its worker sends it to the application.
  request_taken :
      (s : Stream (TwoWay q) H3) (c : SessionRemoteResponse q) (t t' : Stream (TwoWay q) H3)
      (f : Frame) (bs rest : List ℕ)
      → q.send_id s.kind.send ≤ varint_max
      → q.send_id t.kind.send ≡ q.send_id s.kind.send
      → Codes p (q.send_id s.kind.send) request_headers bs
      → sink.waits s.kind.send < polls
      → written s.kind.send ≡ []
      → request q o p polls s ≡ done (some (ok c))
      → source.waits t.kind.recv < polls
      → bytes t.kind.recv ≡ written c.stream.kind.send ++ rest
      → BiRemote.read_frame q o polls t ≡ done (some (ok f, t'))
      → (process_inc_bi (ok f) ≡ done (to_h3 f))
        × (handle_new_h3_bi q p t' f permit
            ≡ done (ok (requested (record { stream = t'; headers = request_headers }))))
  unfolding process_inc_bi get_session_id
  request_taken s c t t' f bs rest low same_id codes enough empty made enough' arrived read =
      let (u, read', decoded, _, _) =
        request_arrives q o laws p polls sink source s c t bs rest low same_id codes enough empty
          made enough' arrived in
      let is_f : f ≡ headers_frame bs = let both = sym read ∙ read' in cc in
      let same : q.send_id t'.kind.send ≡ q.send_id t.kind.send =
        ap q.send_id (read_frame-send q o polls t t' (ok f) read) in
      (
        rw is_f refl,
        request_sent q p t' f request_headers (rw (same, same_id) low) (rw is_f refl)
            (rw (is_f, same) decoded),
      )

  server_connects :
      (ended : WorkerError) (reason : Option QuinnConnectionError) (shown : Option Settings)
      (changes : List (Result (Option Settings) (Unit {0}))) (settings : Settings)
      (r : SessionRemoteRequest q) (session : Session q)
      → remote_settings ended shown changes ≡ some (ok settings)
      → accept q o p polls r ≡ done (some (ok session))
      → connect_as_server q o p polls ended reason (ok tt) shown changes (some (some r))
        ≡ done (some (ok (record { session = session }), []))
  unfolding connect_as_server with_quic with_worker with_session accepting Engine.accept
  server_connects ended reason shown changes settings r session known accepted =
      rw (known, accepted) refl

  client_connects :
      (ended : WorkerError) (reason : Option QuinnConnectionError) (shown : Option Settings)
      (changes : List (Result (Option Settings) (Unit {0}))) (settings : Settings) (fuel : ℕ)
      (s : Stream (TwoWay q) Raw) (c : SessionRemoteResponse q) (session : Session q)
      → remote_settings ended shown changes ≡ some (ok settings)
      → request q o p polls (BiLocal.upgrade q s) ≡ done (some (ok c))
      → confirm q o p polls fuel c.stream ≡ done (some (ok session))
      → connect_as_client q o p polls ended reason fuel (ok tt) shown changes (some s)
        ≡ done (some (ok (record { session = session }), []))
  unfolding connect_as_client with_quic with_worker with_session requesting connect_session
  client_connects ended reason shown changes settings fuel s c session known sent confirmed =
      rw (known, sent, confirmed) refl

  session_id_total :
      (session : Session q) (id : ℕ)
      → q.send_id session.stream.kind.send ≡ id
      → IsSessionId (session_of id)
      → session_id q (record { session = session }) ≡ done (session_of id)
  unfolding session_id Session.id BiLocal.bi_id send_stream_id checked_id from_u64_unchecked
      StreamId.new SessionId.from_session_stream_unchecked StreamId.is_bidirectional
      StreamId.is_client_initiated
  session_id_total session id same h =
      let two : bit_and id 2 ≡ 0 = omega (arith, bit_and-two id, h.quarter) in
      let one : bit_and id 1 ≡ 0 = omega (arith, bit_and-one id, h.quarter) in
      rw (same, le→leb _ _ h.in_range, two, one) refl

  -- Let the id of the client's bidirectional stream be a multiple of four and a varint, and that of
  -- the server's stream and of both streams after they were written the same; let the headers of
  -- request and answer have encodings that decode to them and fit a frame; let sink and source
  -- wait fewer times than they are polled, and let each side have got the settings of the other.
  -- Where the client wrote its request whole on the new stream, the bytes of both directions arrive
  -- in order, the server read a frame and accepted the request behind it, the worker of the server
  -- sends that request to the application, both `connect_as_server` and `connect_as_client` return a
  -- connection and close nothing, and the session of both has the id of the client's stream.
  pub connection_established :
      (ended ended' : WorkerError) (reason reason' : Option QuinnConnectionError)
      (shown shown' : Option Settings)
      (changes changes' : List (Result (Option Settings) (Unit {0})))
      (settings settings' : Settings) (fuel : ℕ) (s : Stream (TwoWay q) Raw)
      (c : SessionRemoteResponse q) (t t' : Stream (TwoWay q) H3) (f : Frame) (session : Session q)
      (bs bs' rest rest' : List ℕ)
      → IsSessionId (session_of (q.send_id s.kind.send))
      → q.send_id c.stream.kind.send ≡ q.send_id s.kind.send
      → q.send_id t.kind.send ≡ q.send_id s.kind.send
      → q.send_id session.stream.kind.send ≡ q.send_id s.kind.send
      → Codes p (q.send_id s.kind.send) request_headers bs
      → Codes p (q.send_id s.kind.send) response_headers bs'
      → remote_settings ended shown changes ≡ some (ok settings)
      → remote_settings ended' shown' changes' ≡ some (ok settings')
      → sink.waits s.kind.send < polls
      → written s.kind.send ≡ []
      → request q o p polls (BiLocal.upgrade q s) ≡ done (some (ok c))
      → source.waits t.kind.recv < polls
      → bytes t.kind.recv ≡ written c.stream.kind.send ++ rest
      → BiRemote.read_frame q o polls t ≡ done (some (ok f, t'))
      → sink.waits t.kind.send < polls
      → written t.kind.send ≡ []
      → accept q o p polls (record { stream = t'; headers = request_headers })
        ≡ done (some (ok session))
      → source.waits c.stream.kind.recv < polls
      → bytes c.stream.kind.recv ≡ written session.stream.kind.send ++ rest'
      → (session' : Session q) × (process_inc_bi (ok f) ≡ done (to_h3 f))
        × (handle_new_h3_bi q p t' f permit
            ≡ done (ok (requested (record { stream = t'; headers = request_headers }))))
        × (connect_as_server q o p polls ended reason
              (ok tt)
              shown
              changes
              (some (some (record { stream = t'; headers = request_headers })))
            ≡ done (some (ok (record { session = session }), [])))
        × (connect_as_client q o p polls ended' reason' (suc fuel) (ok tt) shown' changes' (some s)
            ≡ done (some (ok (record { session = session' }), [])))
        × (session_id q (record { session = session }) ≡ done (session_of (q.send_id s.kind.send)))
        × (session_id q (record { session = session' }) ≡ done (session_of (q.send_id s.kind.send)))
  unfolding BiLocal.upgrade BiLocal.normalize
  connection_established ended ended' reason reason' shown shown' changes changes' settings
        settings' fuel s c t t' f session bs bs' rest rest' id_ok id_c id_t id_session codes codes'
        known known' enough empty sent enough_t arrived read enough_t' empty_t accepted enough_c
        arrived_c =
      let up = BiLocal.upgrade q s in
      let (routed, taken) =
        request_taken up c t t' f bs rest id_ok.in_range id_t codes enough empty sent enough_t
          arrived read in
      let same : t'.kind.send ≡ t.kind.send = read_frame-send q o polls t t' (ok f) read in
      let id_t' : q.send_id t'.kind.send ≡ q.send_id s.kind.send = ap q.send_id same ∙ id_t in
      let (u, confirmed, kept, _) =
        response_confirms q o laws p polls sink source
          (record { stream = t'; headers = request_headers }) session c.stream bs' rest' fuel
          (rw id_t' id_ok.in_range) (id_c ∙ sym id_t') (rw id_t' codes') (rw same enough_t')
          (rw same empty_t) accepted enough_c arrived_c in
      let session' : Session q = record { stream = BiLocal.normalize q u } in
      (
        session',
        routed,
        taken,
        server_connects ended reason shown changes settings _ session known accepted,
        client_connects ended' reason' shown' changes' settings' (suc fuel) s c session' known' sent
            confirmed,
        session_id_total session _ id_session id_ok,
        session_id_total session' _ (ap q.send_id kept ∙ id_c) id_ok,
      )
