-- ===== src/Session/Established.antt =====
-- The two ends of a session: what `request` sends is a valid request at the other end, and what
-- `accept` answers is confirmed. That QUIC delivers the bytes of a stream in order is a hypothesis.
use wtransport.Prelude.{
  ℕ, suc, ◌≤◌, ◌<◌, ◌≡◌, refl, ap, ◌∙◌, inl, inr, List, [], ◌++◌, Option, some, Result, ok, Outcome,
  done, bind,
}
use wtransport.VarInt.{varint_max}
use wtransport.Quic.Octets.{Octets, OctetsLaws}
use wtransport.Quic.Qpack.{Qpack, Codes}
use wtransport.Quic.Streams.{Quinn}
use wtransport.Bytes.Async.{IoError}
use wtransport.Bytes.Async.Chain.{converted}
use wtransport.Bytes.Async.Source.{Source}
use wtransport.Bytes.Async.Write.Sink.{Sink, Sent}
use wtransport.Frame.Wire.{wire}
use wtransport.Frame.Async.Writing.{write_async-Sends}
use wtransport.Headers
use wtransport.Headers.Laws.{headers_frame, headers_frame-IsFrame, with_frame-generate_frame}
use wtransport.Stream.{Stream, H3, TwoWay, on_part}
use wtransport.Stream.Errors.{io_to_frame_write}
use wtransport.Stream.BiRemote
use wtransport.Stream.BiLocal
use wtransport.Stream.Connected.{frame_connects}
use wtransport.Session.{
  Session, SessionRemoteRequest, SessionRemoteResponse, request, request_written, request_headers,
  response_headers, accept, accept_written, confirm, validate_request, validate_response,
}
use wtransport.Session.Confirming.{id_total}
use wtransport.Session.Validation.{validate_request_iff}
use wtransport.Prelude.{le→leb}
use wtransport.Ids.StreamId
use wtransport.VarInt.{from_u64_unchecked}
use wtransport.Stream.{send_stream_id, checked_id}
use wtransport.Session.{accept_valid, frame_read, by_kind, response_decoded, answered}

module _ (q : Quinn) (o : Octets) (laws : OctetsLaws o) (p : Qpack) (polls : ℕ)
    (sink : Sink q.writer) (source : Source q.reader) where
  open sink use {written}
  open source use {bytes}

  requested :
      (s : Stream (TwoWay q) H3) (c : SessionRemoteResponse q) (bs : List ℕ)
      (out : Outcome (Option (Result (Unit {0}) IoError × q.Send)))
      → Sent sink s.kind.send bs out
      → bind
          (on_part
            (BiLocal.send_part q)
            (BiLocal.with_send q)
            (converted io_to_frame_write (λ w. out))
            s)
          (request_written q o p polls)
        ≡ done (some (ok c))
      → out ≡ done (some (ok tt, c.stream.kind.send))
  unfolding request_written
  requested s c bs out (w', time, inl (a, same, left)) made =
      let got = rw same at made in let is : w' ≡ c.stream.kind.send = cc in rw is at same
  requested s c bs out (w', time, inr (e, n, same, _, _)) made = let got = rw same at made in cc

  -- Let the id of the stream be a varint and the same on both sides, let the headers of a request
  -- have an encoding that decodes to them and fits a frame, and let sink and source wait fewer
  -- times than they are polled. Then the request that one side wrote whole on a stream with
  -- nothing written before is, where its bytes arrive in order, the frame that the other side
  -- reads; its headers decode to those of the request, which are valid, and what follows the
  -- request is next.
  pub request_arrives :
      (s : Stream (TwoWay q) H3) (c : SessionRemoteResponse q) (t : Stream (TwoWay q) H3)
      (bs rest : List ℕ)
      → q.send_id s.kind.send ≤ varint_max
      → q.send_id t.kind.send ≡ q.send_id s.kind.send
      → Codes p (q.send_id s.kind.send) request_headers bs
      → sink.waits s.kind.send < polls
      → written s.kind.send ≡ []
      → request q o p polls s ≡ done (some (ok c))
      → source.waits t.kind.recv < polls
      → bytes t.kind.recv ≡ written c.stream.kind.send ++ rest
      → (t' : Stream (TwoWay q) H3) × (BiRemote.read_frame q o polls t
          ≡ done (some (ok (headers_frame bs), t')))
        × (Headers.with_frame p (headers_frame bs) (record { varint = q.send_id t.kind.send })
            ≡ done (ok request_headers))
        × (validate_request request_headers ≡ ok tt)
        × (bytes t'.kind.recv ≡ rest)
  unfolding request request_headers BiLocal.write_frame validate_request Headers.get
      Headers.from_iter Headers.insert
  request_arrives s c t bs rest low same_id codes enough empty made enough' arrived =
      let (framed, decoded) =
        with_frame-generate_frame p (record { varint = q.send_id s.kind.send }) request_headers bs
          codes in
      let made' = rw (id_total q o laws p polls source s low, framed) at made in
      let v = headers_frame-IsFrame p (q.send_id s.kind.send) request_headers bs codes in
      let sent = write_async-Sends o laws sink polls (headers_frame bs) s.kind.send v enough in
      let whole = requested s c (wire (headers_frame bs)) _ sent made' in
      let (t', read, next, _) =
        frame_connects q o laws polls sink source (headers_frame bs) s.kind.send c.stream.kind.send
          t rest v enough empty whole enough' arrived in
      (t', read, rw same_id decoded, refl, next)

  pub remote_id_total :
      (s : Stream (TwoWay q) H3)
      → q.send_id s.kind.send ≤ varint_max
      → BiRemote.id q s ≡ done (record { varint = q.send_id s.kind.send })
  unfolding BiRemote.id send_stream_id checked_id from_u64_unchecked StreamId.new
  remote_id_total s h = rw (le→leb _ _ h) refl

  answer_written :
      (s : Stream (TwoWay q) H3) (session : Session q) (bs : List ℕ)
      (out : Outcome (Option (Result (Unit {0}) IoError × q.Send)))
      → Sent sink s.kind.send bs out
      → bind
          (on_part
            (BiRemote.send_part q)
            (BiRemote.with_send q)
            (converted io_to_frame_write (λ w. out))
            s)
          (accept_written q o p polls)
        ≡ done (some (ok session))
      → out ≡ done (some (ok tt, session.stream.kind.send))
  unfolding accept_written BiRemote.normalize
  answer_written s session bs out (w', time, inl (a, same, left)) made =
      let got = rw same at made in let is : w' ≡ session.stream.kind.send = cc in rw is at same
  answer_written s session bs out (w', time, inr (e, n, same, _, _)) made =
      let got = rw same at made in cc

  -- Only valid requests are accepted.
  accepted_valid :
      (r : SessionRemoteRequest q) (session : Session q)
      → accept q o p polls r ≡ done (some (ok session))
      → validate_request r.headers ≡ ok tt
  unfolding accept
  accepted_valid r session made = elim (validate_request_iff r.headers).1 [
    | inl e ↦ e
    | inr (reason, e) ↦ let got = rw e at made in cc
  ]

  confirmed :
      (c u : Stream (TwoWay q) H3) (bs : List ℕ) (fuel : ℕ)
      → BiLocal.read_frame q o polls c ≡ done (some (ok (headers_frame bs), u))
      → q.send_id u.kind.send ≤ varint_max
      → Headers.with_frame p (headers_frame bs) (record { varint = q.send_id u.kind.send })
        ≡ done (ok response_headers)
      → confirm q o p polls (suc fuel) c
        ≡ done (some (ok (record { stream = BiLocal.normalize q u })))
  unfolding response_headers confirm frame_read by_kind response_decoded answered validate_response
      Headers.get Headers.from_iter Headers.insert
  confirmed c u bs fuel read low decoded =
      rw (read, id_total q o laws p polls source u low, decoded) refl

  -- Let the id of the stream be a varint and the same on both sides, let the headers of the
  -- answer have an encoding that decodes to them and fits a frame, and let sink and source wait
  -- fewer times than they are polled. Then the answer by which one side accepted a session, on a
  -- stream with nothing written before, lets the other side confirm the session where its bytes
  -- arrive in order, and what follows the answer is next.
  pub response_confirms :
      (r : SessionRemoteRequest q) (session : Session q) (c : Stream (TwoWay q) H3)
      (bs rest : List ℕ) (fuel : ℕ)
      → q.send_id r.stream.kind.send ≤ varint_max
      → q.send_id c.kind.send ≡ q.send_id r.stream.kind.send
      → Codes p (q.send_id r.stream.kind.send) response_headers bs
      → sink.waits r.stream.kind.send < polls
      → written r.stream.kind.send ≡ []
      → accept q o p polls r ≡ done (some (ok session))
      → source.waits c.kind.recv < polls
      → bytes c.kind.recv ≡ written session.stream.kind.send ++ rest
      → (u : Stream (TwoWay q) H3) × (confirm q o p polls (suc fuel) c
          ≡ done (some (ok (record { stream = BiLocal.normalize q u }))))
        × (u.kind.send ≡ c.kind.send)
        × (bytes u.kind.recv ≡ rest)
  unfolding accept accept_valid response_headers BiRemote.write_frame BiRemote.read_frame
      BiLocal.read_frame Headers.from_iter Headers.insert
  response_confirms r session c bs rest fuel low same_id codes enough empty made enough' arrived =
      let (framed, decoded) =
        with_frame-generate_frame p (record { varint = q.send_id r.stream.kind.send })
          response_headers bs codes in
      let made' =
        rw (accepted_valid r session made, remote_id_total r.stream low, framed) at made in
      let v = headers_frame-IsFrame p (q.send_id r.stream.kind.send) response_headers bs codes in
      let sent =
        write_async-Sends o laws sink polls (headers_frame bs) r.stream.kind.send v enough in
      let whole = answer_written r.stream session (wire (headers_frame bs)) _ sent made' in
      let (u, read, next, kept) =
        frame_connects q o laws polls sink source (headers_frame bs) r.stream.kind.send
          session.stream.kind.send c rest v enough empty whole enough' arrived in
      let same : q.send_id u.kind.send ≡ q.send_id r.stream.kind.send =
        ap q.send_id kept ∙ same_id in
      (u, confirmed c u bs fuel read (rw same low) (rw same decoded), kept, next)
