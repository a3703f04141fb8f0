-- ===== src/Session/Answering.antt =====
-- Accepting and requesting a session end.
use wtransport.Prelude.{
  ◌≤◌, ◌<◌, ◌≡◌, ◌⊎◌, refl, inl, inr, ℕ, List, Option, some, Result, ok, err, Outcome, done, bind,
}
use wtransport.VarInt.{varint_max}
use wtransport.Quic.Octets.{Octets, OctetsLaws}
use wtransport.Quic.Qpack.{Qpack, Codes}
use wtransport.Quic.Streams.{Quinn}
use wtransport.Bytes.Async.{IoError}
use wtransport.Bytes.Async.Chain.{converted}
use wtransport.Bytes.Async.Source.{Source}
use wtransport.Bytes.Async.Write.Sink.{Sink, Sent}
use wtransport.Frame.Wire.{wire}
use wtransport.Frame.Async.Writing.{write_async-Sends}
use wtransport.Headers.Laws.{headers_frame, headers_frame-IsFrame, with_frame-generate_frame}
use wtransport.Stream.{Stream, H3, TwoWay, on_part}
use wtransport.Stream.Errors.{io_to_frame_write}
use wtransport.Stream.BiRemote
use wtransport.Stream.BiLocal
use wtransport.Session.{
  Answer, Session, SessionError, SessionRemoteRequest, SessionRemoteResponse, request,
  request_written, request_headers, response_headers, accept, accept_valid, accept_written,
  validate_request,
}
use wtransport.Session.Confirming.{id_total}
use wtransport.Session.Established.{remote_id_total}

module _ (q : Quinn) (o : Octets) (laws : OctetsLaws o) (p : Qpack) (polls : ℕ)
    (sink : Sink q.writer) (source : Source q.reader) where
  writing_ends :
      {A : Type 0} (w : q.Send) (bs : List ℕ) (out : Outcome (Option (Result A IoError × q.Send)))
      → Sent sink w bs out
      → (x : Result A IoError × q.Send) × (out ≡ done (some x))
  writing_ends w bs out (w', time, inl (a, same, left)) = ((ok a, w'), same)
  writing_ends w bs out (w', time, inr (e, n, same, _, _)) = ((err e, w'), same)

  abbrev pub AcceptEnds : Answer q o p polls (Session q) → Type 0
  AcceptEnds out = (x : Result (Session q) SessionError) × (out ≡ done (some x))

  accept_sent :
      (s : Stream (TwoWay q) H3) (x : Result (Unit {0}) IoError × q.Send)
      → AcceptEnds (
          bind
            (on_part
              (BiRemote.send_part q)
              (BiRemote.with_send q)
              (converted io_to_frame_write (λ w. done (some x)))
              s)
            (accept_written q o p polls))
  unfolding accept_written
  accept_sent s (ok a, w) = (_, refl)
  accept_sent s (err e, w) = (_, refl)

  accept_valid-AcceptEnds :
      (s : Stream (TwoWay q) H3) (bs : List ℕ) (v : Result (Unit {0}) SessionError)
      → q.send_id s.kind.send ≤ varint_max
      → Codes p (q.send_id s.kind.send) response_headers bs
      → sink.waits s.kind.send < polls
      → AcceptEnds (accept_valid q o p polls s v)
  unfolding accept_valid response_headers BiRemote.write_frame
  accept_valid-AcceptEnds s bs (err e) low codes enough = (_, refl)
  accept_valid-AcceptEnds s bs (ok _) low codes enough =
      let (framed, decoded) =
        with_frame-generate_frame p (record { varint = q.send_id s.kind.send }) response_headers bs
          codes in
      let v = headers_frame-IsFrame p (q.send_id s.kind.send) response_headers bs codes in
      let (x, sent) =
        writing_ends s.kind.send (wire (headers_frame bs)) _
          (write_async-Sends o laws sink polls (headers_frame bs) s.kind.send v enough) in
      rw (remote_id_total q o laws p polls sink source s low, framed, sent) (accept_sent s x)

  -- `accept` ends, with a session or an error, and without a panic.
  pub accept-AcceptEnds :
      (r : SessionRemoteRequest q) (bs : List ℕ)
      → q.send_id r.stream.kind.send ≤ varint_max
      → Codes p (q.send_id r.stream.kind.send) response_headers bs
      → sink.waits r.stream.kind.send < polls
      → AcceptEnds (accept q o p polls r)
  unfolding accept
  accept-AcceptEnds r bs low codes enough =
      accept_valid-AcceptEnds r.stream bs (validate_request r.headers) low codes enough

  -- With an error, or a stream whose receive stream is as it was.
  abbrev pub RequestEnds :
      Stream (TwoWay q) H3 → Answer q o p polls (SessionRemoteResponse q) → Type 0
  RequestEnds s out =
      ((e : SessionError) × (out ≡ done (some (err e))))
      ⊎ ((c : SessionRemoteResponse q) × (out ≡ done (some (ok c)))
          × (c.stream.kind.recv ≡ s.kind.recv))

  request_sent :
      (s : Stream (TwoWay q) H3) (x : Result (Unit {0}) IoError × q.Send)
      → RequestEnds s (
          bind
            (on_part
              (BiLocal.send_part q)
              (BiLocal.with_send q)
              (converted io_to_frame_write (λ w. done (some x)))
              s)
            (request_written q o p polls))
  unfolding request_written
  request_sent s (ok a, w) = inr (_, refl, refl)
  request_sent s (err e, w) = inl (_, refl)

  pub request-RequestEnds :
      (s : Stream (TwoWay q) H3) (bs : List ℕ)
      → q.send_id s.kind.send ≤ varint_max
      → Codes p (q.send_id s.kind.send) request_headers bs
      → sink.waits s.kind.send < polls
      → RequestEnds s (request q o p polls s)
  unfolding request request_headers BiLocal.write_frame
  request-RequestEnds s bs low codes enough =
      let (framed, decoded) =
        with_frame-generate_frame p (record { varint = q.send_id s.kind.send }) request_headers bs
          codes in
      let v = headers_frame-IsFrame p (q.send_id s.kind.send) request_headers bs codes in
      let (x, sent) =
        writing_ends s.kind.send (wire (headers_frame bs)) _
          (write_async-Sends o laws sink polls (headers_frame bs) s.kind.send v enough) in
      rw (id_total q o laws p polls source s low, framed, sent) (request_sent s x)
