-- ===== src/Stream/Connected.antt =====
-- Two ends of a connection: what one of them writes on a stream, the other reads off it. That QUIC
-- delivers the bytes of a stream in order is a hypothesis of each theorem.
use wtransport.Prelude.{
  ℕ, ◌<◌, ◌≡◌, refl, sym, ◌∙◌, ap, inl, inr, List, [], ◌++◌, Option, some, Result, ok, Outcome,
  done,
}
use wtransport.Ids.SessionId.{SessionId}
use wtransport.Ids.Laws.{IsSessionId}
use wtransport.Quic.Octets.{Octets, OctetsLaws}
use wtransport.Quic.Streams.{Quinn}
use wtransport.Bytes.Async.{IoError}
use wtransport.Bytes.Async.Source.{Source}
use wtransport.Bytes.Async.Write.Sink.{Sink, Sent}
use wtransport.Frame.{Frame}
use wtransport.Frame.Wire
use wtransport.Frame.Wire.{IsFrame, decode_frame}
use wtransport.Frame.Wire.RoundTrip.{decode_frame-wire}
use wtransport.Frame.Async as FrameAsync
use wtransport.Frame.Async.Reading.{read_async-Found}
use wtransport.Frame.Async.Writing.{write_async-Sends}
use wtransport.StreamHeader.{StreamHeader}
use wtransport.StreamHeader.Wire.{IsHeader, wire}
use wtransport.StreamHeader.Wire.RoundTrip.{decode_header-wire}
use wtransport.StreamHeader.{get_session_id}
use wtransport.StreamHeader.Kind.{webtransport}
use wtransport.Stream.{Stream, H3, TwoWay, session_of, header_of}
use wtransport.Stream.Errors.{UpgradeError}
use wtransport.Stream.UniRemote
use wtransport.Stream.UniRemote.{UniRemote, uni_remote_raw}
use wtransport.Stream.UniLocal
use wtransport.Stream.UniLocal.{UniLocal, uni_local_raw}
use wtransport.Stream.BiRemote
use wtransport.Stream.Laws.{uni_upgrade-Upgraded, Headed, uni_local_upgrade-Headed}

module _ (q : Quinn) (o : Octets) (laws : OctetsLaws o) (polls : ℕ) (sink : Sink q.writer)
    (source : Source q.reader) where
  open sink use {written}
  open source use {bytes}

  opened_written :
      (h : StreamHeader) (w : q.Send) (s : Stream (UniLocal q) H3)
      (out : Outcome (Option (Result (Stream (UniLocal q) H3) UpgradeError)))
      → Headed q o laws polls sink h w out
      → out ≡ done (some (ok s))
      → (s.stage.header ≡ some h) × (written s.kind.send ≡ written w ++ wire h)
  opened_written h w s out (inr (e, failed)) same = cc
  opened_written h w s out (inl (t, done_it, head, left, _)) same =
      let is : t ≡ s = cc in
      (ap (λ u. u.stage.header) (sym is) ∙ head, ap (λ u. written u.kind.send) (sym is) ∙ left)

  -- Where one side upgraded a unidirectional stream, with nothing written before, with a header,
  -- the other side, which upgrades the stream once its bytes arrived in order, finds that header,
  -- and what follows it next.
  pub uni_connects :
      (h : StreamHeader) (w : q.Send) (s : Stream (UniLocal q) H3) (r : q.Recv) (rest : List ℕ)
      → IsHeader h
      → sink.waits w < polls
      → written w ≡ []
      → UniLocal.upgrade q o polls h (uni_local_raw q w) ≡ done (some (ok s))
      → source.waits r < polls
      → bytes r ≡ written s.kind.send ++ rest
      → (t : Stream (UniRemote q) H3) × (UniRemote.upgrade q o polls (uni_remote_raw q r)
          ≡ done (some (ok t)))
        × (t.stage.header ≡ some h)
        × (bytes t.kind.recv ≡ rest)
  uni_connects h w s r rest v enough empty sent enough' arrived =
      let (head, left) =
        opened_written h w s _ (uni_local_upgrade-Headed q o laws polls sink h w v enough) sent in
      let all : bytes r ≡ wire h ++ rest = rw (left, empty) at arrived in
      let (t, got, header, next, _) =
        rw (all, decode_header-wire h rest v) at
          (uni_upgrade-Upgraded q o laws polls source r enough') in
      (t, got, header, next)

  -- Let the sink and the source wait fewer times than they are polled. Where one side upgraded a
  -- unidirectional stream, with nothing written before, with the header of a session, and the
  -- bytes arrive in order, the other side upgrades it too; then both ends make the stream one of
  -- that session, no `expect` fails, and what follows the header is next.
  pub session_connects :
      (id : SessionId) (w : q.Send) (s : Stream (UniLocal q) H3) (r : q.Recv) (rest : List ℕ)
      → IsSessionId id
      → sink.waits w < polls
      → written w ≡ []
      → UniLocal.upgrade q o polls
          (record { kind = webtransport; session_id = some id })
          (uni_local_raw q w)
        ≡ done (some (ok s))
      → source.waits r < polls
      → bytes r ≡ written s.kind.send ++ rest
      → (t : Stream (UniRemote q) H3) × (UniRemote.upgrade q o polls (uni_remote_raw q r)
          ≡ done (some (ok t)))
        × (UniRemote.upgrade_wt q t
            ≡ done (record { kind = t.kind; stage = record { session_id = id } }))
        × (UniLocal.upgrade_wt q s
            ≡ done (record { kind = s.kind; stage = record { session_id = id } }))
        × (bytes t.kind.recv ≡ rest)
  unfolding UniRemote.upgrade_wt UniLocal.upgrade_wt session_of header_of get_session_id
  session_connects id w s r rest h enough empty sent enough' arrived =
      let header : StreamHeader = record { kind = webtransport; session_id = some id } in
      let v : IsHeader header = record { kind_ok = tt; shape = (id, refl, h) } in
      let (head, _) =
        opened_written header w s _ (uni_local_upgrade-Headed q o laws polls sink header w v enough)
          sent in
      let (t, got, head', next) =
        uni_connects header w s r rest v enough empty sent enough' arrived in
      (t, got, rw head' refl, rw head refl, next)

  wrote_whole :
      (w w' : q.Send) (bs : List ℕ) (out : Outcome (Option (Result (Unit {0}) IoError × q.Send)))
      → Sent sink w bs out
      → out ≡ done (some (ok tt, w'))
      → written w' ≡ written w ++ bs
  wrote_whole w w' bs out (t, time, inr (e, n, failed, _, _)) same = cc
  wrote_whole w w' bs out (t, time, inl (a, done_it, left)) same =
      let is : t ≡ w' = cc in ap written (sym is) ∙ left

  -- Let the sink and the source wait fewer times than they are polled. A frame that `write_async`
  -- wrote whole, with nothing written before, is, where its bytes arrive in order, the frame that
  -- `read_frame` of the other end reads; what follows it is next, and the stream's other
  -- direction is as it was.
  pub frame_connects :
      (f : Frame) (w w' : q.Send) (t : Stream (TwoWay q) H3) (rest : List ℕ)
      → IsFrame f
      → sink.waits w < polls
      → written w ≡ []
      → FrameAsync.write_async o q.writer polls f w ≡ done (some (ok tt, w'))
      → source.waits t.kind.recv < polls
      → bytes t.kind.recv ≡ written w' ++ rest
      → (t' : Stream (TwoWay q) H3) × (BiRemote.read_frame q o polls t ≡ done (some (ok f, t')))
        × (bytes t'.kind.recv ≡ rest)
        × (t'.kind.send ≡ t.kind.send)
  unfolding BiRemote.read_frame
  frame_connects f w w' t rest v enough empty sent enough' arrived =
      let left =
        wrote_whole w w' (Wire.wire f) _ (write_async-Sends o laws sink polls f w v enough) sent in
      let all : bytes t.kind.recv ≡ Wire.wire f ++ rest = rw (left, empty) at arrived in
      let (r', read, next, _, _) =
        rw (all, decode_frame-wire f rest v) at
          (read_async-Found o laws source polls t.kind.recv enough') in
      (BiRemote.with_recv q r' t, rw read, next, refl)
