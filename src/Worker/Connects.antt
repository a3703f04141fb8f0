-- ===== src/Worker/Connects.antt =====
-- A bidirectional stream that one side makes a session's is one of that session on the other side:
-- `Stream<BiLocal, H3>::upgrade` against `process_inc_bi`.
pub mod Tests
use wtransport.Prelude.{
  ℕ, ◌<◌, ◌≡◌, refl, inl, inr, List, [], ◌++◌, Option, some, Result, ok, err, Outcome, done, bind,
  arith, ap, sym,
}
use wtransport.Ids.SessionId.{SessionId}
use wtransport.Ids.Laws.{IsSessionId}
use wtransport.Quic.Octets.{Octets, OctetsLaws}
use wtransport.Quic.Streams.{Quinn}
use wtransport.Bytes.Async.{IoError}
use wtransport.Bytes.Async.Source.{Source}
use wtransport.Bytes.Async.Write.Sink.{Sink, Sent}
use wtransport.Frame.{Frame, new, new_webtransport, get_session_id}
use wtransport.Frame.Kind.{webtransport}
use wtransport.Frame.Wire.{IsFrame, wire}
use wtransport.Frame.Async as FrameAsync
use wtransport.Frame.Async.Writing.{write_async-Sends}
use wtransport.Stream.{Stream, H3, Wt, TwoWay}
use wtransport.Stream.Errors.{io_to_upgrade}
use wtransport.Stream.BiRemote
use wtransport.Stream.BiLocal
use wtransport.Stream.BiLocal.{session_sent}
use wtransport.Stream.Connected.{frame_connects}
use wtransport.Worker.Accept.{process_inc_bi, to_wt}

abbrev frame_of : SessionId → Frame
frame_of id = record { kind = webtransport; payload = []; session_id = some id }

frame_of-IsFrame : (id : SessionId) → IsSessionId id → IsFrame (frame_of id)
frame_of-IsFrame id h = record { kind_ok = tt; short = omega arith; shape = (refl, (id, refl, h)) }

module _ (q : Quinn) (o : Octets) (laws : OctetsLaws o) (polls : ℕ) (sink : Sink q.writer)
    (source : Source q.reader) where
  open sink use {written}
  open source use {bytes}

  -- Where the upgrade succeeded, the frame was written whole.
  written_whole :
      (id : SessionId) (s : Stream (TwoWay q) H3) (s' : Stream (TwoWay q) Wt)
      (out : Outcome (Option (Result (Unit {0}) IoError × q.Send)))
      → Sent sink s.kind.send (wire (frame_of id)) out
      → bind out (session_sent q id s) ≡ done (some (ok s'))
      → out ≡ done (some (ok tt, s'.kind.send))
  unfolding io_to_upgrade
  written_whole id s s' out (w', time, inl (a, same, left)) upgraded =
      let made = rw same at upgraded in let is : w' ≡ s'.kind.send = cc in rw is at same
  written_whole id s s' out (w', time, inr (e, n, same, _, _)) upgraded =
      let made = rw same at upgraded in cc

  -- Let the sink and the source wait fewer times than they are polled. A bidirectional stream
  -- that one side upgraded to a session, with nothing written before, is, where its bytes arrive
  -- in order, one on which the other side reads a frame that `process_inc_bi` routes to this
  -- session, with what follows the frame unread.
  pub bi_session_connects :
      (id : SessionId) (s : Stream (TwoWay q) H3) (s' : Stream (TwoWay q) Wt)
      (t : Stream (TwoWay q) H3) (rest : List ℕ)
      → IsSessionId id
      → sink.waits s.kind.send < polls
      → written s.kind.send ≡ []
      → BiLocal.upgrade_wt q o polls id s ≡ done (some (ok s'))
      → source.waits t.kind.recv < polls
      → bytes t.kind.recv ≡ written s'.kind.send ++ rest
      → (f : Frame) × (t' : Stream (TwoWay q) H3) × (BiRemote.read_frame q o polls t
          ≡ done (some (ok f, t')))
        × (process_inc_bi (ok f) ≡ done (to_wt id))
        × (bytes t'.kind.recv ≡ rest)
  unfolding BiLocal.upgrade_wt new_webtransport new process_inc_bi get_session_id
  bi_session_connects id s s' t rest h enough empty upgraded enough' arrived =
      let v = frame_of-IsFrame id h in
      let sent = write_async-Sends o laws sink polls (frame_of id) s.kind.send v enough in
      let whole = written_whole id s s' _ sent upgraded in
      let (t', read, next, _) =
        frame_connects q o laws polls sink source (frame_of id) s.kind.send s'.kind.send t rest v
          enough empty whole enough' arrived in
      (frame_of id, t', read, refl, next)
