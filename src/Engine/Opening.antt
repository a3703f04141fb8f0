-- ===== src/Engine/Opening.antt =====
-- `Engine::open_uni`: a stream that is opened for a session announces it.
use wtransport.Prelude.{
  ◌<◌, ◌≡◌, ◌⊎◌, refl, inl, inr, ℕ, ◌++◌, Option, some, Result, ok, err, Outcome, done, bind,
}
use wtransport.Ids.SessionId.{SessionId}
use wtransport.Ids.Laws.{IsSessionId}
use wtransport.Quic.Octets.{Octets, OctetsLaws}
use wtransport.Quic.Streams.{Quinn}
use wtransport.Bytes.Async.Write.Sink.{Sink}
use wtransport.StreamHeader.{StreamHeader, new, new_webtransport, get_session_id}
use wtransport.StreamHeader.Kind.{webtransport}
use wtransport.StreamHeader.Wire.{IsHeader, wire}
use wtransport.Stream.{Stream, H3, Wt, session_of, header_of}
use wtransport.Stream.Errors.{UpgradeError}
use wtransport.Stream.UniLocal
use wtransport.Stream.UniLocal.{UniLocal, uni_local_raw}
use wtransport.Stream.Laws.{Headed, uni_local_upgrade-Headed}
use wtransport.Worker.{WorkerError}
use wtransport.Engine.{Given, header_ready, open_uni}

abbrev pub session_header : SessionId → StreamHeader
session_header id = record { kind = webtransport; session_id = some id }

module _ (q : Quinn) (o : Octets) (laws : OctetsLaws o) (polls : ℕ) (sink : Sink q.writer)
    (ended : WorkerError) (id : SessionId) where
  open sink use {written}

  -- A stream of the session, behind the header that announces it; or the result of the worker.
  abbrev pub Opened : q.Send → Given (Stream (UniLocal q) Wt) → Type 0
  Opened w out =
      ((s : Stream (UniLocal q) Wt) × (out ≡ done (some (ok s)))
        × (s.stage.session_id ≡ id)
        × (written s.kind.send ≡ written w ++ wire (session_header id)))
      ⊎ (out ≡ done (some (err ended)))

  ended-Opened :
      (w : q.Send) (out : Outcome (Option (Result (Stream (UniLocal q) H3) UpgradeError)))
      → Headed q o laws polls sink (session_header id) w out
      → Opened w (bind out (header_ready q o polls ended))
  unfolding header_ready UniLocal.upgrade_wt session_of header_of get_session_id
  ended-Opened w out (inr (e, same)) = inr (rw same refl)
  ended-Opened w out (inl (s, same, head, left, _)) = inl (
    record { kind = s.kind; stage = record { session_id = id } },
    rw (same, head) refl,
    refl,
    left,
  )

  -- On a sink that waits fewer times than it is polled `open_uni` ends, and its `expect`s do not fail:
  -- with a stream of the session, on which the header that announces the session was written, or, where
  -- the sink fails, with the result of the worker.
  pub open_uni-Opened :
      (w : q.Send)
      → IsSessionId id
      → sink.waits w < polls
      → Opened w (open_uni q o polls ended id (some (uni_local_raw q w)))
  unfolding open_uni new_webtransport new
  open_uni-Opened w h enough =
      let v : IsHeader (session_header id) = record { kind_ok = tt; shape = (id, refl, h) } in
      ended-Opened w _ (uni_local_upgrade-Headed q o laws polls sink (session_header id) w v enough)
