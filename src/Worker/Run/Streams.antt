-- ===== src/Worker/Run/Streams.antt =====
-- The loop of the worker keeps its invariant where it handles a stream of its channels.
use wtransport.Prelude.{
  ◌≤◌, ◌≡◌, ◌⊎◌, refl, inl, inr, List, [], ◌∷◌, ◌++◌, Option, Result, ok, err, Outcome, done, bind,
  Each, Each-snoc,
}
use wtransport.VarInt.{varint_max}
use wtransport.Quic.Octets.{Octets, OctetsLaws}
use wtransport.Quic.Qpack.{Qpack, Unblocked}
use wtransport.Quic.Streams.{Quinn}
use wtransport.Frame.{Frame}
use wtransport.Frame.Kind.{headers}
use wtransport.Frame.Kind as FrameKind
use wtransport.Headers
use wtransport.Stream.{Stream, H3, TwoWay}
use wtransport.Session.{SessionRemoteRequest}
use wtransport.Worker.{WorkerError, FrameReadError}
use wtransport.Worker.Streams.{UniStream, Handled}
use wtransport.Worker.Invariant.{Handles}
use wtransport.Worker.Handling.{handle-Consistent}
use wtransport.Worker.Accept.{Reserve, permit, full, closed}
use wtransport.Worker.Requests.{Taken, handle_new_h3_bi, handle_new_h3_bi_cases}
use wtransport.Worker.Run.Invariant.{IsH3, IsH3Bi, IsAsked, Serving, Serves, Keeps-refl, unchanged}
use wtransport.Worker.Requests.{Unanswered, Decoded}
use wtransport.Frame.Kind.{data_frame, settings, webtransport, exercise}
use wtransport.ErrorCode.{ErrorCode}
use wtransport.Worker.Run.{Loop, handled_uni, handled_bi, recv_uni, recv_bi}

module _ (q : Quinn) (o : Octets) (laws : OctetsLaws o) (p : Qpack) (free : Unblocked p) where
  handled_uni-Serves :
      (w : Loop q) (rest : List UniStream) (out : Outcome (Option Handled))
      → Serving q p w
      → Each IsH3 rest
      → Handles w.remote out
      → Serves q p w (bind out (handled_uni q (record w { h3_uni = rest })))
  handled_uni-Serves w rest out h left (err e, remote, made, _, _) = inr (e, rw made refl)
  handled_uni-Serves w rest out h left (ok _, remote, made, good, kept) = inl (
    record w { h3_uni = rest; remote = remote },
    rw made refl,
    record {
      remote_ok = good;
      h3_uni_ok = left;
      h3_bi_ok = h.h3_bi_ok;
      wt_uni_ok = h.wt_uni_ok;
      sessions_ok = h.sessions_ok;
    },
    kept,
  )

  pub recv_uni-Serves :
      (read : Result Frame FrameReadError) (w : Loop q) (queue : List UniStream)
      → Serving q p w
      → Each IsH3 queue
      → Serves q p w (recv_uni q o read w queue)
  unfolding recv_uni
  recv_uni-Serves read w [] h each = unchanged q p w h
  recv_uni-Serves read w (s ∷ rest) h (is_h3, left) =
      handled_uni-Serves w rest _ h left
        (handle-Consistent o laws s read w.remote is_h3 h.remote_ok)

  with_bi :
      (w : Loop q) (rest : List (Stream (TwoWay q) H3 × Frame))
      → Serving q p w
      → Each (IsH3Bi q p) rest
      → Serving q p (record w { h3_bi = rest })
  with_bi w rest h left = record {
    remote_ok = h.remote_ok;
    h3_uni_ok = h.h3_uni_ok;
    h3_bi_ok = left;
    wt_uni_ok = h.wt_uni_ok;
    sessions_ok = h.sessions_ok;
  }

  with_session :
      (w : Loop q) (r : SessionRemoteRequest q)
      → Serving q p w
      → IsAsked q p r
      → Serving q p (record w { sessions = w.sessions ++ r ∷ [] })
  with_session w r h asked = record {
    remote_ok = h.remote_ok;
    h3_uni_ok = h.h3_uni_ok;
    h3_bi_ok = h.h3_bi_ok;
    wt_uni_ok = h.wt_uni_ok;
    sessions_ok = Each-snoc (IsAsked q p) w.sessions r h.sessions_ok asked;
  }

  -- What `handle_new_h3_bi` made of a stream.
  abbrev TakenWell : Outcome (Result (Taken q) WorkerError) → Type 0
  TakenWell out =
      ((e : WorkerError) × (out ≡ done (err e)))
      ⊎ (out ≡ done (ok Taken.dropped))
      ⊎ ((r : q.Recv) × (out ≡ done (ok (Taken.rejected r))))
      ⊎ ((r : SessionRemoteRequest q) × (out ≡ done (ok (Taken.requested r))) × IsAsked q p r)

  other-TakenWell :
      (k : FrameKind.FrameKind) (s : Stream (TwoWay q) H3)
      (low : q.send_id s.kind.send ≤ varint_max) (out : Outcome (Result (Taken q) WorkerError))
      → Unanswered q p s free low k out
      → TakenWell out
  other-TakenWell settings s low out e = inl (_, e)
  other-TakenWell data_frame s low out (_, e) = inr (inl e)
  other-TakenWell headers s low out (_, e) = inr (inl e)
  other-TakenWell webtransport s low out (_, e) = inr (inl e)
  other-TakenWell (exercise i) s low out (_, e) = inr (inl e)

  headers-TakenWell :
      (f : Frame) (slot : Reserve) (s : Stream (TwoWay q) H3)
      (low : q.send_id s.kind.send ≤ varint_max) (x : Result Headers.Headers ErrorCode)
      (out : Outcome (Result (Taken q) WorkerError))
      → f.kind ≡ FrameKind.headers
      → Headers.with_frame p f (record { varint = q.send_id s.kind.send }) ≡ done x
      → Decoded q p s free low f slot x out
      → TakenWell out
  headers-TakenWell f slot s low (err code) out k made e = inl (_, e)
  headers-TakenWell f permit s low (ok hs) out k made e = inr (inr (inr (_, e, (f, k, made))))
  headers-TakenWell f full s low (ok hs) out k made e = inr (inr (inl (_, e)))
  headers-TakenWell f closed s low (ok hs) out k made e = inr (inr (inl (_, e)))

  handle_new_h3_bi-TakenWell :
      (f : Frame) (slot : Reserve) (s : Stream (TwoWay q) H3)
      → IsH3Bi q p (s, f)
      → TakenWell (handle_new_h3_bi q p s f slot)
  handle_new_h3_bi-TakenWell f slot s (other, low) =
      elim (handle_new_h3_bi_cases q p s free low f slot other) [
        | inl (x, k, made, e) ↦ headers-TakenWell f slot s low x _ k made e
        | inr e ↦ other-TakenWell f.kind s low _ e
      ]

  handled_bi-Serves :
      (w : Loop q) (rest : List (Stream (TwoWay q) H3 × Frame))
      (out : Outcome (Result (Taken q) WorkerError))
      → Serving q p (record w { h3_bi = rest })
      → TakenWell out
      → Serves q p w (bind out (handled_bi q (record w { h3_bi = rest })))
  handled_bi-Serves w rest out h (inl (e, made)) = inr (e, rw made refl)
  handled_bi-Serves w rest out h (inr (inl made)) =
      inl (record w { h3_bi = rest }, rw made refl, h, Keeps-refl q p w)
  handled_bi-Serves w rest out h (inr (inr (inl (r, made)))) =
      inl (record w { h3_bi = rest }, rw made refl, h, Keeps-refl q p w)
  handled_bi-Serves w rest out h (inr (inr (inr (r, made, asked)))) = inl (
    record w { h3_bi = rest; sessions = w.sessions ++ r ∷ [] },
    rw made refl,
    with_session (record w { h3_bi = rest }) r h asked,
    Keeps-refl q p w,
  )

  pub recv_bi-Serves :
      (slot : Reserve) (w : Loop q) (queue : List (Stream (TwoWay q) H3 × Frame))
      → Serving q p w
      → Each (IsH3Bi q p) queue
      → Serves q p w (recv_bi q p slot w queue)
  unfolding recv_bi
  recv_bi-Serves slot w [] h each = unchanged q p w h
  recv_bi-Serves slot w ((s, f) ∷ rest) h (is_h3, left) =
      handled_bi-Serves w rest _ (with_bi w rest h left) (handle_new_h3_bi-TakenWell f slot s is_h3)
