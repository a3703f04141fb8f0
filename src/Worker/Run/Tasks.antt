-- ===== src/Worker/Run/Tasks.antt =====
-- The loop of the worker keeps its invariant where a spawned task ends.
use wtransport.Prelude.{
  ◌≤◌, refl, inl, ℕ, List, [], ◌∷◌, ◌++◌, some, ok, Outcome, done, panic, Each, Each-snoc,
}
use wtransport.VarInt.{varint_max}
use wtransport.Ids.SessionId.{SessionId}
use wtransport.Quic.Qpack.{Qpack}
use wtransport.Quic.Streams.{Quinn}
use wtransport.Frame.{Frame}
use wtransport.Frame.Kind.{}
use wtransport.Stream.{Stream, H3, TwoWay}
use wtransport.Worker.Streams.{UniStream}
use wtransport.Worker.Accept.{Routed, dropped, to_h3, to_wt}
use wtransport.Worker.Run.Invariant.{
  IsH3, IsWt, IsH3Bi, Serving, Serves, Keeps-refl, UniRouted, BiRouted,
}
use wtransport.Worker.Run.{Loop, send_uni, send_bi}

module _ (q : Quinn) (p : Qpack) where
  with_uni :
      (w : Loop q) (n : ℕ) (queue sent : List UniStream)
      → Serving q p w
      → Each IsH3 queue
      → Each IsWt sent
      → Serves q p w (done (some (ok (record w { uni_tasks = n; h3_uni = queue; wt_uni = sent }))))
  with_uni w n queue sent h all_h3 all_wt = inl (
    record w { uni_tasks = n; h3_uni = queue; wt_uni = sent },
    refl,
    record {
      remote_ok = h.remote_ok;
      h3_uni_ok = all_h3;
      h3_bi_ok = h.h3_bi_ok;
      wt_uni_ok = all_wt;
      sessions_ok = h.sessions_ok;
    },
    Keeps-refl q p w,
  )

  pub send_uni-Serves :
      (w : Loop q) (n : ℕ) (r : Routed UniStream UniStream)
      → Serving q p w
      → UniRouted q p r
      → Serves q p w (done (some (ok (send_uni q (record w { uni_tasks = n }) r))))
  send_uni-Serves w n dropped h _ = with_uni w n w.h3_uni w.wt_uni h h.h3_uni_ok h.wt_uni_ok
  send_uni-Serves w n (to_h3 s) h is_h3 =
      with_uni w n (w.h3_uni ++ s ∷ []) w.wt_uni h (Each-snoc IsH3 w.h3_uni s h.h3_uni_ok is_h3)
        h.wt_uni_ok
  send_uni-Serves w n (to_wt s) h is_wt =
      with_uni w n w.h3_uni (w.wt_uni ++ s ∷ []) h h.h3_uni_ok
        (Each-snoc IsWt w.wt_uni s h.wt_uni_ok is_wt)

  with_tasks :
      (w : Loop q) (n : ℕ) (queue : List (Stream (TwoWay q) H3 × Frame))
      (sent : List (Stream (TwoWay q) H3 × SessionId))
      → Serving q p w
      → Each (IsH3Bi q p) queue
      → Serves q p w (done (some (ok (record w { bi_tasks = n; h3_bi = queue; wt_bi = sent }))))
  with_tasks w n queue sent h all_h3 = inl (
    record w { bi_tasks = n; h3_bi = queue; wt_bi = sent },
    refl,
    record {
      remote_ok = h.remote_ok;
      h3_uni_ok = h.h3_uni_ok;
      h3_bi_ok = all_h3;
      wt_uni_ok = h.wt_uni_ok;
      sessions_ok = h.sessions_ok;
    },
    Keeps-refl q p w,
  )

  pub send_bi-Serves :
      (w : Loop q) (n : ℕ) (s : Stream (TwoWay q) H3) (r : Outcome (Routed Frame SessionId))
      → q.send_id s.kind.send ≤ varint_max
      → Serving q p w
      → BiRouted q p r
      → Serves q p w (done (some (ok (send_bi q (record w { bi_tasks = n }) s r))))
  send_bi-Serves w n s panic low h _ = with_tasks w n w.h3_bi w.wt_bi h h.h3_bi_ok
  send_bi-Serves w n s (done dropped) low h _ = with_tasks w n w.h3_bi w.wt_bi h h.h3_bi_ok
  send_bi-Serves w n s (done (to_wt id)) low h _ =
      with_tasks w n w.h3_bi (w.wt_bi ++ (s, id) ∷ []) h h.h3_bi_ok
  send_bi-Serves w n s (done (to_h3 f)) low h is_h3 =
      with_tasks w n (w.h3_bi ++ (s, f) ∷ []) w.wt_bi h
        (Each-snoc (IsH3Bi q p) w.h3_bi (s, f) h.h3_bi_ok (is_h3, low))
