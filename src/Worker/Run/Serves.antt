-- ===== src/Worker/Run/Serves.antt =====
-- The loop of the worker on every behaviour of the peer: its invariant, and that it does not panic.
use wtransport.Prelude.{
  ◌≤◌, refl, inl, inr, true-ne-false, ℕ, zero, suc, Option, none, some, Result, ok, done,
}
use wtransport.VarInt.{varint_max}
use wtransport.Quic.Octets.{Octets, OctetsLaws}
use wtransport.Quic.Qpack.{Qpack, Unblocked}
use wtransport.Quic.Streams.{Quinn}
use wtransport.Frame.{Frame}
use wtransport.Frame.Kind.{}
use wtransport.Stream.{Stream, H3, TwoWay}
use wtransport.Worker.{WorkerError, FrameReadError, UpgradeError}
use wtransport.Worker.Streams.{UniStream}
use wtransport.Worker.Accept.{
  permit, full, closed, accept_uni, accept_bi, process_inc_uni, process_inc_bi,
}
use wtransport.Worker.Run.Invariant.{
  Serving, Serves, Keeps-refl, Fair, unchanged, process_inc_uni-UniRouted, process_inc_bi-BiRouted,
}
use wtransport.Worker.Run.Streams.{recv_uni-Serves, recv_bi-Serves}
use wtransport.Worker.Run.Tasks.{send_uni-Serves, send_bi-Serves}
use wtransport.Worker.Run.{
  Loop, Turn, turn, while_open, uni_task, bi_task, handle_uni, handle_bi, incoming_uni, incoming_bi,
  local_settings_stopped, control_frame, qpack_enc_read, qpack_dec_read, uni_upgraded, bi_read,
}

module _ (q : Quinn) (o : Octets) (laws : OctetsLaws o) (p : Qpack) (free : Unblocked p) where
  uni_task-Serves :
      (r : Result UniStream UpgradeError) (w : Loop q) (n : ℕ)
      → Serving q p w
      → Serves q p w (uni_task q r w n)
  unfolding uni_task
  uni_task-Serves r w zero h = unchanged q p w h
  uni_task-Serves r w (suc n) h =
      send_uni-Serves q p w n (process_inc_uni r) h (process_inc_uni-UniRouted q p r)

  bi_task-Serves :
      (s : Stream (TwoWay q) H3) (r : Result Frame FrameReadError) (w : Loop q) (n : ℕ)
      → q.send_id s.kind.send ≤ varint_max
      → Serving q p w
      → Serves q p w (bi_task q s r w n)
  unfolding bi_task
  bi_task-Serves s r w zero low h = unchanged q p w h
  bi_task-Serves s r w (suc n) low h =
      send_bi-Serves q p w n s (process_inc_bi r) low h (process_inc_bi-BiRouted q p r)

  while_open-Serves :
      (w : Loop q) (stream : Option UniStream) (ended : Option WorkerError)
      → Serving q p w
      → Serves q p w (while_open q w stream ended)
  while_open-Serves w none ended h = unchanged q p w h
  while_open-Serves w (some s) none h = unchanged q p w h
  while_open-Serves w (some s) (some e) h = inr (e, refl)

  -- A task that is spawned changes no more than the number of tasks.
  spawned :
      (w : Loop q) (m n : ℕ)
      → Serving q p w
      → Serves q p w (done (some (ok (record w { uni_tasks = m; bi_tasks = n }))))
  spawned w m n h = inl (
    record w { uni_tasks = m; bi_tasks = n },
    refl,
    record {
      remote_ok = h.remote_ok;
      h3_uni_ok = h.h3_uni_ok;
      h3_bi_ok = h.h3_bi_ok;
      wt_uni_ok = h.wt_uni_ok;
      sessions_ok = h.sessions_ok;
    },
    Keeps-refl q p w,
  )

  pub turn-Serves :
      (t : Turn q) (w : Loop q) → Fair q p t → Serving q p w → Serves q p w (turn q o p t w)
  unfolding turn accept_uni accept_bi
  turn-Serves (handle_uni read) w fair h =
      recv_uni-Serves q o laws p free read w w.h3_uni h h.h3_uni_ok
  turn-Serves (handle_bi slot) w fair h = recv_bi-Serves q o laws p free slot w w.h3_bi h h.h3_bi_ok
  turn-Serves (incoming_uni none h3 wt) w fair h = inr (_, refl)
  turn-Serves (incoming_uni (some s) full wt) w fair h = unchanged q p w h
  turn-Serves (incoming_uni (some s) closed wt) w fair h = true-ne-false fair
  turn-Serves (incoming_uni (some s) permit permit) w fair h =
      spawned w (suc w.uni_tasks) w.bi_tasks h
  turn-Serves (incoming_uni (some s) permit full) w fair h = unchanged q p w h
  turn-Serves (incoming_uni (some s) permit closed) w fair h = inr (_, refl)
  turn-Serves (incoming_bi none h3 wt) w fair h = inr (_, refl)
  turn-Serves (incoming_bi (some s) full wt) w fair h = unchanged q p w h
  turn-Serves (incoming_bi (some s) closed wt) w fair h = true-ne-false fair
  turn-Serves (incoming_bi (some s) permit permit) w fair h =
      spawned w w.uni_tasks (suc w.bi_tasks) h
  turn-Serves (incoming_bi (some s) permit full) w fair h = unchanged q p w h
  turn-Serves (incoming_bi (some s) permit closed) w fair h = inr (_, refl)
  turn-Serves (local_settings_stopped result) w fair h = inr (_, refl)
  turn-Serves (control_frame read) w fair h = while_open-Serves w _ _ h
  turn-Serves (qpack_enc_read read) w fair h = while_open-Serves w _ _ h
  turn-Serves (qpack_dec_read read) w fair h = while_open-Serves w _ _ h
  turn-Serves (uni_upgraded r) w fair h = uni_task-Serves r w w.uni_tasks h
  turn-Serves (bi_read s r) w fair h = bi_task-Serves s r w w.bi_tasks fair h
