-- ===== src/Worker/Run/Capacity.antt =====
-- The places of the channels of HTTP/3 streams, over a run of the worker.
use wtransport.Prelude.{
  ◌≡◌, refl, arith, ℕ, zero, suc, List, [], ◌∷◌, Option, none, some, Result, ok, err, Outcome, done,
  panic, bind, ◌+◌, length, length-append,
}
use wtransport.Ids.SessionId.{SessionId}
use wtransport.Quic.Octets.{Octets}
use wtransport.Quic.Qpack.{Qpack}
use wtransport.Quic.Streams.{Quinn}
use wtransport.Frame.{Frame}
use wtransport.Stream.{Stream, H3, TwoWay}
use wtransport.Worker.{WorkerError, FrameReadError, UpgradeError}
use wtransport.Worker.Streams.{UniStream, Handled, handle_new_h3_uni}
use wtransport.Worker.Accept.{
  Reserve, permit, full, closed, accept_uni, accept_bi, Routed, dropped, to_h3, to_wt,
  process_inc_uni, process_inc_bi,
}
use wtransport.Worker.Requests.{Taken, handle_new_h3_bi}
use wtransport.Worker.Run.{
  Loop, Turn, Turned, initial, capacity, turn, handled_uni, handled_bi, recv_uni, recv_bi,
  while_open, send_uni, send_bi, uni_task, bi_task, handle_uni, handle_bi, incoming_uni,
  incoming_bi, local_settings_stopped, control_frame, qpack_enc_read, qpack_dec_read, uni_upgraded,
  bi_read,
}
use wtransport.Worker.Run.Places.{
  Places, all_free, Reserved, received_uni, received_bi, unsent_uni, unsent_bi, task_uni, task_bi,
  after,
}

module _ (q : Quinn) where
  -- The streams in a channel, the tasks that may still send one and the free places.
  abbrev pub Balanced : Loop q → Places → Type 0
  Balanced w free =
      (length w.h3_uni + w.uni_tasks + free.uni ≡ 1024)
      × (length w.h3_bi + w.bi_tasks + free.bi ≡ 1024)

  abbrev BalancedAfter : Turned q → Places → Type 0
  BalancedAfter (done (some (ok w))) free = Balanced w free
  BalancedAfter _ free = Unit {0}

  handled_uni-Balanced :
      (w : Loop q) (free : Places) (out : Outcome (Option Handled))
      → Balanced w free
      → BalancedAfter (bind out (handled_uni q w)) free
  handled_uni-Balanced w free panic h = tt
  handled_uni-Balanced w free (done none) h = tt
  handled_uni-Balanced w free (done (some (ok _, remote))) h = h
  handled_uni-Balanced w free (done (some (err e, remote))) h = tt

  handled_bi-Balanced :
      (w : Loop q) (free : Places) (out : Outcome (Result (Taken q) WorkerError))
      → Balanced w free
      → BalancedAfter (bind out (handled_bi q w)) free
  handled_bi-Balanced w free panic h = tt
  handled_bi-Balanced w free (done (err e)) h = tt
  handled_bi-Balanced w free (done (ok Taken.dropped)) h = h
  handled_bi-Balanced w free (done (ok (Taken.rejected r))) h = h
  handled_bi-Balanced w free (done (ok (Taken.requested r))) h = h

  recv_uni-Balanced :
      (o : Octets) (read : Result Frame FrameReadError) (w : Loop q) (free : Places)
      (queue : List UniStream)
      → length queue + w.uni_tasks + free.uni ≡ 1024
      → length w.h3_bi + w.bi_tasks + free.bi ≡ 1024
      → Balanced w free
      → BalancedAfter (recv_uni q o read w queue) (received_uni q queue free)
  unfolding recv_uni
  recv_uni-Balanced o read w free [] h k b = b
  recv_uni-Balanced o read w free (s ∷ rest) h k b =
      handled_uni-Balanced (record w { h3_uni = rest }) (record free { uni = suc free.uni })
        (handle_new_h3_uni o s read w.remote) (omega arith, k)

  recv_bi-Balanced :
      (p : Qpack) (slot : Reserve) (w : Loop q) (free : Places)
      (queue : List (Stream (TwoWay q) H3 × Frame))
      → length w.h3_uni + w.uni_tasks + free.uni ≡ 1024
      → length queue + w.bi_tasks + free.bi ≡ 1024
      → Balanced w free
      → BalancedAfter (recv_bi q p slot w queue) (received_bi q queue free)
  unfolding recv_bi
  recv_bi-Balanced p slot w free [] h k b = b
  recv_bi-Balanced p slot w free ((s, f) ∷ rest) h k b =
      handled_bi-Balanced (record w { h3_bi = rest }) (record free { bi = suc free.bi })
        (handle_new_h3_bi q p s f slot) (h, omega arith)

  send_uni-Balanced :
      (w : Loop q) (free : Places) (n : ℕ) (r : Routed UniStream UniStream)
      → length w.h3_uni + suc n + free.uni ≡ 1024
      → length w.h3_bi + w.bi_tasks + free.bi ≡ 1024
      → Balanced (send_uni q (record w { uni_tasks = n }) r) (unsent_uni q r free)
  send_uni-Balanced w free n dropped h k = (omega arith, k)
  send_uni-Balanced w free n (to_wt s) h k = (omega arith, k)
  send_uni-Balanced w free n (to_h3 s) h k = (omega (arith, length-append w.h3_uni (s ∷ [])), k)

  send_bi-Balanced :
      (w : Loop q) (free : Places) (n : ℕ) (s : Stream (TwoWay q) H3)
      (r : Outcome (Routed Frame SessionId))
      → length w.h3_uni + w.uni_tasks + free.uni ≡ 1024
      → length w.h3_bi + suc n + free.bi ≡ 1024
      → Balanced (send_bi q (record w { bi_tasks = n }) s r) (unsent_bi q r free)
  send_bi-Balanced w free n s panic h k = (h, omega arith)
  send_bi-Balanced w free n s (done dropped) h k = (h, omega arith)
  send_bi-Balanced w free n s (done (to_wt id)) h k = (h, omega arith)
  send_bi-Balanced w free n s (done (to_h3 f)) h k =
      (h, omega (arith, length-append w.h3_bi ((s, f) ∷ [])))

  uni_task-Balanced :
      (r : Result UniStream UpgradeError) (w : Loop q) (free : Places) (n : ℕ)
      → length w.h3_uni + n + free.uni ≡ 1024
      → length w.h3_bi + w.bi_tasks + free.bi ≡ 1024
      → Balanced w free
      → BalancedAfter (uni_task q r w n) (task_uni q r n free)
  unfolding uni_task
  uni_task-Balanced r w free zero h k b = b
  uni_task-Balanced r w free (suc n) h k b = send_uni-Balanced w free n (process_inc_uni r) h k

  bi_task-Balanced :
      (s : Stream (TwoWay q) H3) (r : Result Frame FrameReadError) (w : Loop q) (free : Places)
      (n : ℕ)
      → length w.h3_uni + w.uni_tasks + free.uni ≡ 1024
      → length w.h3_bi + n + free.bi ≡ 1024
      → Balanced w free
      → BalancedAfter (bi_task q s r w n) (task_bi q r n free)
  unfolding bi_task
  bi_task-Balanced s r w free zero h k b = b
  bi_task-Balanced s r w free (suc n) h k b = send_bi-Balanced w free n s (process_inc_bi r) h k

  while_open-Balanced :
      (w : Loop q) (free : Places) (stream : Option UniStream) (ended : Option WorkerError)
      → Balanced w free
      → BalancedAfter (while_open q w stream ended) free
  while_open-Balanced w free none ended h = h
  while_open-Balanced w free (some s) none h = h
  while_open-Balanced w free (some s) (some e) h = tt

  turn-Balanced :
      (o : Octets) (p : Qpack) (t : Turn q) (w : Loop q) (free : Places)
      → Reserved q t free
      → Balanced w free
      → BalancedAfter (turn q o p t w) (after q t w free)
  unfolding turn accept_uni accept_bi
  turn-Balanced o p (handle_uni read) w free given (h, k) =
      recv_uni-Balanced o read w free w.h3_uni h k (h, k)
  turn-Balanced o p (handle_bi slot) w free given (h, k) =
      recv_bi-Balanced p slot w free w.h3_bi h k (h, k)
  turn-Balanced o p (incoming_uni none h3 wt) w free given h = tt
  turn-Balanced o p (incoming_uni (some s) full wt) w free given h = h
  turn-Balanced o p (incoming_uni (some s) closed wt) w free given h = tt
  turn-Balanced o p (incoming_uni (some s) permit permit) w free given (h, k) = (omega arith, k)
  turn-Balanced o p (incoming_uni (some s) permit full) w free given h = h
  turn-Balanced o p (incoming_uni (some s) permit closed) w free given h = tt
  turn-Balanced o p (incoming_bi none h3 wt) w free given h = tt
  turn-Balanced o p (incoming_bi (some s) full wt) w free given h = h
  turn-Balanced o p (incoming_bi (some s) closed wt) w free given h = tt
  turn-Balanced o p (incoming_bi (some s) permit permit) w free given (h, k) = (h, omega arith)
  turn-Balanced o p (incoming_bi (some s) permit full) w free given h = h
  turn-Balanced o p (incoming_bi (some s) permit closed) w free given h = tt
  turn-Balanced o p (local_settings_stopped result) w free given h = tt
  turn-Balanced o p (control_frame read) w free given h = while_open-Balanced w free _ _ h
  turn-Balanced o p (qpack_enc_read read) w free given h = while_open-Balanced w free _ _ h
  turn-Balanced o p (qpack_dec_read read) w free given h = while_open-Balanced w free _ _ h
  turn-Balanced o p (uni_upgraded r) w free given (h, k) =
      uni_task-Balanced r w free w.uni_tasks h k (h, k)
  turn-Balanced o p (bi_read s r) w free given (h, k) =
      bi_task-Balanced s r w free w.bi_tasks h k (h, k)

-- The loops that `run` goes through, each with the free places of its channels.
pub data Runs (q : Quinn) (o : Octets) (p : Qpack) : Loop q → Places → Type 0 where
  begins : Runs q o p (initial q) all_free
  takes :
      {w w' : Loop q} {free : Places} (t : Turn q)
      → Runs q o p w free
      → Reserved q t free
      → turn q o p t w ≡ done (some (ok w'))
      → Runs q o p w' (after q t w free)

-- Let a channel count its free places as tokio does, and give a permit only where there is one and
-- `Full` only where there is none. Then in every loop that `run` goes through, for either channel of
-- HTTP/3 streams, the streams in it, the tasks that may still send one and its free places are 1024
-- together: no place is lost, and none is given twice.
pub Runs-Balanced :
    (q : Quinn) (o : Octets) (p : Qpack) (w : Loop q) (free : Places)
    → Runs q o p w free
    → Balanced q w free
unfolding capacity
Runs-Balanced q o p w free begins = (refl, refl)
Runs-Balanced q o p w' free' (takes {w = w} {free = free} t r given made) =
    rw made at (turn-Balanced q o p t w free given (Runs-Balanced q o p w free r))
