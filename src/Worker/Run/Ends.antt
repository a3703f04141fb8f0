-- ===== src/Worker/Run/Ends.antt =====
-- `run` of the worker on every behaviour of the peer.
use wtransport.Prelude.{
  ◌<◌, ◌≡◌, refl, inl, inr, ℕ, List, [], ◌∷◌, Option, none, some, Result, ok, bind, Each,
}
use wtransport.Quic.Octets.{Octets, OctetsLaws}
use wtransport.Quic.Qpack.{Qpack, Unblocked}
use wtransport.Quic.Streams.{Quinn}
use wtransport.Bytes.Async.Write.Sink.{Sink}
use wtransport.Worker.Invariant.{Stays, Kept}
use wtransport.Worker.Streams.{Remote}
use wtransport.Worker.Reaches.{start-Consistent}
use wtransport.Worker.Local.{Ready}
use wtransport.Worker.Local.Ready.{IsReady, on_ready_connection-IsReady}
use wtransport.Worker.Run.{Loop, Turn, Turned, initial, turns, settings_ready, run}
use wtransport.Worker.Run.Invariant.{Serving, Serves, Keeps, Fair, unchanged}
use wtransport.Worker.Run.Serves.{turn-Serves}

Stays-trans {ℓ} : {A : Type ℓ} (a b c : Option A) → Stays a b → Stays b c → Stays a c
Stays-trans none b c h k = tt
Stays-trans (some x) none c h k = cc
Stays-trans (some x) (some y) c h k = cc

Kept-trans : (u v w : Remote) → Kept (ok tt) u v → Kept (ok tt) v w → Kept (ok tt) u w
Kept-trans u v w (a, b, c, d) (a', b', c', d') = (
  Stays-trans u.settings_stream v.settings_stream w.settings_stream a a',
  Stays-trans u.qpack_enc_stream v.qpack_enc_stream w.qpack_enc_stream b b',
  Stays-trans u.qpack_dec_stream v.qpack_dec_stream w.qpack_dec_stream c c',
  Stays-trans u.inc_settings v.inc_settings w.inc_settings d d',
)

module _ (q : Quinn) (o : Octets) (laws : OctetsLaws o) (p : Qpack) (free : Unblocked p) where
  from : (v w : Loop q) (out : Turned q) → Keeps q p v w → Serves q p w out → Serves q p v out
  from v w out kept (inr e) = inr e
  from v w out kept (inl (w', made, good, kept')) =
      inl (w', made, good, Kept-trans v.remote w.remote w'.remote kept kept')

  -- Let QPACK block no stream, the worker's own channels be open and the ids of streams be varints.
  -- Then from a loop with its invariant every sequence of turns ends without a panic: with an error,
  -- or with a loop that has the invariant, and in which no control or QPACK stream that was taken
  -- and no settings that were shown were replaced.
  pub turns-Serves :
      (ts : List (Turn q)) (w : Loop q)
      → Each (Fair q p) ts
      → Serving q p w
      → Serves q p w (turns q o p ts w)
  unfolding turns
  turns-Serves [] w fair h = unchanged q p w h
  turns-Serves (t ∷ ts) w (fair, rest) h = elim (turn-Serves q o laws p free t w fair h) [
    | inr (e, made) ↦ inr (e, rw made refl)
    | inl (w', made, good, kept) ↦ rw made (from w w' _ kept (turns-Serves ts w' rest good))
  ]

  initial-Serving : Serving q p (initial q)
  initial-Serving = record {
    remote_ok = start-Consistent;
    h3_uni_ok = tt;
    h3_bi_ok = tt;
    wt_uni_ok = tt;
    sessions_ok = tt;
  }

  ready-Serves :
      (polls : ℕ) (out : Ready q o polls) (served : Turned q)
      → IsReady q o polls out
      → Serves q p (initial q) served
      → Serves q p (initial q) (bind out (settings_ready q served))
  ready-Serves polls out served (inl (s, made)) h = rw made h
  ready-Serves polls out served (inr (e, made)) h = inr (e, rw made refl)

  -- Let QPACK block no stream, the worker's own channels be open, the ids of streams be varints, and
  -- the control stream, where one is opened, wait fewer times than it is polled. Then on every
  -- sequence of turns `run` does not panic: it returns an error, or it still serves, with its
  -- invariant.
  pub run-Serves :
      (polls : ℕ) (sink : Sink q.writer) {E : Type 0} (opened : Result q.Send E)
      (ts : List (Turn q))
      → ((w : q.Send) → opened ≡ ok w → sink.waits w < polls)
      → Each (Fair q p) ts
      → Serves q p (initial q) (run q o p polls opened ts)
  unfolding run
  run-Serves polls sink opened ts enough fair =
      ready-Serves polls _ _ (on_ready_connection-IsReady q o laws polls sink opened enough)
        (turns-Serves ts (initial q) fair initial-Serving)
