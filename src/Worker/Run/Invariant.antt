-- ===== src/Worker/Run/Invariant.antt =====
-- The invariant of the loop of the worker, and where its tasks send the streams of the peer.
use wtransport.Prelude.{
  ◌≤◌, ◌≡◌, ◌⊎◌, refl, inl, inr, true, false, Option, none, some, Result, ok, err, Outcome, done,
  bind, expect, Each, Bool-cases,
}
use wtransport.VarInt.{varint_max}
use wtransport.Ids.SessionId.{SessionId}
use wtransport.Quic.Qpack.{Qpack}
use wtransport.Quic.Streams.{Quinn}
use wtransport.Frame.{Frame, get_session_id}
use wtransport.Frame.Kind.{headers}
use wtransport.Frame.Kind as FrameKind
use wtransport.StreamHeader.Kind as StreamKind
use wtransport.Headers
use wtransport.Stream.{Stream, H3, TwoWay}
use wtransport.Session.{SessionRemoteRequest}
use wtransport.Worker.{WorkerError, FrameReadError, UpgradeError}
use wtransport.Worker.Streams.{UniStream}
use wtransport.Worker.Invariant.{Consistent, Kept, Stays-refl}
use wtransport.Worker.Accept.{
  closed, Routed, dropped, to_h3, to_wt, process_inc_uni, process_inc_bi, by_session,
}
use wtransport.Worker.Run.{Loop, Turn, Turned, incoming_uni, incoming_bi, bi_read}

abbrev pub IsH3 : UniStream → Type 0
IsH3 s = StreamKind.is_webtransport s.header.kind ≡ false

abbrev pub IsWt : UniStream → Type 0
IsWt s = StreamKind.is_webtransport s.header.kind ≡ true

module _ (q : Quinn) (p : Qpack) where
  -- A bidirectional stream with its first frame.
  abbrev pub IsH3Bi : Stream (TwoWay q) H3 × Frame → Type 0
  IsH3Bi (s, f) = (FrameKind.is_webtransport f.kind ≡ false) × (q.send_id s.kind.send ≤ varint_max)

  -- The headers of a request were decoded from a frame of the kind of headers.
  abbrev pub IsAsked : SessionRemoteRequest q → Type 0
  IsAsked r =
      (f : Frame) × (f.kind ≡ FrameKind.headers)
      × (Headers.with_frame p f (record { varint = q.send_id r.stream.kind.send })
          ≡ done (ok r.headers))

  pub record Serving (w : Loop q) : Type 0 where
    pub remote_ok : Consistent w.remote
    pub h3_uni_ok : Each IsH3 w.h3_uni
    pub h3_bi_ok : Each IsH3Bi w.h3_bi
    pub wt_uni_ok : Each IsWt w.wt_uni
    pub sessions_ok : Each IsAsked w.sessions

  abbrev pub Keeps : Loop q → Loop q → Type 0
  Keeps w w' = Kept (ok tt) w.remote w'.remote

  abbrev pub Serves : Loop q → Turned q → Type 0
  Serves w out =
      ((w' : Loop q) × (out ≡ done (some (ok w'))) × Serving w' × Keeps w w')
      ⊎ ((e : WorkerError) × (out ≡ done (some (err e))))

  -- A channel whose receiver the worker holds is not closed, and the id of a stream of `quinn` is
  -- a varint.
  abbrev pub Fair : Turn q → Type 0
  Fair (incoming_uni stream closed wtslot) = true ≡ false
  Fair (incoming_bi stream closed wtslot) = true ≡ false
  Fair (bi_read stream read) = q.send_id stream.kind.send ≤ varint_max
  Fair _ = Unit {0}

  pub Keeps-refl : (w : Loop q) → Keeps w w
  Keeps-refl w = (
    Stays-refl w.remote.settings_stream,
    Stays-refl w.remote.qpack_enc_stream,
    Stays-refl w.remote.qpack_dec_stream,
    Stays-refl w.remote.inc_settings,
  )

  -- `Ok` of a `process_inc_uni` is sorted by its kind.
  abbrev pub UniRouted : Routed UniStream UniStream → Type 0
  UniRouted dropped = Unit {0}
  UniRouted (to_h3 s) = IsH3 s
  UniRouted (to_wt s) = IsWt s

  abbrev pub BiRouted : Outcome (Routed Frame SessionId) → Type 0
  BiRouted (done (to_h3 f)) = FrameKind.is_webtransport f.kind ≡ false
  BiRouted _ = Unit {0}

  pub process_inc_uni-UniRouted :
      (r : Result UniStream UpgradeError) → UniRouted (process_inc_uni r)
  unfolding process_inc_uni
  process_inc_uni-UniRouted (err UpgradeError.unknown_stream) = tt
  process_inc_uni-UniRouted (err UpgradeError.invalid_session_id) = tt
  process_inc_uni-UniRouted (err UpgradeError.connection_closed) = tt
  process_inc_uni-UniRouted (err UpgradeError.end_of_stream) = tt
  process_inc_uni-UniRouted (ok s) = elim (Bool-cases (StreamKind.is_webtransport s.header.kind)) [
    | inl wt ↦ rw wt wt
    | inr h3 ↦ rw h3 h3
  ]

  bi_session :
      (f : Frame) (id : Option SessionId)
      → BiRouted
          (bind (bind (expect id) λ s. done (some s)) λ session_id. done (by_session f session_id))
  bi_session f none = tt
  bi_session f (some s) = tt

  pub process_inc_bi-BiRouted : (r : Result Frame FrameReadError) → BiRouted (process_inc_bi r)
  unfolding process_inc_bi get_session_id
  process_inc_bi-BiRouted (err FrameReadError.unknown_frame) = tt
  process_inc_bi-BiRouted (err FrameReadError.invalid_session_id) = tt
  process_inc_bi-BiRouted (err FrameReadError.connection_closed) = tt
  process_inc_bi-BiRouted (err FrameReadError.end_of_stream) = tt
  process_inc_bi-BiRouted (ok f) = elim (Bool-cases (FrameKind.is_webtransport f.kind)) [
    | inl wt ↦ rw wt (bi_session f f.session_id)
    | inr h3 ↦ rw h3 h3
  ]

  pub unchanged : (w : Loop q) → Serving w → Serves w (done (some (ok w)))
  unchanged w h = inl (w, refl, h, Keeps-refl w)
