-- ===== src/Worker/Handling.antt =====
-- `handle_new_h3_uni` keeps the invariant on every kind of stream.
use wtransport.Prelude.{
  ◌≡◌, inl, inr, refl, subst, true, false, Bool-cases, Option, none, some, Result, ok, err, done,
}
use wtransport.ErrorCode.{ErrorCode}
use wtransport.Quic.Octets.{Octets, OctetsLaws}
use wtransport.Frame.{Frame}
use wtransport.Frame.Kind.{FrameKind}
use wtransport.Settings.{Settings, is_settings, with_frame}
use wtransport.Settings.Reading.{with_frame-collect}
use wtransport.Settings.RoundTrip.{with_frame-IsSettings}
use wtransport.Settings.Writing.{IsSettings}
use wtransport.StreamHeader.Kind.{
  StreamKind, control, qpack_encoder, qpack_decoder, webtransport, exercise, is_webtransport,
}
use wtransport.Worker.{remote_closed, FrameReadError, closing}
use wtransport.Worker.Streams.{
  UniStream, Remote, publish, on_settings, on_frame, on_control_stream, on_qpack_enc_stream,
  on_qpack_dec_stream, by_kind, handle_new_h3_uni, with_settings, with_qpack_enc, with_qpack_dec,
}
use wtransport.Worker.Invariant.{
  Shown, Consistent, Handles, Stays-refl, Stays-none, refused, unchanged, refused_by, along,
  none-Shown,
}

is_settings_kind : (k : FrameKind) → is_settings k ≡ true → k ≡ FrameKind.settings
is_settings_kind FrameKind.settings e = refl
is_settings_kind FrameKind.data_frame e = cc
is_settings_kind FrameKind.headers e = cc
is_settings_kind FrameKind.webtransport e = cc
is_settings_kind (FrameKind.exercise i) e = cc

module _ (o : Octets) (laws : OctetsLaws o) where
  with_frame_total :
      (f : Frame)
      → f.kind ≡ FrameKind.settings
      → (x : Result Settings ErrorCode) × (with_frame o f ≡ done (some x))
  with_frame_total f k =
      let (ps, tail, pairs, end) = with_frame-collect o laws f k in
      elim end [ inl (_, e) ↦ (_, e) | inr (_, e) ↦ (_, e) ]

  Shown-free : (w : Remote) → w.settings_stream ≡ none → Consistent w → Shown none w.inc_settings
  Shown-free w free h = subst (λ t. Shown t w.inc_settings) free h.shown

  publish-Handles :
      (s : UniStream) (settings : Settings) (w : Remote)
      → s.header.kind ≡ control
      → w.settings_stream ≡ none
      → IsSettings settings
      → Consistent w
      → Handles w (done (some (publish s settings w)))
  unfolding publish
  publish-Handles s settings w k free valid h = elim (Bool-cases w.has_receiver) [
    | inr gone ↦ refused_by w remote_closed (rw gone) h
    | inl there ↦ (
      ok tt,
      with_settings s settings w,
      rw there,
      record { control_taken = k; enc_taken = h.enc_taken; dec_taken = h.dec_taken; shown = valid },
      (
        Stays-none w.settings_stream _ free,
        Stays-refl w.qpack_enc_stream,
        Stays-refl w.qpack_dec_stream,
        Stays-none w.inc_settings _ (none-Shown w.inc_settings (Shown-free w free h)),
      ),
    )
  ]

  settings-Handles :
      (s : UniStream) (f : Frame) (w : Remote) (x : Result Settings ErrorCode)
      → f.kind ≡ FrameKind.settings
      → with_frame o f ≡ done (some x)
      → s.header.kind ≡ control
      → w.settings_stream ≡ none
      → Consistent w
      → Handles w (on_settings s w (some x))
  unfolding on_settings
  settings-Handles s f w (err code) kf e k free h = refused w _ h
  settings-Handles s f w (ok settings) kf e k free h =
      publish-Handles s settings w k free (with_frame-IsSettings o laws f kf e) h

  frame-Handles :
      (s : UniStream) (read : Result Frame FrameReadError) (w : Remote)
      → s.header.kind ≡ control
      → w.settings_stream ≡ none
      → Consistent w
      → Handles w (on_frame o s w read)
  unfolding on_frame
  frame-Handles s (err e) w k free h = refused w _ h
  frame-Handles s (ok f) w k free h = elim (Bool-cases (is_settings f.kind)) [
    | inr other ↦
        refused_by w (closing ErrorCode.missing_settings "Unexpected frame on control stream")
          (rw other) h
    | inl is ↦
        let kf = is_settings_kind f.kind is in
        let (x, e) = with_frame_total f kf in
        along w (rw (is, e)) (settings-Handles s f w x kf e k free h)
  ]

  control-Handles :
      (s : UniStream) (read : Result Frame FrameReadError) (w : Remote) (taken : Option UniStream)
      → w.settings_stream ≡ taken
      → s.header.kind ≡ control
      → Consistent w
      → Handles w (on_control_stream o s read w)
  unfolding on_control_stream
  control-Handles s read w none free k h =
      let step : on_control_stream o s read w ≡ on_frame o s w read = rw (k, free) in
      along w step (frame-Handles s read w k free h)
  control-Handles s read w (some t) taken k h =
      refused_by w (closing ErrorCode.stream_creation "Duplicate control stream") (rw (k, taken)) h

  enc-Handles :
      (s : UniStream) (w : Remote) (taken : Option UniStream)
      → w.qpack_enc_stream ≡ taken
      → s.header.kind ≡ qpack_encoder
      → Consistent w
      → Handles w (done (some (on_qpack_enc_stream s w)))
  unfolding on_qpack_enc_stream
  enc-Handles s w (some t) taken k h =
      refused_by w (closing ErrorCode.stream_creation "Duplicate QPACK.ENC stream") (rw taken) h
  enc-Handles s w none free k h = (
    ok tt,
    with_qpack_enc s w,
    rw free,
    record {
      control_taken = h.control_taken;
      enc_taken = k;
      dec_taken = h.dec_taken;
      shown = h.shown;
    },
    (
      Stays-refl w.settings_stream,
      Stays-none w.qpack_enc_stream _ free,
      Stays-refl w.qpack_dec_stream,
      Stays-refl w.inc_settings,
    ),
  )

  dec-Handles :
      (s : UniStream) (w : Remote) (taken : Option UniStream)
      → w.qpack_dec_stream ≡ taken
      → s.header.kind ≡ qpack_decoder
      → Consistent w
      → Handles w (done (some (on_qpack_dec_stream s w)))
  unfolding on_qpack_dec_stream
  dec-Handles s w (some t) taken k h =
      refused_by w (closing ErrorCode.stream_creation "Duplicate QPACK.DEC stream") (rw taken) h
  dec-Handles s w none free k h = (
    ok tt,
    with_qpack_dec s w,
    rw free,
    record {
      control_taken = h.control_taken;
      enc_taken = h.enc_taken;
      dec_taken = k;
      shown = h.shown;
    },
    (
      Stays-refl w.settings_stream,
      Stays-refl w.qpack_enc_stream,
      Stays-none w.qpack_dec_stream _ free,
      Stays-refl w.inc_settings,
    ),
  )

  kind-Handles :
      (k : StreamKind) (s : UniStream) (read : Result Frame FrameReadError) (w : Remote)
      → s.header.kind ≡ k
      → is_webtransport k ≡ false
      → Consistent w
      → Handles w (by_kind o k s read w)
  unfolding by_kind
  kind-Handles control s read w e n h = control-Handles s read w w.settings_stream refl e h
  kind-Handles qpack_encoder s read w e n h = enc-Handles s w w.qpack_enc_stream refl e h
  kind-Handles qpack_decoder s read w e n h = dec-Handles s w w.qpack_dec_stream refl e h
  kind-Handles (exercise i) s read w e n h = unchanged w h
  kind-Handles webtransport s read w e n h = cc

  -- On every stream that is not a WebTransport stream `handle_new_h3_uni` returns and keeps the
  -- invariant, whatever the stream's first read returns: settings are shown exactly when the control
  -- stream was taken, and they repeat no setting. After an error the state is as it was, and otherwise
  -- no stream that was taken and no settings that are shown are replaced.
  pub handle-Consistent :
      (s : UniStream) (read : Result Frame FrameReadError) (w : Remote)
      → is_webtransport s.header.kind ≡ false
      → Consistent w
      → Handles w (handle_new_h3_uni o s read w)
  unfolding handle_new_h3_uni
  handle-Consistent s read w n h = kind-Handles s.header.kind s read w refl n h
