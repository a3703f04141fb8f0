-- ===== src/Worker/Invariant.antt =====
-- The invariant of the control and QPACK streams of the peer, and what it means that a stream is
-- handled well.
use wtransport.Prelude.{
  ◌≡◌, refl, ◌∙◌, true, false, Option, none, some, Result, ok, err, Outcome, done,
}
use wtransport.Settings.{Settings}
use wtransport.Settings.Writing.{IsSettings}
use wtransport.StreamHeader.Kind.{StreamKind, control, qpack_encoder, qpack_decoder}
use wtransport.Worker.{WorkerError}
use wtransport.Worker.Streams.{UniStream, Remote, Handled}

-- A stream that was taken is of its kind.
abbrev pub Taken : StreamKind → Option UniStream → Type 0
Taken kind none = Unit {0}
Taken kind (some s) = s.header.kind ≡ kind

-- Settings are shown exactly when the control stream was taken.
abbrev pub Shown : Option UniStream → Option Settings → Type 0
Shown none none = Unit {0}
Shown (some s) (some settings) = IsSettings settings
Shown _ _ = true ≡ false

pub record Consistent (w : Remote) : Type 0 where
  pub control_taken : Taken control w.settings_stream
  pub enc_taken : Taken qpack_encoder w.qpack_enc_stream
  pub dec_taken : Taken qpack_decoder w.qpack_dec_stream
  pub shown : Shown w.settings_stream w.inc_settings

abbrev pub Stays {ℓ} : {A : Type ℓ} → Option A → Option A → Type ℓ
Stays none after = Unit
Stays (some a) after = after ≡ some a

-- After an error nothing has changed; otherwise nothing that was taken or shown is replaced.
abbrev pub Kept : Result (Unit {0}) WorkerError → Remote → Remote → Type 0
Kept (err e) w w' = w' ≡ w
Kept (ok _) w w' =
    Stays w.settings_stream w'.settings_stream
    × Stays w.qpack_enc_stream w'.qpack_enc_stream
    × Stays w.qpack_dec_stream w'.qpack_dec_stream
    × Stays w.inc_settings w'.inc_settings

abbrev pub Handles : Remote → Outcome (Option Handled) → Type 0
Handles w out =
    (result : Result (Unit {0}) WorkerError) × (w' : Remote) × (out ≡ done (some (result, w')))
    × Consistent w'
    × Kept result w w'

pub Stays-refl {ℓ} : {A : Type ℓ} (a : Option A) → Stays a a
Stays-refl none = tt
Stays-refl (some a) = refl

pub refused : (w : Remote) (e : WorkerError) → Consistent w → Handles w (done (some (err e, w)))
refused w e h = (err e, w, refl, h, refl)

pub unchanged : (w : Remote) → Consistent w → Handles w (done (some (ok tt, w)))
unchanged w h = (
  ok tt,
  w,
  refl,
  h,
  (
    Stays-refl w.settings_stream,
    Stays-refl w.qpack_enc_stream,
    Stays-refl w.qpack_dec_stream,
    Stays-refl w.inc_settings,
  ),
)

pub Stays-none {ℓ} : {A : Type ℓ} (a b : Option A) → a ≡ none → Stays a b
Stays-none none b e = tt
Stays-none (some a) b e = cc

pub refused_by :
    (w : Remote) (e : WorkerError) {out : Outcome (Option Handled)}
    → out ≡ done (some (err e, w))
    → Consistent w
    → Handles w out
refused_by w e p h = (err e, w, p, h, refl)

pub along :
    (w : Remote) {out out' : Outcome (Option Handled)} → out ≡ out' → Handles w out' → Handles w out
along w p (result, w', e, h, k) = (result, w', p ∙ e, h, k)

pub none-Shown : (shown : Option Settings) → Shown none shown → shown ≡ none
none-Shown none h = refl
none-Shown (some settings) h = cc
