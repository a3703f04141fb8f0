-- ===== src/Worker/Reaches.antt =====
-- Every state that the worker reaches by the streams of its peer, and a second critical stream.
use Prim.Native.String.{String}
use wtransport.Prelude.{
  ◌≡◌, refl, sym, ◌∙◌, subst, inl, inr, true, Bool-cases, Option, none, some, Result, ok, err,
  Outcome, done, panic,
}
use wtransport.ErrorCode.{ErrorCode}
use wtransport.Quic.Octets.{Octets, OctetsLaws}
use wtransport.Frame.{Frame}
use wtransport.StreamHeader.Kind.{
  StreamKind, control, qpack_encoder, qpack_decoder, webtransport, exercise, is_webtransport,
}
use wtransport.Worker.{FrameReadError, closing}
use wtransport.Worker.Streams.{
  UniStream, Remote, Handled, start, by_kind, handle_new_h3_uni, on_control_stream,
  on_qpack_enc_stream, on_qpack_dec_stream,
}
use wtransport.Worker.Invariant.{Consistent, Handles}
use wtransport.Worker.Handling.{handle-Consistent}

-- The states of the loop of `run`: it goes on as long as `handle_new_h3_uni` returns `Ok`.
pub data Reaches (o : Octets) : Remote → Type 0 where
  starts : Reaches o start
  takes :
      {w w' : Remote} (s : UniStream) (read : Result Frame FrameReadError)
      → Reaches o w
      → handle_new_h3_uni o s read w ≡ done (some (ok tt, w'))
      → Reaches o w'

pub start-Consistent : Consistent start
start-Consistent = record { control_taken = tt; enc_taken = tt; dec_taken = tt; shown = tt }

webtransport_panics :
    (o : Octets) (k : StreamKind) (s : UniStream) (read : Result Frame FrameReadError) (w : Remote)
    → is_webtransport k ≡ true
    → by_kind o k s read w ≡ panic
unfolding by_kind
webtransport_panics o webtransport s read w e = refl
webtransport_panics o control s read w e = cc
webtransport_panics o qpack_encoder s read w e = cc
webtransport_panics o qpack_decoder s read w e = cc
webtransport_panics o (exercise i) s read w e = cc

handled-Consistent :
    (w w' : Remote) (out : Outcome (Option Handled))
    → Handles w out
    → out ≡ done (some (ok tt, w'))
    → Consistent w'
handled-Consistent w w' out (result, w'', e, h, kept) p =
    let same : w'' ≡ w' = cc in subst Consistent same h

module _ (o : Octets) (laws : OctetsLaws o) where
  step-Consistent :
      (w w' : Remote) (s : UniStream) (read : Result Frame FrameReadError)
      → Consistent w
      → handle_new_h3_uni o s read w ≡ done (some (ok tt, w'))
      → Consistent w'
  unfolding handle_new_h3_uni
  step-Consistent w w' s read h e = elim (Bool-cases (is_webtransport s.header.kind)) [
    | inl wt ↦ let p = sym (webtransport_panics o s.header.kind s read w wt) ∙ e in cc
    | inr other ↦ handled-Consistent w w' _ (handle-Consistent o laws s read w other h) e
  ]

  -- In every state that the worker reaches, by whichever streams the peer opens in whichever order,
  -- settings are shown exactly when the control stream was taken, they repeat no setting, and every
  -- stream that was taken is of its kind.
  pub Reaches-Consistent : (w : Remote) → Reaches o w → Consistent w
  Reaches-Consistent w starts = start-Consistent
  Reaches-Consistent w' (takes {w = w} s read r e) =
      step-Consistent w w' s read (Reaches-Consistent w r) e

-- The stream of a kind that was taken.
abbrev pub taken_of : StreamKind → Remote → Option UniStream
taken_of control w = w.settings_stream
taken_of qpack_encoder w = w.qpack_enc_stream
taken_of qpack_decoder w = w.qpack_dec_stream
taken_of _ w = none

duplicate_of :
    (o : Octets) (k : StreamKind) (s t : UniStream) (read : Result Frame FrameReadError)
    (w : Remote)
    → s.header.kind ≡ k
    → taken_of k w ≡ some t
    → (reason : String) × (by_kind o k s read w
        ≡ done (some (err (closing ErrorCode.stream_creation reason), w)))
unfolding by_kind on_control_stream on_qpack_enc_stream on_qpack_dec_stream
duplicate_of o control s t read w k e = ("Duplicate control stream", rw (k, e))
duplicate_of o qpack_encoder s t read w k e = ("Duplicate QPACK.ENC stream", rw e)
duplicate_of o qpack_decoder s t read w k e = ("Duplicate QPACK.DEC stream", rw e)
duplicate_of o webtransport s t read w k e = cc
duplicate_of o (exercise i) s t read w k e = cc

-- A second control stream, QPACK encoder stream or QPACK decoder stream ends the connection with
-- `H3_STREAM_CREATION_ERROR`, and the first one stays.
pub handle_duplicate :
    (o : Octets) (s t : UniStream) (read : Result Frame FrameReadError) (w : Remote)
    → taken_of s.header.kind w ≡ some t
    → (reason : String) × (handle_new_h3_uni o s read w
        ≡ done (some (err (closing ErrorCode.stream_creation reason), w)))
unfolding handle_new_h3_uni
handle_duplicate o s t read w e = duplicate_of o s.header.kind s t read w refl e
