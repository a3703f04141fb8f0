-- ===== src/Worker/Accept.antt =====
-- wtransport/src/engine/worker.rs: the streams that the peer opens are accepted while the channels
-- have room, and routed by their header or their first frame.
use wtransport.Prelude.{
  ◌≡◌, ◌⊎◌, arith, refl, inl, inr, true, false, Option, none, some, Result, ok, err, Outcome, done,
  panic, bind, if◌then◌else◌,
}
use wtransport.VarInt.{VarInt}
use wtransport.ErrorCode.{ErrorCode, to_code}
use wtransport.Ids.SessionId.{SessionId}
use wtransport.Quic.Octets.{Octets, OctetsLaws}
use wtransport.Frame.{Frame, get_session_id}
use wtransport.Frame.Kind
use wtransport.Frame.Wire.{Shape, IsFrame}
use wtransport.Frame.Writing.{get_session_id_lem}
use wtransport.StreamHeader.Kind.{is_webtransport}
use wtransport.Worker.{WorkerError, remote_closed, UpgradeError, FrameReadError}
use wtransport.Worker.Streams.{UniStream, Remote, handle_new_h3_uni}
use wtransport.Worker.Invariant.{Consistent, Handles}
use wtransport.Worker.Handling.{handle-Consistent}

-- `try_reserve_owned` of a channel: a permit, `TrySendError::Full` or `TrySendError::Closed`.
pub data Reserve : Type 0 where
  permit full closed : Reserve

-- A turn of the loop: it returns the stream, stops it with a code and goes on, or fails.
pub data Accepted (A : Type 0) : Type 0 where
  accepted : A → Accepted A
  stopped : A → VarInt → Accepted A
  failed : WorkerError → Accepted A

abbrev with_wt_slot : {A : Type 0} → A → Reserve → Outcome (Accepted A)
unfolding to_code
with_wt_slot stream permit = done (accepted stream)
with_wt_slot stream full = done (stopped stream (to_code ErrorCode.buffered_stream_rejected))
with_wt_slot stream closed = done (failed remote_closed)

abbrev accept : {A : Type 0} → Option A → Reserve → Reserve → Outcome (Accepted A)
unfolding with_wt_slot
accept none h3 wt = done (failed remote_closed)
accept (some stream) full wt = done (stopped stream (to_code ErrorCode.buffered_stream_rejected))
accept (some stream) closed wt = panic
accept (some stream) permit wt = with_wt_slot stream wt

-- `accept_uni` and `accept_bi`, whose bodies are the same on the two types of streams: the stream that
-- the connection accepts, `None` where it is closed, and the two permits.
unfoldable pub accept_uni : {A : Type 0} → Option A → Reserve → Reserve → Outcome (Accepted A)
unfolding accept
accept_uni stream h3slot wtslot = accept stream h3slot wtslot

unfoldable pub accept_bi : {A : Type 0} → Option A → Reserve → Reserve → Outcome (Accepted A)
unfolding accept
accept_bi stream h3slot wtslot = accept stream h3slot wtslot

-- Where a stream goes: it is dropped, or sent to the HTTP/3 or the WebTransport channel.
pub data Routed (H Wt : Type 0) : Type 0 where
  dropped : Routed H Wt
  to_h3 : H → Routed H Wt
  to_wt : Wt → Routed H Wt

-- `process_inc_uni`, with what `upgrade` returns. The second `upgrade`, of a stream that goes to the
-- WebTransport channel, is left out: its `expect` holds of a header that was read.
unfoldable pub process_inc_uni : Result UniStream UpgradeError → Routed UniStream UniStream
process_inc_uni (err UpgradeError.unknown_stream) = dropped
process_inc_uni (err UpgradeError.invalid_session_id) = dropped
process_inc_uni (err UpgradeError.connection_closed) = dropped
process_inc_uni (err UpgradeError.end_of_stream) = dropped
process_inc_uni (ok stream) =
    if is_webtransport stream.header.kind then to_wt stream else to_h3 stream

abbrev pub by_session : Frame → Option SessionId → Routed Frame SessionId
by_session frame (some session_id) = to_wt session_id
by_session frame none = to_h3 frame

-- `process_inc_bi`, with what `read_frame` returns.
unfoldable pub process_inc_bi : Result Frame FrameReadError → Outcome (Routed Frame SessionId)
unfolding get_session_id
process_inc_bi (err FrameReadError.unknown_frame) = done dropped
process_inc_bi (err FrameReadError.invalid_session_id) = done dropped
process_inc_bi (err FrameReadError.connection_closed) = done dropped
process_inc_bi (err FrameReadError.end_of_stream) = done dropped
process_inc_bi (ok frame) =
    bind (get_session_id frame) λ session_id. done (by_session frame session_id)

routed_h3 :
    (r : Result UniStream UpgradeError) (s : UniStream)
    → process_inc_uni r ≡ to_h3 s
    → is_webtransport s.header.kind ≡ false
unfolding process_inc_uni
routed_h3 (err UpgradeError.unknown_stream) s e = cc
routed_h3 (err UpgradeError.invalid_session_id) s e = cc
routed_h3 (err UpgradeError.connection_closed) s e = cc
routed_h3 (err UpgradeError.end_of_stream) s e = cc
routed_h3 (ok t) s e = ground arith

-- Every stream that `process_inc_uni` sends to the HTTP/3 channel is one that `handle_new_h3_uni`
-- handles, without reaching `unreachable!()`, and keeps the invariant.
pub process_inc_uni-Handles :
    (o : Octets) (laws : OctetsLaws o) (r : Result UniStream UpgradeError) (s : UniStream)
    (read : Result Frame FrameReadError) (w : Remote)
    → process_inc_uni r ≡ to_h3 s
    → Consistent w
    → Handles w (handle_new_h3_uni o s read w)
process_inc_uni-Handles o laws r s read w e h =
    handle-Consistent o laws s read w (routed_h3 r s e) h

Shape-by_session :
    (k : Kind.FrameKind) (f : Frame)
    → f.kind ≡ k
    → Shape k f.payload f.session_id
    → ((s : SessionId) × (f.session_id ≡ some s)
        × (by_session f f.session_id ≡ to_wt s)
        × (Kind.is_webtransport k ≡ true))
      ⊎ ((by_session f f.session_id ≡ to_h3 f) × (Kind.is_webtransport k ≡ false))
Shape-by_session Kind.webtransport f e (_, (s, p, _)) = inl (s, p, rw p, refl)
Shape-by_session Kind.data_frame f e p = inr (rw p, refl)
Shape-by_session Kind.headers f e p = inr (rw p, refl)
Shape-by_session Kind.settings f e p = inr (rw p, refl)
Shape-by_session (Kind.exercise i) f e p = inr (rw p, refl)

-- `process_inc_bi` never panics on a frame that was read: a WebTransport frame has a session id and
-- sends the stream into that session, and every other frame goes with its stream to the HTTP/3
-- channel, so that `handle_new_h3_bi` meets no WebTransport frame.
pub process_inc_bi_cases :
    (f : Frame)
    → IsFrame f
    → ((s : SessionId) × (f.session_id ≡ some s)
        × (process_inc_bi (ok f) ≡ done (to_wt s))
        × (Kind.is_webtransport f.kind ≡ true))
      ⊎ ((process_inc_bi (ok f) ≡ done (to_h3 f)) × (Kind.is_webtransport f.kind ≡ false))
unfolding process_inc_bi
process_inc_bi_cases f h =
    let same = get_session_id_lem f h in
    elim (Shape-by_session f.kind f refl h.shape) [
      | inl (s, has, p, k) ↦ inl (s, has, rw (same, p), k)
      | inr (p, k) ↦ inr (rw (same, p), k)
    ]
