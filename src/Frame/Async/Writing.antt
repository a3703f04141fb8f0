-- ===== src/Frame/Async/Writing.antt =====
-- `Frame::write_async` on a sink that keeps its contract.
use wtransport.Prelude.{ℕ, ◌≤◌, ◌<◌, sym, subst, List, [], append-nil, Option, none, some, length}
use wtransport.VarInt.{varint_max}
use wtransport.Ids.SessionId.{SessionId}
use wtransport.Quic.Encoding.{encode}
use wtransport.Quic.Octets.{Octets, OctetsLaws}
use wtransport.Bytes.Async.Write.{AsyncWrite, put_varint_async}
use wtransport.Bytes.Async.Write.Sink.{Sink, Sent}
use wtransport.Bytes.Async.Write.Sends.{put_varint_async-Sent, put_buffer_async-Sent}
use wtransport.Bytes.Async.Write.Chained.{Sends, nothing-Sends, then-Sends}
use wtransport.Bytes.Async.Chain.{◌>>=◌, lift}
use wtransport.Frame.{Frame}
use wtransport.Frame.Kind
use wtransport.Frame.Kind.{FrameKind}
use wtransport.Frame.Kind.Laws.{id-IsVarInt}
use wtransport.Frame.Wire.{Shape, IsFrame, body_bytes, wire}
use wtransport.Frame.Writing.{get_session_id_lem, length_try, Session-IsVarInt}
use wtransport.Frame.Async.{body_async, write_async}

module _ {W : Type 0} {writer : AsyncWrite W} (o : Octets) (laws : OctetsLaws o)
    (sink : Sink writer) (polls : ℕ) where
  open sink use {waits}

  body_async-Sends :
      (k : FrameKind) (payload : List ℕ) (s : Option SessionId)
      → length payload ≤ varint_max
      → Shape k payload s
      → Sends sink polls (body_async o writer polls payload s) (body_bytes payload s)
  unfolding body_async
  body_async-Sends k payload (some s) h shape =
      let bs = encode s.session_stream.varint in
      subst (Sends sink polls (body_async o writer polls payload (some s))) (append-nil bs) (
        then-Sends sink polls (put_varint_async writer o polls s.session_stream.varint) _ bs []
          (λ w enough.
            put_varint_async-Sent sink o laws polls _ w (Session-IsVarInt k payload s shape) enough)
          λ n. nothing-Sends sink polls tt)
  body_async-Sends k payload none h shape = rw (length_try payload h) (
      then-Sends sink polls (put_varint_async writer o polls (length payload)) _
        (encode (length payload)) payload
        (λ w enough. put_varint_async-Sent sink o laws polls _ w h enough)
        λ n w enough. put_buffer_async-Sent sink polls payload w enough)

  -- On every sink that waits fewer times than it is polled `write_async` ends: with the bytes of the
  -- frame written, or with an error of the sink and the first of them written; it never panics.
  pub write_async-Sends :
      (f : Frame) (w : W)
      → IsFrame f
      → waits w < polls
      → Sent sink w (wire f) (write_async o writer polls f w)
  unfolding write_async wire
  write_async-Sends f w h enough =
      then-Sends sink polls (put_varint_async writer o polls (Kind.id f.kind)) _
        (encode (Kind.id f.kind)) (body_bytes f.payload f.session_id)
        (λ w enough.
          put_varint_async-Sent sink o laws polls _ w (id-IsVarInt f.kind h.kind_ok) enough)
        (λ n.
          subst
            (λ m.
              Sends sink polls (lift m >>= body_async o writer polls f.payload)
                (body_bytes f.payload f.session_id))
            (sym (get_session_id_lem f h))
            (body_async-Sends f.kind f.payload f.session_id h.short h.shape))
        w enough
