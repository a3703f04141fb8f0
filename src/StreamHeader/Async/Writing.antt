-- ===== src/StreamHeader/Async/Writing.antt =====
-- `StreamHeader::write_async` on a sink that keeps its contract.
use wtransport.Prelude.{ℕ, ◌<◌, sym, subst, [], append-nil, Option, none, some}
use wtransport.Ids.SessionId.{SessionId}
use wtransport.Quic.Encoding.{encode}
use wtransport.Quic.Octets.{Octets, OctetsLaws}
use wtransport.Bytes.Async.Write.{AsyncWrite, put_varint_async}
use wtransport.Bytes.Async.Write.Sink.{Sink, Sent}
use wtransport.Bytes.Async.Write.Sends.{put_varint_async-Sent}
use wtransport.Bytes.Async.Write.Chained.{Sends, nothing-Sends, then-Sends}
use wtransport.Bytes.Async.Chain.{◌>>=◌, lift}
use wtransport.StreamHeader.{StreamHeader}
use wtransport.StreamHeader.Kind
use wtransport.StreamHeader.Kind.{StreamKind}
use wtransport.StreamHeader.Kind.Laws.{id-IsVarInt}
use wtransport.StreamHeader.Wire.{Shape, IsHeader, session_bytes, wire}
use wtransport.StreamHeader.Writing.{get_session_id_lem, Session-IsVarInt}
use wtransport.StreamHeader.Async.{rest_async, write_async}

module _ {W : Type 0} {writer : AsyncWrite W} (o : Octets) (laws : OctetsLaws o)
    (sink : Sink writer) (polls : ℕ) where
  open sink use {waits}

  rest_async-Sends :
      (k : StreamKind) (s : Option SessionId)
      → Shape k s
      → Sends sink polls (rest_async o writer polls s) (session_bytes s)
  unfolding rest_async
  rest_async-Sends k (some s) shape =
      let bs = encode s.session_stream.varint in
      subst (Sends sink polls (rest_async o writer polls (some s))) (append-nil bs) (
        then-Sends sink polls (put_varint_async writer o polls s.session_stream.varint) _ bs []
          (λ w enough.
            put_varint_async-Sent sink o laws polls _ w (Session-IsVarInt k s shape) enough)
          λ n. nothing-Sends sink polls tt)
  rest_async-Sends k none shape = nothing-Sends sink polls tt

  -- On every sink that waits fewer times than it is polled `write_async` ends: with the bytes of the
  -- header written, or with an error of the sink and the first of them written; it never panics.
  pub write_header_async-Sends :
      (h : StreamHeader) (w : W)
      → IsHeader h
      → waits w < polls
      → Sent sink w (wire h) (write_async o writer polls h w)
  unfolding write_async wire
  write_header_async-Sends h w v enough =
      then-Sends sink polls (put_varint_async writer o polls (Kind.id h.kind)) _
        (encode (Kind.id h.kind)) (session_bytes h.session_id)
        (λ w enough.
          put_varint_async-Sent sink o laws polls _ w (id-IsVarInt h.kind v.kind_ok) enough)
        (λ n.
          subst
            (λ m.
              Sends sink polls (lift m >>= rest_async o writer polls) (session_bytes h.session_id))
            (sym (get_session_id_lem h v)) (rest_async-Sends h.kind h.session_id v.shape))
        w enough
