-- ===== src/StreamHeader/Writing.antt =====
-- `StreamHeader::write` on any sink that keeps the writer's contract, and the header's size.
use wtransport.Prelude.{
  ℕ, ◌+◌, ◌≤◌, ◌≡◌, ◌⊎◌, true, false, sym, ap, subst, arith, ◌++◌, Option, none, some, ok, err,
  done, length, length-append_bytes,
}
use wtransport.VarInt.{IsVarInt}
use wtransport.VarInt.Size.{size-encode}
use wtransport.Ids.SessionId.{SessionId}
use wtransport.Quic.Encoding.{encode}
use wtransport.Bytes.Writer.{BytesWriter, WriterLaws, ◌>>◌, given, end_of_buffer}
use wtransport.Bytes.Writer.Appends.{
  Appends, Appends-cases, put_varint-Appends, nothing-Appends, then-Appends,
}
use wtransport.StreamHeader.{
  StreamHeader, get_session_id, write_session, write, add_session, write_size, max_size,
}
use wtransport.StreamHeader.Kind
use wtransport.StreamHeader.Kind.{
  StreamKind, control, qpack_encoder, qpack_decoder, webtransport, exercise,
}
use wtransport.StreamHeader.Kind.Laws.{id-IsVarInt}
use wtransport.StreamHeader.Wire.{Shape, IsHeader, session_bytes, wire}

get_session_id_of :
    (k : StreamKind) (s : Option SessionId)
    → Shape k s
    → get_session_id (record { kind = k; session_id = s }) ≡ done s
unfolding get_session_id
get_session_id_of webtransport s (t, e, h) = rw e
get_session_id_of control s e = sym (ap done e)
get_session_id_of qpack_encoder s e = sym (ap done e)
get_session_id_of qpack_decoder s e = sym (ap done e)
get_session_id_of (exercise i) s e = sym (ap done e)

-- The method `session_id` returns the field of a header, and its `expect` does not fail.
pub get_session_id_lem : (h : StreamHeader) → IsHeader h → get_session_id h ≡ done h.session_id
get_session_id_lem h v = get_session_id_of h.kind h.session_id v.shape

pub Session-IsVarInt :
    (k : StreamKind) (s : SessionId) → Shape k (some s) → IsVarInt s.session_stream.varint
Session-IsVarInt webtransport s (t, e, h) = let same : s ≡ t = cc in rw same h.in_range
Session-IsVarInt control s e = cc
Session-IsVarInt qpack_encoder s e = cc
Session-IsVarInt qpack_decoder s e = cc
Session-IsVarInt (exercise i) s e = cc

module _ {W : Type 0} (writer : BytesWriter W) (laws : WriterLaws writer) where
  write_session-Appends :
      (k : StreamKind) (s : Option SessionId)
      → Shape k s
      → Appends writer laws (write_session writer s) (session_bytes s)
  write_session-Appends k (some s) shape =
      put_varint-Appends writer laws _ (Session-IsVarInt k s shape)
  write_session-Appends k none shape = nothing-Appends writer laws

  -- On every sink `write` appends exactly the bytes of the header where they fit, and fails with
  -- `EndOfBuffer` where they do not; it never panics.
  pub write_header-Appends :
      (h : StreamHeader) → IsHeader h → Appends writer laws (write writer h) (wire h)
  unfolding write wire
  write_header-Appends h v =
      subst
        (λ m.
          Appends writer laws (writer.put_varint (Kind.id h.kind) >> given m (write_session writer))
            (encode (Kind.id h.kind) ++ session_bytes h.session_id))
        (sym (get_session_id_lem h v))
        (then-Appends writer laws _ _ _ _
          (put_varint-Appends writer laws (Kind.id h.kind) (id-IsVarInt h.kind v.kind_ok))
          (write_session-Appends h.kind h.session_id v.shape))

  -- On every sink `write` appends exactly the bytes of the header where they fit, and fails with
  -- `EndOfBuffer` where they do not; it never panics.
  pub write_header_cases :
      (h : StreamHeader) (w : W)
      → IsHeader h
      → ((laws.fits w (length (wire h)) ≡ true)
          × ((w' : W) × (write writer h w ≡ done (ok tt, w'))
              × (laws.written w' ≡ laws.written w ++ wire h)))
        ⊎ ((laws.fits w (length (wire h)) ≡ false)
            × ((w' : W) × (write writer h w ≡ done (err end_of_buffer, w'))))
  write_header_cases h w k =
      Appends-cases writer laws (write writer h) (wire h) w (write_header-Appends h k)

add_session_lem :
    (k : StreamKind) (head : ℕ) (s : Option SessionId)
    → Shape k s
    → add_session head s ≡ done (head + length (session_bytes s))
add_session_lem k head (some s) shape = rw (size-encode _ (Session-IsVarInt k s shape)).0
add_session_lem k head none shape = ap done (omega arith)

-- `write_size` is the number of bytes that `write` writes, for every header.
pub header_size-wire : (h : StreamHeader) → IsHeader h → write_size h ≡ done (length (wire h))
unfolding write_size wire
header_size-wire h v =
    rw
      (
        get_session_id_lem h v,
        (size-encode (Kind.id h.kind) (id-IsVarInt h.kind v.kind_ok)).0,
        add_session_lem h.kind _ h.session_id v.shape,
      )
      (ap done (sym (length-append_bytes (encode (Kind.id h.kind)) _)))

length-session_bytes :
    (k : StreamKind) (s : Option SessionId) → Shape k s → length (session_bytes s) ≤ 8
length-session_bytes k (some s) shape = (size-encode _ (Session-IsVarInt k s shape)).1
length-session_bytes k none shape = omega arith

-- No header takes more than `MAX_SIZE` bytes.
pub header_size-le : (h : StreamHeader) → IsHeader h → length (wire h) ≤ max_size
unfolding wire
header_size-le h v = omega (
  arith,
  length-append_bytes (encode (Kind.id h.kind)) (session_bytes h.session_id),
  (size-encode (Kind.id h.kind) (id-IsVarInt h.kind v.kind_ok)).1,
  length-session_bytes h.kind h.session_id v.shape,
)
