-- ===== src/Frame/Writing.antt =====
-- `Frame::write` on any sink that keeps the writer's contract, and `Frame::write_size`.
use wtransport.Prelude.{
  ℕ, ◌≤◌, ◌≡◌, ◌⊎◌, refl, ◌∙◌, subst, sym, ap, true, false, List, ◌++◌, Option, none, some, ok, err,
  done, length, length-append_bytes, le→leb,
}
use wtransport.VarInt.{IsVarInt, varint_max, try_from_u64}
use wtransport.VarInt.Size.{size-encode}
use wtransport.Ids.SessionId.{SessionId}
use wtransport.Quic.Encoding.{encode}
use wtransport.Quic.Octets.{Octets, OctetsLaws}
use wtransport.Bytes.Writer.{BytesWriter, WriterLaws, ◌>>◌, given, end_of_buffer}
use wtransport.Bytes.Writer.Appends.{
  Appends, Appends-cases, put_varint-Appends, put_bytes-Appends, then-Appends,
}
use wtransport.Bytes.Vec.{vec_writer}
use wtransport.Bytes.Vec.Laws.{vec-WriterLaws}
use wtransport.Frame.{Frame, get_session_id, write_body, write, body_size, write_size}
use wtransport.Frame.Kind
use wtransport.Frame.Kind.{
  FrameKind, webtransport, is_webtransport, data_frame, headers, settings, exercise,
}
use wtransport.Frame.Kind.Laws.{id-IsVarInt}
use wtransport.Frame.Wire.{Shape, IsFrame, body_bytes, wire}

get_session_id_of :
    (k : FrameKind) (payload : List ℕ) (s : Option SessionId)
    → Shape k payload s
    → get_session_id (record { kind = k; payload = payload; session_id = s }) ≡ done s
unfolding get_session_id
get_session_id_of webtransport payload s (_, (t, e, h)) = rw e
get_session_id_of data_frame payload s e = sym (ap done e)
get_session_id_of headers payload s e = sym (ap done e)
get_session_id_of settings payload s e = sym (ap done e)
get_session_id_of (exercise i) payload s e = sym (ap done e)

-- The method `session_id` returns the field of a frame, and its `expect` does not fail.
pub get_session_id_lem : (f : Frame) → IsFrame f → get_session_id f ≡ done f.session_id
get_session_id_lem f h = get_session_id_of f.kind f.payload f.session_id h.shape

-- A session id in a frame is a varint.
pub Session-IsVarInt :
    (k : FrameKind) (payload : List ℕ) (s : SessionId)
    → Shape k payload (some s)
    → IsVarInt s.session_stream.varint
Session-IsVarInt webtransport payload s (_, (t, e, h)) = let same : s ≡ t = cc in rw same h.in_range
Session-IsVarInt data_frame payload s e = cc
Session-IsVarInt headers payload s e = cc
Session-IsVarInt settings payload s e = cc
Session-IsVarInt (exercise i) payload s e = cc

pub length_try :
    (payload : List ℕ)
    → length payload ≤ varint_max
    → try_from_u64 (length payload) ≡ ok (length payload)
unfolding try_from_u64
length_try payload h = rw (le→leb _ _ h)

module _ {W : Type 0} (writer : BytesWriter W) (laws : WriterLaws writer) where
  write_body-Appends :
      (k : FrameKind) (payload : List ℕ) (s : Option SessionId)
      → length payload ≤ varint_max
      → Shape k payload s
      → Appends writer laws (write_body writer payload s) (body_bytes payload s)
  write_body-Appends k payload (some s) h shape =
      put_varint-Appends writer laws _ (Session-IsVarInt k payload s shape)
  write_body-Appends k payload none h shape = rw (length_try payload h) (
      then-Appends writer laws _ _ _ _ (put_varint-Appends writer laws (length payload) h)
        (put_bytes-Appends writer laws payload))

  -- On every sink `write` appends exactly the bytes of the frame where they fit, and fails with
  -- `EndOfBuffer` where they do not; it never panics.
  pub write-Appends : (f : Frame) → IsFrame f → Appends writer laws (write writer f) (wire f)
  unfolding write wire
  write-Appends f h =
      subst
        (λ m.
          Appends writer laws
            (writer.put_varint (Kind.id f.kind) >> given m (write_body writer f.payload))
            (encode (Kind.id f.kind) ++ body_bytes f.payload f.session_id))
        (sym (get_session_id_lem f h))
        (then-Appends writer laws _ _ _ _
          (put_varint-Appends writer laws (Kind.id f.kind) (id-IsVarInt f.kind h.kind_ok))
          (write_body-Appends f.kind f.payload f.session_id h.short h.shape))

  -- On every sink `write` appends exactly the bytes of the frame where they fit, and fails with
  -- `EndOfBuffer` where they do not; it never panics.
  pub write_cases :
      (f : Frame) (w : W)
      → IsFrame f
      → ((laws.fits w (length (wire f)) ≡ true)
          × ((w' : W) × (write writer f w ≡ done (ok tt, w'))
              × (laws.written w' ≡ laws.written w ++ wire f)))
        ⊎ ((laws.fits w (length (wire f)) ≡ false)
            × ((w' : W) × (write writer f w ≡ done (err end_of_buffer, w'))))
  write_cases f w k = Appends-cases writer laws (write writer f) (wire f) w (write-Appends f k)

body_size_lem :
    (k : FrameKind) (payload : List ℕ) (s : Option SessionId)
    → length payload ≤ varint_max
    → Shape k payload s
    → body_size payload s ≡ done (length (body_bytes payload s))
body_size_lem k payload (some s) h shape = (size-encode _ (Session-IsVarInt k payload s shape)).0
body_size_lem k payload none h shape =
    rw (length_try payload h, (size-encode (length payload) h).0)
      (ap done (sym (length-append_bytes (encode (length payload)) payload)))

-- `write_size` is the number of bytes that `write` writes, for every frame.
pub write_size-wire : (f : Frame) → IsFrame f → write_size f ≡ done (length (wire f))
unfolding write_size wire
write_size-wire f h =
    rw
      (
        get_session_id_lem f h,
        (size-encode (Kind.id f.kind) (id-IsVarInt f.kind h.kind_ok)).0,
        body_size_lem f.kind f.payload f.session_id h.short h.shape,
      )
      (ap done (sym (length-append_bytes (encode (Kind.id f.kind)) _)))

-- Into a vector every frame is written, behind what the vector holds.
pub write_vec :
    (o : Octets) (laws : OctetsLaws o) (f : Frame) (v : List ℕ)
    → IsFrame f
    → write (vec_writer o) f v ≡ done (ok tt, v ++ wire f)
write_vec o laws f v h =
    let (v', put, (grown, _)) =
      (write-Appends (vec_writer o) (vec-WriterLaws o laws) f h).fitting v refl in
    put ∙ ap (λ w. done (ok tt, w)) grown
