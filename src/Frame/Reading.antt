-- ===== src/Frame/Reading.antt =====
-- `Frame::read` on any source that keeps the reader's contract.
use wtransport.Prelude.{
  ℕ, ◌%◌, ◌≤◌, ◌≡◌, refl, ap, arith, false, inl, inr, List, ◌∷◌, ◌++◌, none, some, ok, err, done,
  ◌==◌, if◌then◌else◌, length, split_at, split_at-cases, length-take_le, le→leb, Option-cases,
  Bool-cases, bit_and-one, bit_and-two,
}
use wtransport.VarInt.{VarInt, IsVarInt, varint_max}
use wtransport.Ids.SessionId
use wtransport.Ids.SessionId.{SessionId}
use wtransport.Quic.Encoding.{decode}
use wtransport.Quic.Encoding.Laws.{decode-some}
use wtransport.Bytes.Reader.{BytesReader, ReaderLaws}
use wtransport.Bytes.Reader.Refines.{Refines, Refines-Reads, Refines-bind}
use wtransport.Frame.{
  Frame, invalid_session_id, new, new_webtransport, read_session, read_kind, read_parsed, read,
}
use wtransport.Frame.Kind
use wtransport.Frame.Kind.{
  FrameKind, webtransport, is_webtransport, data_frame, headers, settings, exercise,
}
use wtransport.Frame.Kind.Laws.{IsKind, id-parse}
use wtransport.Frame.Wire.{session_frame, payload_frame, decode_body, decode_frame, IsFrame, wire}
use wtransport.Frame.Wire.RoundTrip.{decode_frame-wire, decode_frame_prefix}

-- `new` builds the frame, and no assertion fails, where the type is one that a frame can have.
pub new_payload :
    (kind : FrameKind) (payload : List ℕ)
    → IsKind kind
    → is_webtransport kind ≡ false
    → length payload ≤ varint_max
    → new kind payload none ≡ done (payload_frame kind payload)
unfolding new
new_payload webtransport payload k e h = cc
new_payload (exercise i) payload k e h = rw (k.0, le→leb _ _ h)
new_payload data_frame payload k e h = rw (le→leb _ _ h)
new_payload headers payload k e h = rw (le→leb _ _ h)
new_payload settings payload k e h = rw (le→leb _ _ h)

module _ {R : Type 0} (reader : BytesReader R) (laws : ReaderLaws reader) where
  open laws use {Valid, unread, get_varint_lem, get_bytes_lem}

  varint_at : (r : R) → Valid r → Refines Valid unread (reader.get_varint r) (decode (unread r))
  varint_at r h = Refines-Reads Valid unread r _ _ h (get_varint_lem r h)

  bytes_at :
      (n : ℕ) (r : R)
      → Valid r
      → Refines Valid unread (reader.get_bytes n r) (split_at n (unread r))
  bytes_at n r h = Refines-Reads Valid unread r _ _ h (get_bytes_lem r n h)

  read_session-Refines :
      (v : VarInt) (r : R)
      → Valid r
      → Refines Valid unread
          (read_session reader (SessionId.try_from_varint v) r)
          (some ((if v % 4 == 0 then ok (session_frame v) else err invalid_session_id), unread r))
  unfolding SessionId.try_from_varint new_webtransport
  read_session-Refines v r h = (r, ground (arith, bit_and-one v, bit_and-two v), refl, h)

  read_kind-Refines :
      (kind : FrameKind) (r : R)
      → IsKind kind
      → Valid r
      → Refines Valid unread (read_kind reader kind r) (decode_body (some kind) (unread r))
  unfolding decode_body read_kind
  read_kind-Refines kind r k h = elim (Bool-cases (is_webtransport kind)) [
    | inl w ↦ rw w (
        Refines-bind Valid unread r reader.get_varint _ (decode (unread r)) _ (varint_at r h)
          λ v r' e h'. read_session-Refines v r' h')
    | inr w ↦ rw w (
        Refines-bind Valid unread r reader.get_varint _ (decode (unread r)) _ (varint_at r h)
          λ n r' e h'.
            Refines-bind Valid unread r' (reader.get_bytes n) _ (split_at n (unread r')) _
              (bytes_at n r' h')
              λ payload r'' cut h''.
                let (long, taken, _) = split_at-cases n (unread r') cut in
                let short : length payload ≤ varint_max = omega (
                  arith,
                  (decode-some (unread r) e).0,
                  ap length taken,
                  length-take_le n (unread r') long,
                ) in
                (r'', rw (new_payload kind payload k w short), refl, h''))
  ]

  parsed-Refines :
      (i : VarInt) (r : R)
      → IsVarInt i
      → Valid r
      → Refines Valid unread
          (read_parsed reader (Kind.parse i) r)
          (decode_body (Kind.parse i) (unread r))
  parsed-Refines i r low h = elim (Option-cases (Kind.parse i)) [
    | inl e ↦ rw e (unfold decode_body read_kind in (r, refl, refl, h))
    | inr (kind, e) ↦ rw e (unfold read_kind in read_kind-Refines kind r (id-parse i low e).1 h)
  ]

  -- On every valid source `read` finds what the format says of its bytes, a frame or an error, and
  -- leaves what follows; where they end too soon it answers `None`; and it never panics.
  pub read-Refines :
      (r : R) → Valid r → Refines Valid unread (read reader r) (decode_frame (unread r))
  unfolding decode_frame read
  read-Refines r h =
      Refines-bind Valid unread r reader.get_varint _ (decode (unread r)) _ (varint_at r h)
        λ i r' e h'. parsed-Refines i r' (omega (arith, (decode-some (unread r) e).0)) h'

  -- Where the unread bytes begin with those of a frame, `read` returns it and leaves what follows.
  pub read-wire :
      (r : R) (f : Frame) (rest : List ℕ)
      → Valid r
      → IsFrame f
      → unread r ≡ wire f ++ rest
      → (r' : R) × (read reader r ≡ done (some (ok f), r')) × (unread r' ≡ rest) × Valid r'
  read-wire r f rest h v e = rw (e, decode_frame-wire f rest v) at (read-Refines r h)

  -- A source that ends inside a frame gives `None`, never an error.
  pub read_prefix :
      (r : R) (f : Frame) (x : ℕ) (back : List ℕ)
      → Valid r
      → IsFrame f
      → wire f ≡ unread r ++ x ∷ back
      → (r' : R) × (read reader r ≡ done (none, r')) × Valid r'
  read_prefix r f x back h v e =
      rw (decode_frame_prefix f x (unread r) back v e) at (read-Refines r h)
