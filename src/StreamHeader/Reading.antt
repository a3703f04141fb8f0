-- ===== src/StreamHeader/Reading.antt =====
-- `StreamHeader::read` on any source that keeps the reader's contract.
use wtransport.Prelude.{
  ℕ, ◌%◌, ◌≡◌, refl, arith, true, false, inl, inr, List, ◌∷◌, ◌++◌, none, some, ok, err, done, ◌==◌,
  if◌then◌else◌, Option-cases, Bool-cases, true-ne-false, sym, bit_and-one, bit_and-two,
}
use wtransport.VarInt.{VarInt, IsVarInt}
use wtransport.Ids.SessionId
use wtransport.Quic.Encoding.{decode}
use wtransport.Quic.Encoding.Laws.{decode-some}
use wtransport.Bytes.Reader.{BytesReader, ReaderLaws}
use wtransport.Bytes.Reader.Refines.{Refines, Refines-Reads, Refines-bind}
use wtransport.StreamHeader.{
  StreamHeader, invalid_session_id, new, read_session, read_kind, read_parsed, read,
}
use wtransport.StreamHeader.Kind
use wtransport.StreamHeader.Kind.{
  StreamKind, control, qpack_encoder, qpack_decoder, webtransport, exercise, is_webtransport,
}
use wtransport.StreamHeader.Kind.Laws.{IsKind, id-parse}
use wtransport.StreamHeader.Wire.{
  session_header, plain_header, decode_rest, decode_header, IsHeader, wire,
}
use wtransport.StreamHeader.Wire.RoundTrip.{decode_header-wire, decode_header_prefix}

-- `new` builds the header, and no assertion fails, where the type is one that a header can have.
pub new_plain :
    (kind : StreamKind)
    → IsKind kind
    → is_webtransport kind ≡ false
    → new kind none ≡ done (plain_header kind)
unfolding new
new_plain webtransport k e = cc
new_plain (exercise i) k e = rw (k.0)
new_plain control k e = refl
new_plain qpack_encoder k e = refl
new_plain qpack_decoder k e = refl

module _ {R : Type 0} (reader : BytesReader R) (laws : ReaderLaws reader) where
  open laws use {Valid, unread, get_varint_lem, get_bytes_lem}

  varint_at : (r : R) → Valid r → Refines Valid unread (reader.get_varint r) (decode (unread r))
  varint_at r h = Refines-Reads Valid unread r _ _ h (get_varint_lem r h)

  read_session-Refines :
      (kind : StreamKind) (v : VarInt) (r : R)
      → is_webtransport kind ≡ true
      → Valid r
      → Refines Valid unread
          (read_session reader kind (SessionId.try_from_varint v) r)
          (some ((if v % 4 == 0 then ok (session_header v) else err invalid_session_id), unread r))
  unfolding SessionId.try_from_varint new
  read_session-Refines webtransport v r w h =
      (r, ground (arith, bit_and-one v, bit_and-two v), refl, h)
  read_session-Refines control v r w h = true-ne-false (sym w)
  read_session-Refines qpack_encoder v r w h = true-ne-false (sym w)
  read_session-Refines qpack_decoder v r w h = true-ne-false (sym w)
  read_session-Refines (exercise i) v r w h = true-ne-false (sym w)

  read_kind-Refines :
      (kind : StreamKind) (r : R)
      → IsKind kind
      → Valid r
      → Refines Valid unread (read_kind reader kind r) (decode_rest (some kind) (unread r))
  unfolding decode_rest read_kind
  read_kind-Refines kind r k h = elim (Bool-cases (is_webtransport kind)) [
    | inl w ↦ rw w (
        Refines-bind Valid unread r reader.get_varint _ (decode (unread r)) _ (varint_at r h)
          λ v r' e h'. read_session-Refines kind v r' w h')
    | inr w ↦ rw w (r, rw (new_plain kind k w), refl, h)
  ]

  parsed-Refines :
      (i : VarInt) (r : R)
      → IsVarInt i
      → Valid r
      → Refines Valid unread
          (read_parsed reader (Kind.parse i) r)
          (decode_rest (Kind.parse i) (unread r))
  parsed-Refines i r low h = elim (Option-cases (Kind.parse i)) [
    | inl e ↦ rw e (unfold decode_rest read_kind in (r, refl, refl, h))
    | inr (kind, e) ↦ rw e (unfold read_kind in read_kind-Refines kind r (id-parse i low e).1 h)
  ]

  -- On every valid source `read` finds what the format says of its bytes, a header or an error, and
  -- leaves what follows; where they end too soon it answers `None`; and it never panics.
  pub read_header-Refines :
      (r : R) → Valid r → Refines Valid unread (read reader r) (decode_header (unread r))
  unfolding decode_header read
  read_header-Refines r h =
      Refines-bind Valid unread r reader.get_varint _ (decode (unread r)) _ (varint_at r h)
        λ i r' e h'. parsed-Refines i r' (omega (arith, (decode-some (unread r) e).0)) h'

  -- Where the unread bytes begin with those of a header, `read` returns it and leaves what follows.
  pub read_header-wire :
      (r : R) (f : StreamHeader) (rest : List ℕ)
      → Valid r
      → IsHeader f
      → unread r ≡ wire f ++ rest
      → (r' : R) × (read reader r ≡ done (some (ok f), r')) × (unread r' ≡ rest) × Valid r'
  read_header-wire r f rest h v e = rw (e, decode_header-wire f rest v) at (read_header-Refines r h)

  -- A source that ends inside a header gives `None`, never an error.
  pub read_header_prefix :
      (r : R) (f : StreamHeader) (x : ℕ) (back : List ℕ)
      → Valid r
      → IsHeader f
      → wire f ≡ unread r ++ x ∷ back
      → (r' : R) × (read reader r ≡ done (none, r')) × Valid r'
  read_header_prefix r f x back h v e =
      rw (decode_header_prefix f x (unread r) back v e) at (read_header-Refines r h)
