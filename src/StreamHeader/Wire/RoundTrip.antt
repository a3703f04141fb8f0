-- ===== src/StreamHeader/Wire/RoundTrip.antt =====
-- The bytes of a header decode to that header, and whatever decodes is a header.
use wtransport.Prelude.{
  ℕ, ◌%◌, ◌^◌, ◌<◌, ◌≡◌, refl, arith, false, inl, inr, List, [], ◌∷◌, ◌++◌, append_assoc,
  append-nil, Option, none, some, Result, ok, err, ◌==◌, if◌then◌else◌, length-append_bytes,
  Option-cases, Bool-cases,
}
use wtransport.VarInt.{IsVarInt}
use wtransport.Ids.SessionId.{SessionId}
use wtransport.Quic.Encoding.{encode, decode}
use wtransport.Quic.Encoding.Laws.{decode-encode, decode-some}
use wtransport.Bytes.Reader.Decoded.{
  Ensures, Ensures-then, Grows, Grows-then, Grows-some, decode-Grows,
}
use wtransport.StreamHeader.{StreamHeader, StreamHeaderReadError, invalid_session_id}
use wtransport.StreamHeader.Kind
use wtransport.StreamHeader.Kind.{
  StreamKind, control, qpack_encoder, qpack_decoder, webtransport, exercise, is_webtransport,
}
use wtransport.StreamHeader.Kind.Laws.{IsKind, parse-id, id-IsVarInt, id-parse}
use wtransport.StreamHeader.Wire.{
  session_header, plain_header, decode_rest, decode_header, Shape, IsHeader, session_bytes, wire,
}

decode_rest-session :
    (v : ℕ) (rest : List ℕ)
    → IsVarInt v
    → v % 4 ≡ 0
    → decode_rest (some webtransport) (encode v ++ rest) ≡ some (ok (session_header v), rest)
unfolding decode_rest
decode_rest-session v rest h q = rw (decode-encode v rest (omega arith), q)

decode_rest-bytes :
    (kind : StreamKind) (session_id : Option SessionId) (rest : List ℕ)
    → Shape kind session_id
    → decode_rest (some kind) (session_bytes session_id ++ rest)
      ≡ some (ok (record { kind = kind; session_id = session_id }), rest)
decode_rest-bytes webtransport session_id rest (s, e, v) =
    rw e (decode_rest-session s.session_stream.varint rest v.in_range v.quarter)
decode_rest-bytes control session_id rest e = unfold decode_rest in rw e
decode_rest-bytes qpack_encoder session_id rest e = unfold decode_rest in rw e
decode_rest-bytes qpack_decoder session_id rest e = unfold decode_rest in rw e
decode_rest-bytes (exercise i) session_id rest e = unfold decode_rest in rw e

-- The bytes of a header decode to it, whatever follows.
pub decode_header-wire :
    (h : StreamHeader) (rest : List ℕ)
    → IsHeader h
    → decode_header (wire h ++ rest) ≡ some (ok h, rest)
unfolding decode_header wire
decode_header-wire h rest v =
    rw
      (
        append_assoc,
        decode-encode (Kind.id h.kind) _ (omega (arith, id-IsVarInt h.kind v.kind_ok)),
        parse-id h.kind v.kind_ok,
      )
      (decode_rest-bytes h.kind h.session_id rest v.shape)

abbrev pub Sound : Result StreamHeader StreamHeaderReadError → Type 0
Sound (ok h) = IsHeader h
Sound (err e) = Unit {0}

plain-IsHeader :
    (kind : StreamKind) → IsKind kind → is_webtransport kind ≡ false → IsHeader (plain_header kind)
plain-IsHeader webtransport k e = cc
plain-IsHeader control k e = record { kind_ok = k; shape = refl }
plain-IsHeader qpack_encoder k e = record { kind_ok = k; shape = refl }
plain-IsHeader qpack_decoder k e = record { kind_ok = k; shape = refl }
plain-IsHeader (exercise i) k e = record { kind_ok = k; shape = refl }

session-Sound :
    (v : ℕ)
    → v < 2 ^ 62
    → Sound (if v % 4 == 0 then ok (session_header v) else err invalid_session_id)
session-Sound v h = elim (Bool-cases (v % 4 == 0)) [
  | inl q ↦ rw q (record {
    kind_ok = tt;
    shape = (_, refl, record { in_range = omega arith; quarter = ground arith });
  })
  | inr q ↦ rw q tt
]

decode_rest-Sound :
    (kind : StreamKind) (bs : List ℕ)
    → IsKind kind
    → Ensures (λ x _. Sound x) (decode_rest (some kind) bs)
unfolding decode_rest
decode_rest-Sound kind bs k = elim (Bool-cases (is_webtransport kind)) [
  | inl w ↦ rw w (Ensures-then _ (decode bs) _ λ v rest e. session-Sound v (decode-some bs e).0)
  | inr w ↦ rw w (plain-IsHeader kind k w)
]

parsed-Sound :
    (i : ℕ) (bs : List ℕ) → IsVarInt i → Ensures (λ x _. Sound x) (decode_rest (Kind.parse i) bs)
parsed-Sound i bs h = elim (Option-cases (Kind.parse i)) [
  | inl e ↦ rw e (unfold decode_rest in tt)
  | inr (kind, e) ↦ rw e (decode_rest-Sound kind bs (id-parse i h e).1)
]

-- Whatever decodes is a header.
pub decode_header-Sound : (bs : List ℕ) → Ensures (λ x _. Sound x) (decode_header bs)
unfolding decode_header
decode_header-Sound bs =
    Ensures-then _ (decode bs) _
      λ i rest e. parsed-Sound i rest (omega (arith, (decode-some bs e).0))

decode_rest-Grows :
    (kind : Option StreamKind) (bs more : List ℕ)
    → Grows more (decode_rest kind bs) (decode_rest kind (bs ++ more))
unfolding decode_rest
decode_rest-Grows none bs more = refl
decode_rest-Grows (some kind) bs more = elim (Bool-cases (is_webtransport kind)) [
  | inl w ↦ rw w (Grows-then more (decode bs) _ _ (decode-Grows bs more) λ v rest. refl)
  | inr w ↦ rw w
]

decode_header-Grows :
    (bs more : List ℕ) → Grows more (decode_header bs) (decode_header (bs ++ more))
unfolding decode_header
decode_header-Grows bs more =
    Grows-then more (decode bs) _ _ (decode-Grows bs more)
      λ i rest. decode_rest-Grows (Kind.parse i) rest more

-- No proper prefix of a header's bytes decodes.
pub decode_header_prefix :
    (h : StreamHeader) (x : ℕ) (front back : List ℕ)
    → IsHeader h
    → wire h ≡ front ++ x ∷ back
    → decode_header front ≡ none
decode_header_prefix h x front back v e = elim (Option-cases (decode_header front)) [
  | inl short ↦ short
  | inr ((found, rest), d) ↦ ground (
    arith,
    Grows-some (x ∷ back) _ _ (decode_header-Grows front (x ∷ back)) d,
    rw (append-nil, e) at (decode_header-wire h [] v),
    length-append_bytes rest (x ∷ back),
  )
]
