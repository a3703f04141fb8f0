-- ===== src/Frame/Wire/RoundTrip.antt =====
-- The bytes of a frame decode to that frame, and whatever decodes is a frame.
use wtransport.Prelude.{
  false, ℕ, ◌%◌, ◌^◌, ◌≤◌, ◌<◌, ◌≡◌, refl, ap, arith, inl, inr, List, [], ◌∷◌, ◌++◌, append_assoc,
  append-nil, Option, none, some, Result, ok, err, ◌==◌, if◌then◌else◌, length, split_at,
  split_at-append, split_at-cases, length-append_bytes, length-take_le, Option-cases, Bool-cases,
}
use wtransport.VarInt.{IsVarInt, varint_max}
use wtransport.Ids.SessionId.{SessionId}
use wtransport.Quic.Encoding.{encode, decode}
use wtransport.Quic.Encoding.Laws.{decode-encode, decode-some}
use wtransport.Bytes.Reader.Decoded.{
  Ensures, Ensures-then, Grows, Grows-then, Grows-some, decode-Grows, split_at-Grows,
}
use wtransport.Frame.{Frame, FrameReadError, invalid_session_id}
use wtransport.Frame.Kind
use wtransport.Frame.Kind.{
  FrameKind, webtransport, is_webtransport, data_frame, headers, settings, exercise,
}
use wtransport.Frame.Kind.Laws.{IsKind, parse-id, id-IsVarInt, id-parse}
use wtransport.Frame.Wire.{
  session_frame, payload_frame, decode_body, decode_frame, Shape, IsFrame, body_bytes, wire,
}

decode_body-payload :
    (kind : FrameKind) (payload rest : List ℕ)
    → is_webtransport kind ≡ false
    → length payload ≤ varint_max
    → decode_body (some kind) (encode (length payload) ++ (payload ++ rest))
      ≡ some (ok (payload_frame kind payload), rest)
unfolding decode_body
decode_body-payload kind payload rest k h = rw (
  k,
  decode-encode (length payload) (payload ++ rest) (omega arith),
  split_at-append payload rest,
)

decode_body-session :
    (v : ℕ) (rest : List ℕ)
    → IsVarInt v
    → v % 4 ≡ 0
    → decode_body (some webtransport) (encode v ++ rest) ≡ some (ok (session_frame v), rest)
unfolding decode_body
decode_body-session v rest h q = rw (decode-encode v rest (omega arith), q)

-- The body of a frame decodes, whatever its type.
decode_body-bytes :
    (kind : FrameKind) (payload : List ℕ) (session_id : Option SessionId) (rest : List ℕ)
    → length payload ≤ varint_max
    → Shape kind payload session_id
    → decode_body (some kind) (body_bytes payload session_id ++ rest)
      ≡ some (ok (record { kind = kind; payload = payload; session_id = session_id }), rest)
decode_body-bytes webtransport payload session_id rest h (empty, (s, e, v)) =
    rw (e, empty) (decode_body-session s.session_stream.varint rest v.in_range v.quarter)
decode_body-bytes data_frame payload session_id rest h e =
    rw (e, append_assoc) (decode_body-payload data_frame payload rest refl h)
decode_body-bytes headers payload session_id rest h e =
    rw (e, append_assoc) (decode_body-payload headers payload rest refl h)
decode_body-bytes settings payload session_id rest h e =
    rw (e, append_assoc) (decode_body-payload settings payload rest refl h)
decode_body-bytes (exercise i) payload session_id rest h e =
    rw (e, append_assoc) (decode_body-payload (exercise i) payload rest refl h)

-- The bytes of a frame decode to it, whatever follows.
pub decode_frame-wire :
    (f : Frame) (rest : List ℕ) → IsFrame f → decode_frame (wire f ++ rest) ≡ some (ok f, rest)
unfolding decode_frame wire
decode_frame-wire f rest v =
    rw
      (
        append_assoc,
        decode-encode (Kind.id f.kind) _ (omega (arith, id-IsVarInt f.kind v.kind_ok)),
        parse-id f.kind v.kind_ok,
      )
      (decode_body-bytes f.kind f.payload f.session_id rest v.short v.shape)

-- What `decode_frame` answers: a frame, or an error.
abbrev pub Sound : Result Frame FrameReadError → Type 0
Sound (ok f) = IsFrame f
Sound (err e) = Unit {0}

payload-IsFrame :
    (kind : FrameKind) (payload : List ℕ)
    → IsKind kind
    → is_webtransport kind ≡ false
    → length payload ≤ varint_max
    → IsFrame (payload_frame kind payload)
payload-IsFrame webtransport payload k e h = cc
payload-IsFrame data_frame payload k e h = record { kind_ok = k; short = h; shape = refl }
payload-IsFrame headers payload k e h = record { kind_ok = k; short = h; shape = refl }
payload-IsFrame settings payload k e h = record { kind_ok = k; short = h; shape = refl }
payload-IsFrame (exercise i) payload k e h = record { kind_ok = k; short = h; shape = refl }

session-Sound :
    (v : ℕ)
    → v < 2 ^ 62
    → Sound (if v % 4 == 0 then ok (session_frame v) else err invalid_session_id)
session-Sound v h = elim (Bool-cases (v % 4 == 0)) [
  | inl q ↦ rw q (record {
    kind_ok = tt;
    short = omega arith;
    shape = (refl, (_, refl, record { in_range = omega arith; quarter = ground arith }));
  })
  | inr q ↦ rw q tt
]

decode_body-Sound :
    (kind : FrameKind) (bs : List ℕ)
    → IsKind kind
    → Ensures (λ x _. Sound x) (decode_body (some kind) bs)
unfolding decode_body
decode_body-Sound kind bs k = elim (Bool-cases (is_webtransport kind)) [
  | inl w ↦ rw w (Ensures-then _ (decode bs) _ λ v rest e. session-Sound v (decode-some bs e).0)
  | inr w ↦ rw w (
      Ensures-then _ (decode bs) _ λ n rest e.
        Ensures-then _ (split_at n rest) _ λ payload rest' cut.
          let (long, taken, _) = split_at-cases n rest cut in
          payload-IsFrame kind payload k w
            (omega (arith, (decode-some bs e).0, ap length taken, length-take_le n rest long)))
]

parsed-Sound :
    (i : ℕ) (bs : List ℕ) → IsVarInt i → Ensures (λ x _. Sound x) (decode_body (Kind.parse i) bs)
parsed-Sound i bs h = elim (Option-cases (Kind.parse i)) [
  | inl e ↦ rw e (unfold decode_body in tt)
  | inr (kind, e) ↦ rw e (decode_body-Sound kind bs (id-parse i h e).1)
]

-- Whatever decodes is a frame.
pub decode_frame-Sound : (bs : List ℕ) → Ensures (λ x _. Sound x) (decode_frame bs)
unfolding decode_frame
decode_frame-Sound bs =
    Ensures-then _ (decode bs) _
      λ i rest e. parsed-Sound i rest (omega (arith, (decode-some bs e).0))

decode_body-Grows :
    (kind : Option FrameKind) (bs more : List ℕ)
    → Grows more (decode_body kind bs) (decode_body kind (bs ++ more))
unfolding decode_body
decode_body-Grows none bs more = refl
decode_body-Grows (some kind) bs more = elim (Bool-cases (is_webtransport kind)) [
  | inl w ↦ rw w (Grows-then more (decode bs) _ _ (decode-Grows bs more) λ v rest. refl)
  | inr w ↦ rw w (
      Grows-then more (decode bs) _ _ (decode-Grows bs more) λ n rest.
        Grows-then more (split_at n rest) _ _ (split_at-Grows n rest more) λ payload rest'. refl)
]

-- A frame that is complete decodes alike with more input behind it.
pub decode_frame-Grows :
    (bs more : List ℕ) → Grows more (decode_frame bs) (decode_frame (bs ++ more))
unfolding decode_frame
decode_frame-Grows bs more =
    Grows-then more (decode bs) _ _ (decode-Grows bs more)
      λ i rest. decode_body-Grows (Kind.parse i) rest more

-- No proper prefix of a frame's bytes decodes, not to an error either.
pub decode_frame_prefix :
    (f : Frame) (x : ℕ) (front back : List ℕ)
    → IsFrame f
    → wire f ≡ front ++ x ∷ back
    → decode_frame front ≡ none
decode_frame_prefix f x front back h e = elim (Option-cases (decode_frame front)) [
  | inl short ↦ short
  | inr ((found, rest), d) ↦ ground (
    arith,
    Grows-some (x ∷ back) _ _ (decode_frame-Grows front (x ∷ back)) d,
    rw (append-nil, e) at (decode_frame-wire f [] h),
    length-append_bytes rest (x ∷ back),
  )
]
