-- ===== src/StreamHeader/Kind/Laws.antt =====
-- Ids and types of streams stand for each other.
use wtransport.Prelude.{
  ℕ, ◌+◌, ◌-◌, ◌*◌, ◌/◌, ◌%◌, ◌≡◌, ◌↔◌, refl, arith, true, ◌&&◌, some, leb, ◌==◌,
}
use wtransport.VarInt.{VarInt, IsVarInt}
use wtransport.StreamHeader.Kind.{
  StreamKind, control, qpack_encoder, qpack_decoder, webtransport, exercise, is_id_exercise, parse,
  id,
}

-- The types that a header can have: an exercise id is a varint of the reserved form.
abbrev pub IsKind : StreamKind → Type 0
IsKind (exercise i) = (is_id_exercise i ≡ true) × IsVarInt i
IsKind _ = Unit {0}

-- The reserved ids of RFC 9114, section 6.2.3: 0x1f * n + 0x21.
pub is_id_exercise_iff :
    (i : VarInt) → (is_id_exercise i ≡ true) ↔ ((n : ℕ) × (i ≡ 0x1f * n + 0x21))
unfolding is_id_exercise
is_id_exercise_iff i = (λ h. ((i - 0x21) / 0x1f, ground arith), λ (n, e). rw e (reserved n))
  where
    reserved :
        (n : ℕ) → (leb 0x21 (0x1f * n + 0x21) && (((0x1f * n + 0x21) - 0x21) % 0x1f == 0)) ≡ true
    reserved n = ground arith

-- The id of a type parses back to it.
pub parse-id : (k : StreamKind) → IsKind k → parse (id k) ≡ some k
unfolding parse id
parse-id control h = refl
parse-id qpack_encoder h = refl
parse-id qpack_decoder h = refl
parse-id webtransport h = refl
parse-id (exercise i) h = ground arith

pub id-IsVarInt : (k : StreamKind) → IsKind k → IsVarInt (id k)
unfolding id
id-IsVarInt (exercise i) h = h.1
id-IsVarInt _ h = omega arith

-- An id that parses is the id of the type it parses to, which a header can have.
pub id-parse : (i : VarInt) {k : StreamKind} → IsVarInt i → parse i ≡ some k → (id k ≡ i) × IsKind k
unfolding parse id
id-parse i {k = control} h e = ground arith
id-parse i {k = qpack_encoder} h e = ground arith
id-parse i {k = qpack_decoder} h e = ground arith
id-parse i {k = webtransport} h e = ground arith
id-parse i {k = exercise j} h e = ground arith
