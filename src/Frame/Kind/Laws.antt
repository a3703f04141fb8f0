-- ===== src/Frame/Kind/Laws.antt =====
-- Ids and types of frames stand for each other.
use wtransport.Prelude.{
  ℕ, ◌+◌, ◌-◌, ◌*◌, ◌/◌, ◌%◌, ◌≡◌, ◌↔◌, refl, arith, true, ◌&&◌, some, leb, ◌==◌,
}
use wtransport.VarInt.{VarInt, IsVarInt}
use wtransport.Frame.Kind.{
  FrameKind, data_frame, headers, settings, webtransport, exercise, is_id_exercise, parse, id,
}

-- The types that a frame can have: an exercise id is a varint of the reserved form.
abbrev pub IsKind : FrameKind → Type 0
IsKind (exercise i) = (is_id_exercise i ≡ true) × IsVarInt i
IsKind _ = Unit {0}

-- The reserved ids of RFC 9114, section 7.2.8: 0x1f * n + 0x21.
pub is_id_exercise_iff :
    (i : VarInt) → (is_id_exercise i ≡ true) ↔ ((n : ℕ) × (i ≡ 0x1f * n + 0x21))
unfolding is_id_exercise
is_id_exercise_iff i = (λ h. ((i - 0x21) / 0x1f, ground arith), λ (n, e). rw e (reserved n))
  where
    reserved :
        (n : ℕ) → (leb 0x21 (0x1f * n + 0x21) && (((0x1f * n + 0x21) - 0x21) % 0x1f == 0)) ≡ true
    reserved n = ground arith

-- The id of a type parses back to it.
pub parse-id : (k : FrameKind) → IsKind k → parse (id k) ≡ some k
unfolding parse id
parse-id data_frame h = refl
parse-id headers h = refl
parse-id settings h = refl
parse-id webtransport h = refl
parse-id (exercise i) h = ground arith

pub id-IsVarInt : (k : FrameKind) → IsKind k → IsVarInt (id k)
unfolding id
id-IsVarInt (exercise i) h = h.1
id-IsVarInt _ h = omega arith

-- An id that parses is the id of the type it parses to, which a frame can have.
pub id-parse : (i : VarInt) {k : FrameKind} → IsVarInt i → parse i ≡ some k → (id k ≡ i) × IsKind k
unfolding parse id
id-parse i {k = data_frame} h e = ground arith
id-parse i {k = headers} h e = ground arith
id-parse i {k = settings} h e = ground arith
id-parse i {k = webtransport} h e = ground arith
id-parse i {k = exercise j} h e = ground arith
