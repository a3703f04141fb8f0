-- ===== src/Settings/Pairs.antt =====
-- What a settings payload says, by RFC 9114, section 7.2.4: pairs of varints, in their order.
use wtransport.Prelude.{
  ℕ, zero, suc, ◌<◌, ◌≡◌, ◌⊎◌, inl, inr, refl, arith, List, [], ◌∷◌, none, some, Result, ok, err,
  length, Option-cases, Bool, false, ◌||◌, ◌++◌, if◌then◌else◌, Bool-cases,
}
use wtransport.VarInt.{VarInt}
use wtransport.ErrorCode.{ErrorCode}
use wtransport.Quic.Encoding.{decode}
use wtransport.Quic.Encoding.Laws.{decode-some}
use wtransport.Settings.{Settings, get, occupy, store}
use wtransport.Settings.Setting.{
  SettingId, ParseError, reserved_setting, unknown_setting, parse, same,
}

-- The bytes begin with these pairs, and then `tail` follows.
abbrev pub Pairs : List ℕ → List (VarInt × VarInt) → List ℕ → Type 0
Pairs bs [] tail = bs ≡ tail
Pairs bs ((i, v) ∷ ps) tail =
    (mid : List ℕ) × (rest : List ℕ) × (decode bs ≡ some (i, mid))
    × (decode mid ≡ some (v, rest))
    × Pairs rest ps tail

-- A tail that is not empty and does not hold another pair.
abbrev pub CutOff : List ℕ → Type 0
CutOff tail =
    (0 < length tail)
    × ((decode tail ≡ none)
        ⊎ ((i : VarInt) × (mid : List ℕ) × (decode tail ≡ some (i, mid)) × (decode mid ≡ none)))

abbrev pub then_collect :
    Result Settings ErrorCode → (Settings → Result Settings ErrorCode) → Result Settings ErrorCode
then_collect (ok s) next = next s
then_collect (err e) next = err e

abbrev pub listed : SettingId → Settings → Bool
listed k [] = false
listed k ((j, w) ∷ s) = same j k || listed k s

-- A known setting may come once, an unknown one is passed over, and a reserved one may not come.
abbrev pub add : Settings → VarInt → Result SettingId ParseError → Result Settings ErrorCode
add s v (ok k) = if listed k s then err ErrorCode.settings else ok (s ++ (k, v) ∷ [])
add s v (err unknown_setting) = ok s
add s v (err reserved_setting) = err ErrorCode.settings

-- The settings of the pairs, or the first error among them: a reserved or a repeated setting.
abbrev pub collect : List (VarInt × VarInt) → Settings → Result Settings ErrorCode
collect [] s = ok s
collect ((i, v) ∷ ps) s = then_collect (add s v (parse i)) (collect ps)

-- Pairs that end in a cut-off tail are at best a frame error.
abbrev pub cut_short : Result Settings ErrorCode → Result Settings ErrorCode
cut_short (ok s) = err ErrorCode.frame
cut_short (err e) = err e

-- Every payload is pairs and what is left of it.
pub payload-Pairs :
    (fuel : ℕ) (bs : List ℕ)
    → length bs < fuel
    → (ps : List (VarInt × VarInt)) × (tail : List ℕ) × Pairs bs ps tail
      × ((tail ≡ []) ⊎ CutOff tail)
payload-Pairs zero bs h = absurd (omega arith)
payload-Pairs (suc fuel) [] h = ([], [], refl, inl refl)
payload-Pairs (suc fuel) (b ∷ bs) h = elim (Option-cases (decode (b ∷ bs))) [
  | inl e ↦ ([], b ∷ bs, refl, inr (omega arith, inl e))
  | inr ((i, mid), e) ↦ elim (Option-cases (decode mid)) [
    | inl d ↦ ([], b ∷ bs, refl, inr (omega arith, inr (i, mid, e, d)))
    | inr ((v, rest), d) ↦
        let (_, less, _) = decode-some (b ∷ bs) e in
        let (_, fewer, _) = decode-some mid d in
        let (ps, tail, pairs, end) = payload-Pairs fuel rest (omega arith) in
        ((i, v) ∷ ps, tail, (mid, rest, e, d, pairs), end)
  ]
]

occupy-listed :
    (t s : Settings) (k : SettingId) (v : VarInt)
    → occupy t k v (get s k)
      ≡ (if listed k s then err ErrorCode.settings else ok (t ++ (k, v) ∷ []))
unfolding get
occupy-listed t [] k v = refl
occupy-listed t ((j, w) ∷ s) k v = elim (Bool-cases (same j k)) [
  | inl e ↦ rw e
  | inr e ↦ rw e (occupy-listed t s k v)
]

-- The code's lookup in the map comes to the same.
pub store-add :
    (s : Settings) (v : VarInt) (x : Result SettingId ParseError) → store s v x ≡ add s v x
unfolding store
store-add s v (ok k) = occupy-listed s s k v
store-add s v (err unknown_setting) = refl
store-add s v (err reserved_setting) = refl
