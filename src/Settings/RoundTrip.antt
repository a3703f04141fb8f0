-- ===== src/Settings/RoundTrip.antt =====
-- Settings that were written are read back, and settings that were read can be written.
use wtransport.Prelude.{
  ℕ, ◌≤◌, ◌≡◌, inl, inr, refl, sym, ap, ◌∙◌, arith, false, Bool-cases, true-ne-false, List, [], ◌∷◌,
  ◌++◌, append-nil, append_assoc, Option, none, some, Result, ok, err, done, length,
}
use wtransport.VarInt.{VarInt, IsVarInt, varint_max}
use wtransport.ErrorCode.{ErrorCode}
use wtransport.Quic.Encoding.{encode}
use wtransport.Quic.Encoding.Laws.{decode-encode, decode-some}
use wtransport.Quic.Octets.{Octets, OctetsLaws}
use wtransport.Frame.{Frame}
use wtransport.Frame.Kind.{FrameKind}
use wtransport.Settings.{Settings, get, occupy, store, generate_frame, with_frame}
use wtransport.Settings.Setting.{
  SettingId, ParseError, reserved_setting, unknown_setting, parse, id, same,
}
use wtransport.Settings.Setting.Laws.{
  IsSetting, parse-id, id-parse, id-IsVarInt, same_refl, same-eq,
}
use wtransport.Settings.Pairs.{add, store-add, Pairs, then_collect, collect, cut_short}
use wtransport.Settings.Reading.{with_frame-Pairs, with_frame-collect}
use wtransport.Settings.Writing.{IsSettings, settings_bytes, settings_frame, generate_frame-bytes}

abbrev entries : Settings → List (VarInt × VarInt)
entries [] = []
entries ((k, v) ∷ s) = (id k, v) ∷ entries s

-- No setting of `s` is in `acc`.
abbrev Fresh : Settings → Settings → Type 0
Fresh acc [] = Unit {0}
Fresh acc ((k, v) ∷ s) = (get acc k ≡ none) × Fresh acc s

get_snoc :
    (acc : Settings) (k j : SettingId) (v : VarInt)
    → get acc j ≡ none
    → same k j ≡ false
    → get (acc ++ (k, v) ∷ []) j ≡ none
unfolding get
get_snoc [] k j v h n = rw n
get_snoc ((i, w) ∷ acc) k j v h n = elim (Bool-cases (same i j)) [
  | inl e ↦ cc
  | inr e ↦ rw e (get_snoc acc k j v (rw e at h) n)
]

same_sym : (j k : SettingId) → same j k ≡ false → same k j ≡ false
same_sym j k h = elim (Bool-cases (same k j)) [
  | inl e ↦
      let p = same-eq k j e in
      let q : same j j ≡ false = rw p at h in true-ne-false (sym (same_refl j) ∙ q)
  | inr e ↦ e
]

Fresh-snoc :
    (acc s : Settings) (k : SettingId) (v : VarInt)
    → Fresh acc s
    → get s k ≡ none
    → Fresh (acc ++ (k, v) ∷ []) s
unfolding get
Fresh-snoc acc [] k v h n = tt
Fresh-snoc acc ((j, w) ∷ s) k v h n = elim (Bool-cases (same j k)) [
  | inl e ↦ let p : get ((j, w) ∷ s) k ≡ some w = rw e in let q = sym n ∙ p in cc
  | inr e ↦ (get_snoc acc k j v h.0 (same_sym j k e), Fresh-snoc acc s k v h.1 (rw e at n))
]

collect-entries :
    (s acc : Settings) → IsSettings s → Fresh acc s → collect (entries s) acc ≡ ok (acc ++ s)
unfolding store
collect-entries [] acc h f = ap ok (sym (append-nil acc))
collect-entries ((k, v) ∷ s) acc (hk, hv, new, hs) (free, rest) =
    rw (← store-add acc v (parse (id k)), parse-id k hk, free)
      (collect-entries s (acc ++ (k, v) ∷ []) hs (Fresh-snoc acc s k v rest new)
        ∙ ap ok (append_assoc acc ((k, v) ∷ []) s))

Pairs-settings_bytes : (s : Settings) → IsSettings s → Pairs (settings_bytes s) (entries s) []
Pairs-settings_bytes [] h = refl
Pairs-settings_bytes ((k, v) ∷ s) (hk, hv, _, hs) = (
  encode v ++ settings_bytes s,
  settings_bytes s,
  rw (append_assoc)
      (decode-encode (id k) (encode v ++ settings_bytes s) (omega (arith, id-IsVarInt k hk))),
  decode-encode v (settings_bytes s) (omega arith),
  Pairs-settings_bytes s hs,
)

Fresh-nil : (s : Settings) → Fresh [] s
unfolding get
Fresh-nil [] = tt
Fresh-nil (e ∷ s) = (refl, Fresh-nil s)

module _ (o : Octets) (laws : OctetsLaws o) where
  -- Settings without repetition whose payload is not too long are written to a frame and read back
  -- from it, in whichever order the map iterates.
  pub with_frame-generate_frame :
      (s : Settings)
      → IsSettings s
      → length (settings_bytes s) ≤ varint_max
      → (f : Frame) × (generate_frame o s ≡ done f) × (with_frame o f ≡ done (some (ok s)))
  with_frame-generate_frame s h short = (
    settings_frame s,
    generate_frame-bytes o laws s h short,
    elim (with_frame-Pairs o laws (settings_frame s) (entries s) [] refl (Pairs-settings_bytes s h)
        (inl refl)) [
          | inl (_, e) ↦ e ∙ ap (λ x. done (some x)) (collect-entries s [] h (Fresh-nil s))
          | inr ((more, _), _) ↦ absurd (omega arith)
        ],
  )

IsSettings-snoc :
    (s : Settings) (k : SettingId) (v : VarInt)
    → IsSettings s
    → get s k ≡ none
    → IsSetting k
    → IsVarInt v
    → IsSettings (s ++ (k, v) ∷ [])
unfolding get
IsSettings-snoc [] k v h n hk hv = (hk, hv, refl, tt)
IsSettings-snoc ((j, w) ∷ s) k v (hj, hw, new, hs) n hk hv = elim (Bool-cases (same j k)) [
  | inl e ↦ let p : get ((j, w) ∷ s) k ≡ some w = rw e in let q = sym n ∙ p in cc
  | inr e ↦
      (hj, hw, get_snoc s k j v new (same_sym j k e), IsSettings-snoc s k v hs (rw e at n) hk hv)
]

occupy-IsSettings :
    (s : Settings) (k : SettingId) (v : VarInt) (found : Option VarInt) {t : Settings}
    → get s k ≡ found
    → IsSettings s
    → IsSetting k
    → IsVarInt v
    → occupy s k v found ≡ ok t
    → IsSettings t
occupy-IsSettings s k v none {t} e h hk hv p =
    let q : s ++ (k, v) ∷ [] ≡ t = cc in rw (← q) (IsSettings-snoc s k v h e hk hv)
occupy-IsSettings s k v (some w) e h hk hv p = cc

store-IsSettings :
    (s : Settings) (i v : VarInt) (parsed : Result SettingId ParseError) {t : Settings}
    → parse i ≡ parsed
    → IsSettings s
    → IsVarInt i
    → IsVarInt v
    → store s v parsed ≡ ok t
    → IsSettings t
unfolding store
store-IsSettings s i v (ok k) e h hi hv p =
    occupy-IsSettings s k v (get s k) refl h (id-parse i hi e).1 hv p
store-IsSettings s i v (err unknown_setting) {t} e h hi hv p = let q : s ≡ t = cc in rw (← q) h
store-IsSettings s i v (err reserved_setting) e h hi hv p = cc

collect-IsSettings :
    (bs : List ℕ) (ps : List (VarInt × VarInt)) (tail : List ℕ) (s : Settings) {t : Settings}
    → Pairs bs ps tail
    → IsSettings s
    → collect ps s ≡ ok t
    → IsSettings t
collect-IsSettings bs [] tail s {t} pairs h e = let q : s ≡ t = cc in rw (← q) h
collect-IsSettings bs ((i, v) ∷ ps) tail s {t} (mid, rest, di, dv, pairs) h e =
    stored (add s v (parse i)) refl e λ u hu q. collect-IsSettings rest ps tail u pairs hu q
  where
    stored :
        (x : Result Settings ErrorCode)
        → add s v (parse i) ≡ x
        → then_collect x (collect ps) ≡ ok t
        → ((u : Settings) → IsSettings u → collect ps u ≡ ok t → IsSettings t)
        → IsSettings t
    stored (ok u) p q others =
        others u
          (store-IsSettings s i v (parse i) refl h (omega (arith, (decode-some bs di).0))
            (omega (arith, (decode-some mid dv).0)) (store-add s v (parse i) ∙ p))
          q
    stored (err x) p q others = cc

module _ (o : Octets) (laws : OctetsLaws o) where
  -- The settings that `with_frame` reads from any settings frame are without repetition and without
  -- reserved or unknown ids, so that they can be written again.
  pub with_frame-IsSettings :
      (f : Frame) {s : Settings}
      → f.kind ≡ FrameKind.settings
      → with_frame o f ≡ done (some (ok s))
      → IsSettings s
  with_frame-IsSettings f {s} k e =
      let (ps, tail, pairs, end) = with_frame-collect o laws f k in
      elim end [
        | inl (_, out) ↦
            let p : done (some (collect ps [])) ≡ done (some (ok s)) = sym out ∙ e in
            collect-IsSettings f.payload ps tail [] pairs tt (ground (arith, p))
        | inr (_, out) ↦
            let p : done (some (cut_short (collect ps []))) ≡ done (some (ok s)) = sym out ∙ e in
            cut_is_err (collect ps []) (ground (arith, p))
      ]
    where
      cut_is_err : (x : Result Settings ErrorCode) → cut_short x ≡ ok s → IsSettings s
      cut_is_err (ok t) q = cc
      cut_is_err (err t) q = cc
