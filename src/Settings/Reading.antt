-- ===== src/Settings/Reading.antt =====
-- `Settings::with_frame` on every payload.
use wtransport.Prelude.{
  ℕ, zero, suc, ◌<◌, ◌≡◌, ◌⊎◌, inl, inr, refl, sym, ap, ◌∙◌, arith, true, List, [], ◌∷◌, none, some,
  Result, ok, err, done, bind, length, ltb, lt→ltb,
}
use wtransport.VarInt.{VarInt}
use wtransport.ErrorCode.{ErrorCode}
use wtransport.Quic.Encoding.{decode}
use wtransport.Quic.Encoding.Laws.{decode-some}
use wtransport.Quic.Octets.{Octets, OctetsLaws, unread}
use wtransport.Bytes.Buffer
use wtransport.Bytes.Buffer.Laws.{buffer-get_varint, length-unread}
use wtransport.Frame.{Frame}
use wtransport.Frame.Kind.{FrameKind}
use wtransport.Settings.{Settings, store, needed, go_on, read_settings, with_frame, Loop}
use wtransport.Settings.Setting.{parse}
use wtransport.Settings.Pairs.{
  add, store-add, Pairs, CutOff, then_collect, collect, cut_short, payload-Pairs,
}

module _ (o : Octets) (laws : OctetsLaws o) where
  -- One turn of the loop.
  abbrev turn : ℕ → Settings → o.Reader → Loop
  turn fuel s r = bind (Buffer.get_varint o r) (
      needed o λ i r₁.
        bind (Buffer.get_varint o r₁) (
          needed o
            λ value r₂. go_on o (λ s'. read_settings o fuel s' r₂) (store s value (parse i))))

  turn_lem :
      (fuel : ℕ) (s : Settings) (r : o.Reader)
      → 0 < length (unread o r)
      → read_settings o (suc fuel) s r ≡ turn fuel s r
  unfolding read_settings Buffer.capacity
  turn_lem fuel s r h =
      let more : ltb 0 (o.cap r) ≡ true =
        lt→ltb 0 (o.cap r) (omega (arith, length-unread o laws r)) in
      rw (more, read_settings)

  stop_lem :
      (fuel : ℕ) (s : Settings) (r : o.Reader)
      → unread o r ≡ []
      → read_settings o (suc fuel) s r ≡ done (some (ok s))
  unfolding read_settings Buffer.capacity
  stop_lem fuel s r h =
      let empty : o.cap r ≡ 0 = sym (length-unread o laws r) ∙ ap length h in
      rw (empty, read_settings)

  -- A varint is read, or is missing.
  found :
      (r : o.Reader) (next : VarInt → o.Reader → Loop) {v : VarInt} {rest : List ℕ}
      → decode (unread o r) ≡ some (v, rest)
      → (r' : o.Reader) × (bind (Buffer.get_varint o r) (needed o next) ≡ next v r')
        × (unread o r' ≡ rest)
  found r next e =
      let (r', read, left, _) = rw e at (buffer-get_varint o laws (o.buf r) r refl) in
      (r', rw read, left)

  missing :
      (r : o.Reader) (next : VarInt → o.Reader → Loop)
      → decode (unread o r) ≡ none
      → bind (Buffer.get_varint o r) (needed o next) ≡ done (some (err ErrorCode.frame))
  missing r next e = let read = rw e at (buffer-get_varint o laws (o.buf r) r refl) in rw read

  read_settings-CutOff :
      (fuel : ℕ) (s : Settings) (r : o.Reader)
      → CutOff (unread o r)
      → read_settings o (suc fuel) s r ≡ done (some (err ErrorCode.frame))
  read_settings-CutOff fuel s r (more, inl e) = turn_lem fuel s r more ∙ missing r _ e
  read_settings-CutOff fuel s r (more, inr (i, mid, e, d)) =
      let (r₁, step, left) = found r _ e in
      turn_lem fuel s r more ∙ step ∙ missing r₁ _ (ap decode left ∙ d)

  abbrev pub Ends : List ℕ → Loop → Result Settings ErrorCode → Type 0
  Ends tail out result =
      ((tail ≡ []) × (out ≡ done (some result)))
      ⊎ (CutOff tail × (out ≡ done (some (cut_short result))))

  stored :
      (fuel : ℕ) (ps : List (VarInt × VarInt)) (tail : List ℕ) (r : o.Reader)
      (x : Result Settings ErrorCode)
      → ((tail ≡ []) ⊎ CutOff tail)
      → ((s : Settings) → Ends tail (read_settings o fuel s r) (collect ps s))
      → Ends tail (go_on o (λ s. read_settings o fuel s r) x) (then_collect x (collect ps))
  stored fuel ps tail r (ok s) end h = h s
  stored fuel ps tail r (err e) (inl empty) h = inl (empty, refl)
  stored fuel ps tail r (err e) (inr cut) h = inr (cut, refl)

  read_settings-collect :
      (fuel : ℕ) (ps : List (VarInt × VarInt)) (tail : List ℕ) (s : Settings) (r : o.Reader)
      → Pairs (unread o r) ps tail
      → ((tail ≡ []) ⊎ CutOff tail)
      → length (unread o r) < fuel
      → Ends tail (read_settings o fuel s r) (collect ps s)
  read_settings-collect zero ps tail s r e end h = absurd (omega arith)
  read_settings-collect (suc fuel) [] tail s r e (inl empty) h =
      inl (empty, stop_lem fuel s r (e ∙ empty))
  read_settings-collect (suc fuel) [] tail s r e (inr cut) h =
      inr (cut, read_settings-CutOff fuel s r (rw e cut))
  read_settings-collect (suc fuel) ((i, v) ∷ ps) tail s r (mid, rest, e, d, pairs) end h =
      let (_, less, _) = decode-some (unread o r) e in
      let (_, fewer, _) = decode-some mid d in
      let (r₁, one, left₁) = found r _ e in
      let (r₂, two, left₂) = found r₁ _ (ap decode left₁ ∙ d) in
      let steps = turn_lem fuel s r (omega arith) ∙ one ∙ two in
      rw (steps, store-add s v (parse i))
        (stored fuel ps tail r₂ (add s v (parse i)) end λ s'.
          read_settings-collect fuel ps tail s' r₂ (rw left₂ pairs) end
            (omega (arith, ap length left₂)))

  pub with_frame-Pairs :
      (f : Frame) (ps : List (VarInt × VarInt)) (tail : List ℕ)
      → f.kind ≡ FrameKind.settings
      → Pairs f.payload ps tail
      → ((tail ≡ []) ⊎ CutOff tail)
      → Ends tail (with_frame o f) (collect ps [])
  unfolding with_frame Buffer.new
  with_frame-Pairs f ps tail k pairs end =
      let r = o.with_slice f.payload in
      let start : unread o r ≡ f.payload =
        rw (laws.buf-with_slice f.payload, laws.off-with_slice f.payload) in
      rw k (
        read_settings-collect (suc (length f.payload)) ps tail [] r (rw start pairs) end
          (omega (arith, ap length start)))

  -- `with_frame` returns on every settings frame, without a panic: its payload is pairs of varints
  -- and at most a cut-off rest. Without a rest the result is that of the pairs in their order, and
  -- with one it is the first error among the pairs, or else `H3_FRAME_ERROR`.
  pub with_frame-collect :
      (f : Frame)
      → f.kind ≡ FrameKind.settings
      → (ps : List (VarInt × VarInt)) × (tail : List ℕ) × Pairs f.payload ps tail
        × (((tail ≡ []) × (with_frame o f ≡ done (some (collect ps []))))
            ⊎ (CutOff tail × (with_frame o f ≡ done (some (cut_short (collect ps []))))))
  with_frame-collect f k =
      let (ps, tail, pairs, end) = payload-Pairs (suc (length f.payload)) f.payload (omega arith) in
      (ps, tail, pairs, with_frame-Pairs f ps tail k pairs end)
