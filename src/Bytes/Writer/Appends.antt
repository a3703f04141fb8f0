-- ===== src/Bytes/Writer/Appends.antt =====
-- What a chain of writes appends, on any sink that keeps the writer's contract.
use wtransport.Prelude.{
  ℕ, ◌+◌, ◌≡◌, refl, sym, ap, ◌∙◌, arith, true, false, ◌⊎◌, inl, inr, List, [], append-nil, ◌++◌,
  append_assoc, ok, err, done, length, length-append_bytes, Bool-cases, true-ne-false,
}
use wtransport.VarInt.{VarInt, IsVarInt}
use wtransport.Quic.Encoding.{encode}
use wtransport.Bytes.Writer.{Write, written_ok, BytesWriter, WriterLaws, ◌>>◌, end_of_buffer}

module _ {W : Type 0} (writer : BytesWriter W) (laws : WriterLaws writer) where
  open laws use {written, fits, fits_mono}

  -- The sink after a write of `bs` that fitted.
  abbrev pub Grew : W → List ℕ → W → Type 0
  Grew w bs w' = (written w' ≡ written w ++ bs) × ((n : ℕ) → fits w' n ≡ fits w (length bs + n))

  -- Where the bytes fit they are appended, and where they do not the write fails.
  pub record Appends (p : Write W) (bs : List ℕ) : Type 0 where
    pub fitting :
        (w : W) → fits w (length bs) ≡ true → (w' : W) × (p w ≡ done (ok tt, w')) × Grew w bs w'
    pub full :
        (w : W) → fits w (length bs) ≡ false → (w' : W) × (p w ≡ done (err end_of_buffer, w'))

  -- Where the bytes fit and where they do not.
  pub Appends-cases :
      (p : Write W) (bs : List ℕ) (w : W)
      → Appends p bs
      → ((fits w (length bs) ≡ true)
          × ((w' : W) × (p w ≡ done (ok tt, w')) × (written w' ≡ written w ++ bs)))
        ⊎ ((fits w (length bs) ≡ false) × ((w' : W) × (p w ≡ done (err end_of_buffer, w'))))
  Appends-cases p bs w h = elim (Bool-cases (fits w (length bs))) [
    | inl room ↦ let (w', put, grown) = h.fitting w room in inl (room, (w', put, grown.0))
    | inr short ↦ inr (short, h.full w short)
  ]

  pub put_varint-Appends : (v : VarInt) → IsVarInt v → Appends (writer.put_varint v) (encode v)
  put_varint-Appends v h = record {
    fitting = λ w e.
        let (w', put, grown, room) = laws.put_varint_fits w v h e in (w', put, (grown, room));
    full = λ w e. (w, laws.put_varint_full w v h e);
  }

  pub put_bytes-Appends : (bs : List ℕ) → Appends (writer.put_bytes bs) bs
  put_bytes-Appends bs = record {
    fitting =
        λ w e. let (w', put, grown, room) = laws.put_bytes_fits w bs e in (w', put, (grown, room));
    full = λ w e. (w, laws.put_bytes_full w bs e);
  }

  pub nothing-Appends : Appends written_ok []
  nothing-Appends = record {
    fitting = λ w e. (w, refl, (sym (append-nil (written w)), λ n. ap (fits w) (omega arith)));
    full = λ w e. true-ne-false (sym (laws.fits_zero w) ∙ e);
  }

  module _ (p q : Write W) (xs ys : List ℕ) (first : Appends p xs) (second : Appends q ys) where
    room_left : (w w₁ : W) → Grew w xs w₁ → fits w₁ (length ys) ≡ fits w (length (xs ++ ys))
    room_left w w₁ g = g.1 (length ys) ∙ ap (fits w) (sym (length-append_bytes xs ys))

    then_fitting :
        (w : W)
        → fits w (length (xs ++ ys)) ≡ true
        → (w' : W) × ((p >> q) w ≡ done (ok tt, w')) × Grew w (xs ++ ys) w'
    then_fitting w e =
        let enough : fits w (length xs) ≡ true =
          fits_mono w (length xs) (length (xs ++ ys)) (omega (arith, length-append_bytes xs ys))
            e in
        let (w₁, one, g₁) = first.fitting w enough in
        let (w₂, two, g₂) = second.fitting w₁ (room_left w w₁ g₁ ∙ e) in
        (
          w₂,
          rw (one, two),
          (
            g₂.0 ∙ rw (g₁.0) (append_assoc (written w) xs ys),
            λ n.
                g₂.1 n
                ∙ g₁.1 (length ys + n)
                ∙ ap (fits w) (omega (arith, length-append_bytes xs ys)),
          ),
        )

    then_full :
        (w : W)
        → fits w (length (xs ++ ys)) ≡ false
        → (w' : W) × ((p >> q) w ≡ done (err end_of_buffer, w'))
    then_full w e = elim (Bool-cases (fits w (length xs))) [
      | inl enough ↦
          let (w₁, one, g₁) = first.fitting w enough in
          let (w₂, two) = second.full w₁ (room_left w w₁ g₁ ∙ e) in (w₂, rw (one, two))
      | inr short ↦ let (w₁, one) = first.full w short in (w₁, rw one)
    ]

    -- One write after another appends the bytes of both.
    pub then-Appends : Appends (p >> q) (xs ++ ys)
    then-Appends = record { fitting = then_fitting; full = then_full }
