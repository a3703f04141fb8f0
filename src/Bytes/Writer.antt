-- ===== src/Bytes/Writer.antt =====
-- wtransport-proto/src/bytes.rs: the trait `BytesWriter`, and chains of writes by `?`. `WriterLaws`
-- is its contract: a write that fits appends its bytes, any other fails and writes nothing.
pub mod Appends
use wtransport.Prelude.{
  ℕ, ◌+◌, ◌≤◌, ◌≡◌, Bool, true, false, List, ◌++◌, Result, ok, err, Outcome, done, bind, length,
}
use wtransport.VarInt.{VarInt, IsVarInt}
use wtransport.Quic.Encoding.{encode}

pub data EndOfBuffer : Type 0 where
  end_of_buffer : EndOfBuffer

-- A write returns with the sink after it.
abbrev pub Write : Type 0 → Type 0
Write W = W → Outcome (Result (Unit {0}) EndOfBuffer × W)

pub record BytesWriter (W : Type 0) : Type 0 where
  pub put_varint : VarInt → Write W
  pub put_bytes : List ℕ → Write W

module _ {W : Type 0} where
  abbrev pub written_ok : Write W
  written_ok w = done (ok tt, w)

  abbrev pub resume :
      Write W → Result (Unit {0}) EndOfBuffer × W → Outcome (Result (Unit {0}) EndOfBuffer × W)
  resume next (ok _, w) = next w
  resume next (err e, w) = done (err e, w)

  infixl 5 ◌>>◌
  abbrev pub ◌>>◌ : Write W → Write W → Write W
  ◌>>◌ m next w = bind (m w) (resume next)

  -- A step by `?` on a computation that may panic and writes nothing.
  abbrev pub given : {A : Type 0} → Outcome A → (A → Write W) → Write W
  given m f w = bind m λ a. f a w

  pub record WriterLaws (writer : BytesWriter W) : Type 0 where
    pub written : W → List ℕ
    -- whether as many bytes still fit
    pub fits : W → ℕ → Bool
    pub fits_zero : (w : W) → fits w 0 ≡ true
    pub fits_mono : (w : W) (m n : ℕ) → m ≤ n → fits w n ≡ true → fits w m ≡ true
    pub put_varint_fits :
        (w : W) (v : VarInt)
        → IsVarInt v
        → fits w (length (encode v)) ≡ true
        → (w' : W) × (writer.put_varint v w ≡ done (ok tt, w'))
          × (written w' ≡ written w ++ encode v)
          × ((n : ℕ) → fits w' n ≡ fits w (length (encode v) + n))
    pub put_varint_full :
        (w : W) (v : VarInt)
        → IsVarInt v
        → fits w (length (encode v)) ≡ false
        → writer.put_varint v w ≡ done (err end_of_buffer, w)
    pub put_bytes_fits :
        (w : W) (bs : List ℕ)
        → fits w (length bs) ≡ true
        → (w' : W) × (writer.put_bytes bs w ≡ done (ok tt, w'))
          × (written w' ≡ written w ++ bs)
          × ((n : ℕ) → fits w' n ≡ fits w (length bs + n))
    pub put_bytes_full :
        (w : W) (bs : List ℕ)
        → fits w (length bs) ≡ false
        → writer.put_bytes bs w ≡ done (err end_of_buffer, w)
