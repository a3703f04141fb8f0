-- ===== src/Bytes/Slice.antt =====
-- wtransport-proto/src/bytes.rs: `impl BytesReader for &[u8]`, where the slice itself moves on.
pub mod Laws
use wtransport.Prelude.{
  ℕ, List, [], ◌∷◌, Option, none, some, Outcome, done, bind, expect, leb, if◌then◌else◌, length,
  take, drop,
}
use wtransport.VarInt.{VarInt, parse_size}
use wtransport.Quic.Octets.{Octets}
use wtransport.Bytes.Reader.{Read, BytesReader}
use wtransport.Bytes.Buffer

module _ (o : Octets) where
  -- `VarInt::parse_size`, `self.get(..varint_size)?`, the read of that part and the move.
  unfoldable pub get_varint : Read (List ℕ) VarInt
  unfolding Buffer.get_varint Buffer.new parse_size
  get_varint [] = done (none, [])
  get_varint (first ∷ rest) = bind (parse_size first) λ varint_size.
      if leb varint_size (length (first ∷ rest))
      then (bind (Buffer.get_varint o (Buffer.new o (take varint_size (first ∷ rest)))) λ (read, _).
          bind (expect read) λ varint. done (some varint, drop varint_size (first ∷ rest)))
      else done (none, first ∷ rest)

  unfoldable pub get_bytes : ℕ → Read (List ℕ) (List ℕ)
  get_bytes len self =
      if leb len (length self)
      then done (some (take len self), drop len self)
      else done (none, self)

  abbrev pub slice_reader : BytesReader (List ℕ)
  slice_reader = record { get_varint = get_varint; get_bytes = get_bytes }
