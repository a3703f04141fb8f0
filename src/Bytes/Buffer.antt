-- ===== src/Bytes/Buffer.antt =====
-- wtransport-proto/src/bytes.rs: `BufferReader` and `BufferWriter` over the cursors of `octets`, and
-- the child reader whose progress is committed to its parent or dropped.
pub mod Laws
pub mod Child
pub mod Filled
use wtransport.Prelude.{
  ℕ, ◌≡◌, List, Option, none, some, Result, ok, err, Outcome, done, bind, assert, expect_ok, leb,
  length, take, drop,
}
use wtransport.VarInt.{VarInt, from_u64_unchecked}
use wtransport.Quic.Octets.{Octets}
use wtransport.Bytes.Reader.{Read, BytesReader}
use wtransport.Bytes.Writer.{Write, BytesWriter, EndOfBuffer, end_of_buffer}

module _ (o : Octets) where
  abbrev pub BufferReader : Type 0
  BufferReader = o.Reader

  unfoldable pub new : List ℕ → BufferReader
  new buffer = o.with_slice buffer

  unfoldable pub capacity : BufferReader → ℕ
  capacity r = o.cap r

  unfoldable pub offset : BufferReader → ℕ
  offset r = o.off r

  unfoldable pub buffer : BufferReader → List ℕ
  buffer r = o.buf r

  abbrev skipped : BufferReader → Option BufferReader → Result (Unit {0}) EndOfBuffer × BufferReader
  skipped r (some r') = (ok tt, r')
  skipped r none = (err end_of_buffer, r)

  unfoldable pub skip : ℕ → BufferReader → Result (Unit {0}) EndOfBuffer × BufferReader
  skip len r = skipped r (o.skip r len)

  -- `&self.buffer()[self.offset()..]`, whose index is checked.
  unfoldable pub buffer_remaining : BufferReader → Outcome (List ℕ)
  unfolding buffer offset
  buffer_remaining r =
      bind (assert (leb (offset r) (length (buffer r)))) λ _. done (drop (offset r) (buffer r))

  abbrev varint_read :
      BufferReader → Option (ℕ × BufferReader) → Outcome (Option VarInt × BufferReader)
  varint_read r (some (value, r')) = bind (from_u64_unchecked value) λ v. done (some v, r')
  varint_read r none = done (none, r)

  unfoldable pub get_varint : Read BufferReader VarInt
  unfolding from_u64_unchecked
  get_varint r = varint_read r (o.get_varint r)

  abbrev bytes_read :
      BufferReader → Option (BufferReader × BufferReader) → Outcome (Option (List ℕ) × BufferReader)
  bytes_read r (some (slice, r')) = done (some (o.buf slice), r')
  bytes_read r none = done (none, r)

  unfoldable pub get_bytes : ℕ → Read BufferReader (List ℕ)
  get_bytes len r = bytes_read r (o.get_bytes r len)

  abbrev pub buffer_reader : BytesReader BufferReader
  buffer_reader = record { get_varint = get_varint; get_bytes = get_bytes }

  pub record BufferReaderChild : Type 0 where
    pub reader : BufferReader
    pub parent : BufferReader

  unfoldable pub child : BufferReader → Outcome BufferReaderChild
  unfolding buffer_remaining new
  child parent =
      bind (buffer_remaining parent) λ rest. done (record { reader = new rest; parent = parent })

  -- The parent after the commit.
  unfoldable pub commit : BufferReaderChild → Outcome BufferReader
  unfolding skip offset
  commit c =
      let (result, parent') = skip (offset c.reader) c.parent in
      bind (expect_ok result) λ _. done parent'

  abbrev pub BufferWriter : Type 0
  BufferWriter = o.Writer

  unfoldable pub new_writer : List ℕ → BufferWriter
  new_writer bytes = o.with_slice_mut bytes

  unfoldable pub capacity_writer : BufferWriter → ℕ
  capacity_writer w = o.cap_mut w

  unfoldable pub offset_writer : BufferWriter → ℕ
  offset_writer w = o.off_mut w

  -- `&self.0.buf()[..self.offset()]`, whose index is checked.
  unfoldable pub buffer_written : BufferWriter → Outcome (List ℕ)
  unfolding offset_writer
  buffer_written w =
      bind (assert (leb (offset_writer w) (length (o.buf_mut w))))
        λ _. done (take (offset_writer w) (o.buf_mut w))

  abbrev put_done :
      BufferWriter → Option BufferWriter → Outcome (Result (Unit {0}) EndOfBuffer × BufferWriter)
  put_done w (some w') = done (ok tt, w')
  put_done w none = done (err end_of_buffer, w)

  unfoldable pub put_varint : VarInt → Write BufferWriter
  put_varint varint w = put_done w (o.put_varint w varint)

  unfoldable pub put_bytes : List ℕ → Write BufferWriter
  put_bytes bytes w = put_done w (o.put_bytes w bytes)

  abbrev pub buffer_writer : BytesWriter BufferWriter
  buffer_writer = record { put_varint = put_varint; put_bytes = put_bytes }
