-- ===== src/StreamHeader/Buffered.antt =====
-- `StreamHeader::read_from_buffer` and `StreamHeader::write_to_buffer`: all or nothing on a buffer.
use wtransport.Prelude.{
  ◌≤◌, ◌<◌, ◌≡◌, ◌⊎◌, inl, inr, leb, leb→le, Bool-cases, ◌∙◌, arith, ◌++◌, Option, none, some,
  Result, ok, err, Outcome, done, bind, length, lt→ltb, le→not_ltb,
}
use wtransport.Quic.Octets.{Octets, OctetsLaws, unread}
use wtransport.Bytes.Reader.Decoded.{Decoded}
use wtransport.Bytes.Reader.Refines.{Refines}
use wtransport.Bytes.Writer.{end_of_buffer}
use wtransport.Bytes.Buffer.{BufferReaderChild, buffer_reader, buffer_writer, capacity_writer}
use wtransport.Bytes.Buffer.Laws.{On, buffer-ReaderLaws, buffer-WriterLaws, written_so_far}
use wtransport.Bytes.Buffer.Child.{child_lem, commit_lem}
use wtransport.StreamHeader.{
  StreamHeader, StreamHeaderReadError, read, read_from_buffer, write_to_buffer, settle,
}
use wtransport.StreamHeader.Reading.{read_header-Refines}
use wtransport.StreamHeader.Writing.{write_header-Appends, header_size-wire}
use wtransport.StreamHeader.Wire.{decode_header, IsHeader, wire}

module _ (o : Octets) (laws : OctetsLaws o) where
  -- A complete header moves the reader behind it; on an error, and where bytes are missing, the
  -- reader stays where it was.
  abbrev pub Settled :
      o.Reader
      → Outcome (Option (Result StreamHeader StreamHeaderReadError) × o.Reader)
      → Decoded (Result StreamHeader StreamHeaderReadError)
      → Type 0
  Settled r out none = out ≡ done (none, r)
  Settled r out (some (err e, rest)) = out ≡ done (some (err e), r)
  Settled r out (some (ok f, rest)) =
      (r' : o.Reader) × (out ≡ done (some (ok f), r')) × (unread o r' ≡ rest) × (o.buf r' ≡ o.buf r)

  settle-Settled :
      (r : o.Reader) (c : BufferReaderChild o)
      (d : Decoded (Result StreamHeader StreamHeaderReadError))
      → c.parent ≡ r
      → Refines (On o laws (unread o r)) (unread o) (read (buffer_reader o) c.reader) d
      → Settled r
          (bind
            (read (buffer_reader o) c.reader)
            λ (found, reader). settle o r (record { reader = reader; parent = c.parent }) found)
          d
  settle-Settled r c none p (r', e, on) = rw e
  settle-Settled r c (some (err x, rest)) p (r', e, left, on) = rw e
  settle-Settled r c (some (ok f, rest)) p (r', e, left, on) =
      let c' : BufferReaderChild o = record { reader = r'; parent = r } in
      let (r'', committed, same, unread_same) = commit_lem o laws c' on in
      rw (e, p) (r'', rw committed, unread_same ∙ left, same)

  -- `read_from_buffer` finds what the format says of the unread bytes and never panics: it moves
  -- the reader behind a complete header, and leaves it unmoved on `None` and on an error.
  pub read_header-Settled :
      (r : o.Reader) → Settled r (read_from_buffer o r) (decode_header (unread o r))
  unfolding read_from_buffer
  read_header-Settled r =
      let (c, made, parent, on, same) = child_lem o laws r in
      rw made (
        settle-Settled r c (decode_header (unread o r)) parent (
          rw same at (
            read_header-Refines (buffer_reader o) (buffer-ReaderLaws o laws (unread o r)) c.reader
              on)))

  -- `write_to_buffer` writes the whole header where its `write_size` bytes have room, and otherwise
  -- fails with `EndOfBuffer` and leaves the writer as it was.
  pub write_header_to_buffer_cases :
      (f : StreamHeader) (w : o.Writer)
      → IsHeader f
      → ((length (wire f) ≤ o.cap_mut w)
          × ((w' : o.Writer) × (write_to_buffer o f w ≡ done (ok tt, w'))
              × (written_so_far o laws w' ≡ written_so_far o laws w ++ wire f)))
        ⊎ ((o.cap_mut w < length (wire f)) × (write_to_buffer o f w ≡ done (err end_of_buffer, w)))
  unfolding write_to_buffer capacity_writer
  write_header_to_buffer_cases f w h = elim (Bool-cases (leb (length (wire f)) (o.cap_mut w))) [
    | inl room ↦
        let fits = leb→le _ _ room in
        let (w', put, (grown, _)) =
          (write_header-Appends (buffer_writer o) (buffer-WriterLaws o laws) f h).fitting w room in
        inl (fits, (w', rw (header_size-wire f h, le→not_ltb _ _ fits, put), grown))
    | inr full ↦
        let short : o.cap_mut w < length (wire f) = ground arith in
        inr (short, rw (header_size-wire f h, lt→ltb _ _ short))
  ]
