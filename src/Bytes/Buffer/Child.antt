-- ===== src/Bytes/Buffer/Child.antt =====
-- A child reader works on what its parent has not read; a commit moves the parent as far as the
-- child went, and a child that is dropped leaves the parent alone.
use wtransport.Prelude.{◌≤◌, ◌≡◌, refl, ap, ◌∙◌, arith, done, le→leb, length}
use wtransport.Quic.Octets.{Octets, OctetsLaws, unread}
use wtransport.Bytes.Buffer.{BufferReaderChild, child, commit}
use wtransport.Bytes.Buffer.Laws.{unread-Moved, length-unread, On}

module _ (o : Octets) (laws : OctetsLaws o) where
  -- `child` never panics; its reader is on exactly the unread bytes of the parent.
  pub child_lem :
      (r : o.Reader)
      → (c : BufferReaderChild o) × (child o r ≡ done c)
        × (c.parent ≡ r)
        × (On o laws (unread o r) c.reader)
        × (unread o c.reader ≡ unread o r)
  unfolding child
  child_lem r =
      let c : BufferReaderChild o = record { reader = o.with_slice (unread o r); parent = r } in
      (
        c,
        rw (le→leb _ _ (laws.off-le r)),
        refl,
        laws.buf-with_slice (unread o r),
        rw (laws.buf-with_slice (unread o r), laws.off-with_slice (unread o r)),
      )

  -- A commit of a child that is still on the unread bytes of its parent never panics, and leaves the
  -- parent with what the child has left.
  pub commit_lem :
      (c : BufferReaderChild o)
      → On o laws (unread o c.parent) c.reader
      → (r' : o.Reader) × (commit o c ≡ done r')
        × (o.buf r' ≡ o.buf c.parent)
        × (unread o r' ≡ unread o c.reader)
  unfolding commit
  commit_lem c on =
      let n = o.off c.reader in
      let room : n ≤ o.cap c.parent =
        omega (arith, laws.off-le c.reader, ap length on, length-unread o laws c.parent) in
      let (r', skipped, moved) = laws.skip_fits c.parent n room in
      (r', rw skipped, moved.0, unread-Moved o laws c.parent n r' moved ∙ rw on)
