-- ===== src/Quic/Octets.antt =====
-- The `octets` crate, which the repository uses and does not contain: a read cursor and a write
-- cursor over a byte buffer. `Octets` has the operations that `bytes.rs` calls, and `OctetsLaws`
-- what its documentation says of them. An operation answers `none` where the crate returns
-- `BufferTooShortError`, which leaves the cursor where it was.
pub mod Cursor
use wtransport.Prelude.{
  ℕ, ◌+◌, ◌-◌, ◌^◌, ◌≤◌, ◌<◌, ◌≡◌, List, ◌++◌, Option, none, some, length, take, drop,
}
use wtransport.Quic.Encoding.{encode, decode}

pub record Octets : Type 1 where
  -- `octets::Octets`
  pub Reader : Type 0
  pub with_slice : List ℕ → Reader
  pub buf : Reader → List ℕ
  pub off : Reader → ℕ
  pub cap : Reader → ℕ
  pub skip : Reader → ℕ → Option Reader
  pub get_varint : Reader → Option (ℕ × Reader)
  pub get_bytes : Reader → ℕ → Option (Reader × Reader)
  -- `octets::OctetsMut`
  pub Writer : Type 0
  pub with_slice_mut : List ℕ → Writer
  pub buf_mut : Writer → List ℕ
  pub off_mut : Writer → ℕ
  pub cap_mut : Writer → ℕ
  pub put_varint : Writer → ℕ → Option Writer
  pub put_bytes : Writer → List ℕ → Option Writer

module _ (o : Octets) where
  open o use {Reader, Writer, buf, off, buf_mut, off_mut}

  -- What a cursor has not passed yet.
  abbrev pub unread : Reader → List ℕ
  unread r = drop (off r) (buf r)

  abbrev pub Moved : Reader → ℕ → Reader → Type 0
  Moved r n r' = (buf r' ≡ buf r) × (off r' ≡ off r + n)

  -- The bytes stand at the old offset, all others are as they were.
  abbrev pub Wrote : Writer → List ℕ → Writer → Type 0
  Wrote w bs w' =
      (off_mut w' ≡ off_mut w + length bs)
      × (buf_mut w'
          ≡ take (off_mut w) (buf_mut w) ++ (bs ++ drop (off_mut w + length bs) (buf_mut w)))

pub record OctetsLaws (o : Octets) : Type 0 where
  pub buf-with_slice : (bs : List ℕ) → o.buf (o.with_slice bs) ≡ bs
  pub off-with_slice : (bs : List ℕ) → o.off (o.with_slice bs) ≡ 0
  pub off-le : (r : o.Reader) → o.off r ≤ length (o.buf r)
  pub cap_lem : (r : o.Reader) → o.cap r ≡ length (o.buf r) - o.off r
  pub skip_fits :
      (r : o.Reader) (n : ℕ)
      → n ≤ o.cap r
      → (r' : o.Reader) × (o.skip r n ≡ some r') × Moved o r n r'
  pub skip_short : (r : o.Reader) (n : ℕ) → o.cap r < n → o.skip r n ≡ none
  pub get_bytes_fits :
      (r : o.Reader) (n : ℕ)
      → n ≤ o.cap r
      → (s : o.Reader) × (r' : o.Reader) × (o.get_bytes r n ≡ some (s, r'))
        × (o.buf s ≡ take n (unread o r))
        × Moved o r n r'
  pub get_bytes_short : (r : o.Reader) (n : ℕ) → o.cap r < n → o.get_bytes r n ≡ none
  pub get_varint_fits :
      (r : o.Reader) (v : ℕ) (rest : List ℕ)
      → decode (unread o r) ≡ some (v, rest)
      → (r' : o.Reader) × (o.get_varint r ≡ some (v, r'))
        × Moved o r (length (unread o r) - length rest) r'
  pub get_varint_short : (r : o.Reader) → decode (unread o r) ≡ none → o.get_varint r ≡ none
  pub buf_mut-with_slice_mut : (bs : List ℕ) → o.buf_mut (o.with_slice_mut bs) ≡ bs
  pub off_mut-with_slice_mut : (bs : List ℕ) → o.off_mut (o.with_slice_mut bs) ≡ 0
  pub off_mut-le : (w : o.Writer) → o.off_mut w ≤ length (o.buf_mut w)
  pub cap_mut_lem : (w : o.Writer) → o.cap_mut w ≡ length (o.buf_mut w) - o.off_mut w
  pub put_varint_fits :
      (w : o.Writer) (v : ℕ)
      → v < 2 ^ 62
      → length (encode v) ≤ o.cap_mut w
      → (w' : o.Writer) × (o.put_varint w v ≡ some w') × Wrote o w (encode v) w'
  pub put_varint_short :
      (w : o.Writer) (v : ℕ)
      → v < 2 ^ 62
      → o.cap_mut w < length (encode v)
      → o.put_varint w v ≡ none
  pub put_bytes_fits :
      (w : o.Writer) (bs : List ℕ)
      → length bs ≤ o.cap_mut w
      → (w' : o.Writer) × (o.put_bytes w bs ≡ some w') × Wrote o w bs w'
  pub put_bytes_short :
      (w : o.Writer) (bs : List ℕ) → o.cap_mut w < length bs → o.put_bytes w bs ≡ none
