-- ===== src/Quic/Octets/Cursor.antt =====
-- A cursor as `octets` documents it: what it has passed and what is left. It shows that the laws of
-- `Octets` can hold, and the tests run on it.
use wtransport.Prelude.{
  ℕ, ◌+◌, ◌-◌, ◌≤◌, ◌<◌, ◌≡◌, refl, sym, ap, ◌∙◌, arith, List, [], ◌++◌, append_assoc, Option, none,
  some, leb, le→leb, lt→not_leb, if◌then◌else◌, length, length-append, take, drop, take-append-drop,
  length-take_le, take-append_length, drop-append_length, drop-drop,
}
use wtransport.Quic.Encoding.{encode, decode}
use wtransport.Quic.Octets.{Octets, OctetsLaws, unread, Moved, Wrote}

pub record Cursor : Type 0 where
  pub passed : List ℕ
  pub left : List ℕ

abbrev pub over : List ℕ → Cursor
over bs = record { passed = []; left = bs }

abbrev whole : Cursor → List ℕ
whole c = c.passed ++ c.left

abbrev move : ℕ → Cursor → Cursor
move n c = record { passed = c.passed ++ take n c.left; left = drop n c.left }

abbrev try_move : Cursor → ℕ → Option Cursor
try_move c n = if leb n (length c.left) then some (move n c) else none

abbrev cut : Cursor → ℕ → Option (Cursor × Cursor)
cut c n = if leb n (length c.left) then some (over (take n c.left), move n c) else none

abbrev decoded : Cursor → Option (ℕ × List ℕ) → Option (ℕ × Cursor)
decoded c none = none
decoded c (some (v, rest)) = some (v, move (length c.left - length rest) c)

abbrev put : Cursor → List ℕ → Option Cursor
put c bs =
    if leb (length bs) (length c.left)
    then some (record { passed = c.passed ++ bs; left = drop (length bs) c.left })
    else none

abbrev pub cursor : Octets
cursor = record {
  Reader = Cursor;
  with_slice = over;
  buf = whole;
  off = λ c. length c.passed;
  cap = λ c. length c.left;
  skip = try_move;
  get_varint = λ c. decoded c (decode c.left);
  get_bytes = cut;
  Writer = Cursor;
  with_slice_mut = over;
  buf_mut = whole;
  off_mut = λ c. length c.passed;
  cap_mut = λ c. length c.left;
  put_varint = λ c v. put c (encode v);
  put_bytes = put;
}

unread-left : (c : Cursor) → unread cursor c ≡ c.left
unread-left c = drop-append_length c.passed c.left

length-whole : (c : Cursor) → length (whole c) ≡ length c.passed + length c.left
length-whole c = length-append c.passed c.left

move-Moved : (c : Cursor) (n : ℕ) → n ≤ length c.left → Moved cursor c n (move n c)
move-Moved c n h = (
  append_assoc c.passed (take n c.left) (drop n c.left)
      ∙ ap (λ l. c.passed ++ l) (take-append-drop n c.left),
  omega (arith, length-append c.passed (take n c.left), length-take_le n c.left h),
)

put_fits :
    (c : Cursor) (bs : List ℕ)
    → length bs ≤ length c.left
    → (c' : Cursor) × (put c bs ≡ some c') × Wrote cursor c bs c'
put_fits c bs h = (
  record { passed = c.passed ++ bs; left = drop (length bs) c.left },
  rw (le→leb _ _ h),
  (
    length-append c.passed bs,
    rw
        (
          take-append_length c.passed c.left,
          sym (drop-drop (length bs) (length c.passed) (whole c)),
          unread-left c,
        )
        (append_assoc c.passed bs (drop (length bs) c.left)),
  ),
)

put_short : (c : Cursor) (bs : List ℕ) → length c.left < length bs → put c bs ≡ none
put_short c bs h = rw (lt→not_leb _ _ h)

decoded_fits :
    (c : Cursor) (v : ℕ) (rest : List ℕ)
    → decode (unread cursor c) ≡ some (v, rest)
    → (c' : Cursor) × (decoded c (decode c.left) ≡ some (v, c'))
      × Moved cursor c (length (unread cursor c) - length rest) c'
decoded_fits c v rest e =
    let same = unread-left c in
    rw same (
      move (length c.left - length rest) c,
      ap (decoded c) (ap decode (sym same) ∙ e),
      move-Moved c (length c.left - length rest) (omega arith),
    )

pub cursor-OctetsLaws : OctetsLaws cursor
cursor-OctetsLaws = record {
  buf-with_slice = λ bs. refl;
  off-with_slice = λ bs. refl;
  off-le = λ c. omega (arith, length-whole c);
  cap_lem = λ c. omega (arith, length-whole c);
  skip_fits = λ c n h. (move n c, rw (le→leb _ _ h), move-Moved c n h);
  skip_short = λ c n h. rw (lt→not_leb _ _ h);
  get_bytes_fits = λ c n h. (
    over (take n c.left),
    move n c,
    rw (le→leb _ _ h),
    ap (take n) (sym (unread-left c)),
    move-Moved c n h,
  );
  get_bytes_short = λ c n h. rw (lt→not_leb _ _ h);
  get_varint_fits = decoded_fits;
  get_varint_short = λ c e. ap (decoded c) (ap decode (sym (unread-left c)) ∙ e);
  buf_mut-with_slice_mut = λ bs. refl;
  off_mut-with_slice_mut = λ bs. refl;
  off_mut-le = λ c. omega (arith, length-whole c);
  cap_mut_lem = λ c. omega (arith, length-whole c);
  put_varint_fits = λ c v _ h. put_fits c (encode v) h;
  put_varint_short = λ c v _ h. put_short c (encode v) h;
  put_bytes_fits = put_fits;
  put_bytes_short = put_short;
}
