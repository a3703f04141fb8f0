-- ===== src/Bytes/Async/Fill.antt =====
-- `GetBuffer::poll` on a source that ends, and its `await`: it takes as many bytes as the buffer has
-- room for, or ends as the source does.
use wtransport.Prelude.{
  false, ℕ, zero, suc, ◌-◌, ◌≤◌, ◌<◌, ◌≡◌, refl, sym, ap, ◌∙◌, subst, arith, inl, inr, Bool-cases,
  List, [], ◌∷◌, ◌++◌, append_assoc, Option, none, some, done, bind, Result, ok, err, ltb, ltb→lt,
  lt→not_leb, length, length-append_bytes, split_at, split_at-append,
}
use wtransport.Bytes.Async.{
  IoError, Poll, pending, ready, AsyncRead, GetBuffer, get_buffer, Polled, after_read, poll_loop,
  poll_get_buffer,
}
use wtransport.Bytes.Async.Await.{await, Turns, Ends, Turns-later, await-Ends}
use wtransport.Bytes.Async.Source.{Flows, Source, Awaited, Got}

-- The buffer that the caller gets back.
abbrev pub buffer_of :
    {R : Type 0} → Option (Result (Unit {0}) IoError × GetBuffer × R) → Awaited (List ℕ) R
buffer_of none = done none
buffer_of (some (ok _, g, r)) = done (some (ok g.filled, r))
buffer_of (some (err e, g, r)) = done (some (err e, r))

-- `reader.get_buffer(&mut buffer).await` with a new buffer of `size` bytes.
unfoldable pub get_buffer_async : {R : Type 0} → AsyncRead R → ℕ → ℕ → R → Awaited (List ℕ) R
unfolding await poll_get_buffer get_buffer
get_buffer_async reader polls size r =
    bind (await (poll_get_buffer reader) polls (get_buffer size) r) buffer_of

module _ {R : Type 0} {reader : AsyncRead R} (source : Source reader) where
  open source use {bytes, ending, waits, poll_read_lem}

  -- `least` bytes or more were taken, they and those to come are `whole`, the source ends with `e`,
  -- and it waits `w` times at most.
  module _ (least : ℕ) (whole : List ℕ) (e : IoError) (w : ℕ) where
    pub record At (g : GetBuffer) (r : R) : Type 0 where
      pub long : least ≤ length g.filled
      pub short : length g.filled ≤ g.size
      pub split : g.filled ++ bytes r ≡ whole
      pub same_end : ending r ≡ e
      pub in_time : waits r ≤ w

    abbrev pub Filling : ℕ → GetBuffer → R → Type 0
    Filling size g r = (g.size ≡ size) × At g r

    abbrev pub Filled : ℕ → Result (Unit {0}) IoError → GetBuffer → R → Type 0
    Filled size (ok _) g r = (g.size ≡ size) × (length g.filled ≡ size) × At g r
    Filled size (err x) g r = (x ≡ e) × (length whole < size)

    abbrev pub Fills : ℕ → R → Polled reader → Type 0
    Fills size r out = Turns waits (Filling size) (Filled size) r out

    cut_short :
        (g : GetBuffer) (r : R)
        → At g r
        → length g.filled < g.size
        → bytes r ≡ []
        → length whole < g.size
    cut_short g r at more empty =
        omega (arith, ap length at.split, length-append_bytes g.filled (bytes r), ap length empty)

    after_read-Fills :
        (n : ℕ) (next : List ℕ → R → Polled reader) (g : GetBuffer) (r : R)
        (out : Poll (Result (List ℕ) IoError) × R)
        → At g r
        → length g.filled < g.size
        → Flows bytes ending waits n r out
        → ((bs : List ℕ) (r' : R)
            → 0 < length bs
            → length bs ≤ n
            → bytes r ≡ bs ++ bytes r'
            → ending r' ≡ ending r
            → waits r' ≤ waits r
            → Fills g.size r (next bs r'))
        → Fills g.size r (after_read reader next g out)
    after_read-Fills n next g r (pending, r') at more (same, end, fewer) k =
        let kept : At g r' = record {
          long = at.long;
          short = at.short;
          split = ap (λ l. g.filled ++ l) same ∙ at.split;
          same_end = end ∙ at.same_end;
          in_time = omega (arith, at.in_time);
        } in
        (pending, g, r', refl, ((refl, kept), fewer))
    after_read-Fills n next g r (ready (err x), r') at more (empty, end) k =
        (ready (err x), g, r', refl, (end ∙ at.same_end, cut_short g r at more empty))
    after_read-Fills n next g r (ready (ok []), r') at more (empty, end) k =
        (ready (err IoError.closed), g, r', refl, (end ∙ at.same_end, cut_short g r at more empty))
    after_read-Fills n next g r (ready (ok (b ∷ bs)), r') at more (fits, same, end, waited) k =
        k (b ∷ bs) r' (omega arith) fits same end waited

    no_room_left :
        (g : GetBuffer) (r : R)
        → At g r
        → ltb (length g.filled) g.size ≡ false
        → length g.filled ≡ g.size
    no_room_left g r at full = let h = at.short in ground arith

    taken_more :
        (g : GetBuffer) (r r' : R) (bs : List ℕ)
        → At g r
        → length bs ≤ g.size - length g.filled
        → bytes r ≡ bs ++ bytes r'
        → ending r' ≡ ending r
        → waits r' ≤ waits r
        → At (record { size = g.size; filled = g.filled ++ bs }) r'
    taken_more g r r' bs at fits same end waited = record {
      long = omega (arith, length-append_bytes g.filled bs, at.long);
      short = omega (arith, length-append_bytes g.filled bs, at.short);
      split = append_assoc g.filled bs (bytes r') ∙ ap (λ l. g.filled ++ l) (sym same) ∙ at.split;
      same_end = end ∙ at.same_end;
      in_time = omega (arith, at.in_time);
    }

    pub poll_loop-Fills :
        (fuel : ℕ) (g : GetBuffer) (r : R)
        → g.size - length g.filled < fuel
        → At g r
        → Fills g.size r (poll_loop reader fuel g r)
    unfolding poll_loop
    poll_loop-Fills zero g r enough at = absurd (omega arith)
    poll_loop-Fills (suc fuel) g r enough at = elim (Bool-cases (ltb (length g.filled) g.size)) [
      | inr full ↦ (ready (ok tt), g, r, rw (full, poll_loop), (refl, no_room_left g r at full, at))
      | inl more ↦
          let room = g.size - length g.filled in
          let left = ltb→lt _ _ more in
          let (out, read, flows) = poll_read_lem room r (omega arith) in
          let next : List ℕ → R → Polled reader =
            λ bs r'. poll_loop reader fuel (record { size = g.size; filled = g.filled ++ bs }) r' in
          let (p, g', r', same, goal) =
            after_read-Fills room next g r out at left flows
              λ bs r' some_byte fits split end waited.
                Turns-later waits (Filling g.size) (Filled g.size) r r' (next bs r') waited (
                  poll_loop-Fills fuel (record { size = g.size; filled = g.filled ++ bs }) r'
                    (omega (arith, length-append_bytes g.filled bs))
                    (taken_more g r r' bs at fits split end waited)) in
          (p, g', r', rw (more, read, poll_loop) same, goal)
    ]

    pub poll-Fills :
        (size : ℕ) (g : GetBuffer) (r : R)
        → Filling size g r
        → Fills size r (poll_get_buffer reader g r)
    unfolding poll_get_buffer
    poll-Fills size g r (e, at) =
        subst (λ n. Fills n r (poll_get_buffer reader g r)) e
          (poll_loop-Fills (suc (g.size - length g.filled)) g r (omega arith) at)

  ended-Got :
      (size : ℕ) (r : R) (polls : ℕ)
      → Ends waits
          (Filling 0 (bytes r) (ending r) (waits r) size)
          (Filled 0 (bytes r) (ending r) (waits r) size)
          (await (poll_get_buffer reader) polls (get_buffer size) r)
      → Got source r (get_buffer_async reader polls size r) (split_at size (bytes r))
  unfolding get_buffer_async
  ended-Got size r polls (err x, g, r', same, (end, short)) =
      rw (lt→not_leb _ _ short, same, end) (r', refl)
  ended-Got size r polls (ok _, g, r', same, (sized, full, at)) =
      rw (← at.split, ← full, split_at-append g.filled (bytes r'), full, same)
        (r', refl, refl, at.same_end, at.in_time)

  -- From a source that waits fewer times than the future is polled, `get_buffer` fills the buffer with
  -- the next bytes, or, where there are too few, returns the error by which the source ends. It never
  -- panics.
  pub get_buffer_async-Got :
      (polls size : ℕ) (r : R)
      → waits r < polls
      → Got source r (get_buffer_async reader polls size r) (split_at size (bytes r))
  unfolding get_buffer
  get_buffer_async-Got polls size r enough =
      let start : At 0 (bytes r) (ending r) (waits r) (get_buffer size) r = record {
        long = omega arith;
        short = omega arith;
        split = refl;
        same_end = refl;
        in_time = omega arith;
      } in
      ended-Got size r polls (
        await-Ends waits _ _ (poll_get_buffer reader)
          (poll-Fills 0 (bytes r) (ending r) (waits r) size) polls (get_buffer size) r enough
          (refl, start))
