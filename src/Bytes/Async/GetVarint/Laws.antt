-- ===== src/Bytes/Async/GetVarint/Laws.antt =====
-- `GetVarint` on a source that ends: it decodes the varint at the front of the source.
use wtransport.Prelude.{
  ℕ, suc, ◌/◌, ◌%◌, ◌^◌, ◌≤◌, ◌<◌, ◌≡◌, ◌⊎◌, inl, inr, refl, sym, ap, subst, ◌∙◌, arith, List, [],
  ◌∷◌, ◌++◌, ◌==◌, true, false, none, some, Result, ok, err, done, length, length-append_bytes,
  take, take_all, take-append_length, drop, drop-append_length,
}
use wtransport.VarInt.{VarInt}
use wtransport.VarInt.Size.{parse_size_lem}
use wtransport.Quic.Encoding.{decode}
use wtransport.Quic.Encoding.Laws.{decode-take, decode_short, two_pow_pos}
use wtransport.Quic.Octets.{Octets, OctetsLaws}
use wtransport.Bytes.Slice.Laws.{sub_read}
use wtransport.Bytes.Async.{IoError, Poll, pending, ready, AsyncRead}
use wtransport.Bytes.Async.Await.{await, Turn, Turns, Ends, Turns-later, await-Ends}
use wtransport.Bytes.Async.Source.{Flows, Source, Got}
use wtransport.Bytes.Async.Fill.{At, Filling, Filled, poll_loop-Fills}
use wtransport.Bytes.Async.GetVarint.{
  GetVarint, new, PolledVarint, parsed, after_loop, poll_rest, after_first, poll, get_varint_async,
}

-- The length that the first byte asks for.
abbrev first_size : List ℕ → ℕ
first_size [] = 1
first_size (b ∷ bs) = 2 ^ (b / 64 % 4)

decode_full :
    (whole filled rest : List ℕ)
    → filled ++ rest ≡ whole
    → 1 ≤ length filled
    → length filled ≡ first_size whole
    → (v : ℕ) × (decode filled ≡ some (v, [])) × (decode whole ≡ some (v, rest))
decode_full [] filled rest e some_byte full =
    absurd (omega (arith, ap length e, length-append_bytes filled rest))
decode_full (b ∷ bs) filled rest e some_byte full =
    let front : take (2 ^ (b / 64 % 4)) (b ∷ bs) ≡ filled =
      rw (← full, ← e) (take-append_length filled rest) in
    let back : drop (2 ^ (b / 64 % 4)) (b ∷ bs) ≡ rest =
      rw (← full, ← e) (drop-append_length filled rest) in
    let (v, alone, found) =
      decode-take b bs (omega (arith, full, ap length e, length-append_bytes filled rest)) in
    (v, rw front at alone, rw back at found)

decode_cut : (whole : List ℕ) → length whole < first_size whole → decode whole ≡ none
decode_cut [] short = unfold decode in refl
decode_cut (b ∷ bs) short = decode_short b bs short

some_size : (t : ℕ) → (2 ^ t == 0) ≡ false
some_size t = ground (arith, two_pow_pos t)

module _ {R : Type 0} {reader : AsyncRead R} (o : Octets) (laws : OctetsLaws o)
    (source : Source reader) (whole : List ℕ) (e : IoError) (w : ℕ) where
  open source use {bytes, ending, waits, bytes-IsBytes, poll_read_lem}

  -- Before the first byte, or behind it, with the size that it asks for.
  abbrev Starting : GetVarint → R → Type 0
  Starting g r =
      (g.size ≡ 0) × (length g.filled ≡ 0) × (bytes r ≡ whole) × (ending r ≡ e) × (waits r ≤ w)

  abbrev Getting : GetVarint → R → Type 0
  Getting g r = Starting g r ⊎ Filling source 1 whole e w (first_size whole) g r

  abbrev Gotten : Result VarInt IoError → GetVarint → R → Type 0
  Gotten (ok v) g r = (decode whole ≡ some (v, bytes r)) × (ending r ≡ e) × (waits r ≤ w)
  Gotten (err x) g r = (x ≡ e) × (decode whole ≡ none)

  abbrev Gets : R → PolledVarint o reader → Type 0
  Gets r out = Turns waits Getting Gotten r out

  no_bytes : (r : R) → bytes r ≡ whole → bytes r ≡ [] → decode whole ≡ none
  no_bytes r all empty = rw (← all, empty) (unfold decode in refl)

  parsed_lem :
      (g : GetVarint) (v : ℕ)
      → length g.filled ≡ g.size
      → decode g.filled ≡ some (v, [])
      → parsed o reader g ≡ done v
  parsed_lem g v full alone =
      let whole_buffer : take g.size g.filled ≡ g.filled = rw (← full) (take_all g.filled) in
      let (r', read, _, _) = sub_read o laws g.size g.filled v (rw whole_buffer alone) in rw read

  after_loop-Gets :
      (r : R) (p : Poll (Result (Unit {0}) IoError)) (g : GetVarint) (r' : R)
      → Turn waits
          (Filling source 1 whole e w (first_size whole))
          (Filled source 1 whole e w (first_size whole))
          r
          p
          g
          r'
      → Gets r (after_loop o reader (some (p, g, r')))
  after_loop-Gets r pending g r' (filling, fewer) = (pending, g, r', refl, (inr filling, fewer))
  after_loop-Gets r (ready (err x)) g r' (end, short) =
      (ready (err x), g, r', refl, (end, decode_cut whole short))
  after_loop-Gets r (ready (ok _)) g r' (sized, full, at) =
      let (v, alone, found) =
        decode_full whole g.filled (bytes r') at.split at.long (full ∙ refl) in
      let read = parsed_lem g v (full ∙ sym sized) alone in
      (ready (ok v), g, r', rw read, (found, at.same_end, at.in_time))

  poll_rest-Gets :
      (g : GetVarint) (r : R)
      → Filling source 1 whole e w (first_size whole) g r
      → Gets r (poll_rest o reader g r)
  unfolding poll_rest
  poll_rest-Gets g r (sized, at) =
      let (p, g', r', same, turn) =
        poll_loop-Fills source 1 whole e w (suc g.size) g r (omega arith) at in
      let turn' =
        subst
          (λ n. Turn waits (Filling source 1 whole e w n) (Filled source 1 whole e w n) r p g' r')
          sized turn in
      rw same (after_loop-Gets r p g' r' turn')

  after_first-Gets :
      (g : GetVarint) (r : R) (out : Poll (Result (List ℕ) IoError) × R)
      → Starting g r
      → Flows bytes ending waits 1 r out
      → Gets r (after_first o reader g out)
  after_first-Gets g r (pending, r') (size, none_yet, all, end, time) (same, end', fewer) =
      (pending, g, r', refl, (inl (size, none_yet, same ∙ all, end' ∙ end, omega arith), fewer))
  after_first-Gets g r (ready (err x), r') (_, _, all, end, time) (empty, end') =
      (ready (err x), g, r', refl, (end' ∙ end, no_bytes r all empty))
  after_first-Gets g r (ready (ok []), r') (_, _, all, end, time) (empty, end') =
      (ready (err IoError.closed), g, r', refl, (end' ∙ end, no_bytes r all empty))
  after_first-Gets g r (ready (ok (b ∷ [])), r') (_, _, all, end, time) (fits, same, end', waited) =
      let split : b ∷ bytes r' ≡ whole = sym same ∙ all in
      let byte = (rw same at (bytes-IsBytes r)).0 in
      let n = 2 ^ (b / 64 % 4) in
      let g' : GetVarint = record { size = n; filled = b ∷ [] } in
      let at : At source 1 whole e w g' r' = record {
        long = omega arith;
        short = two_pow_pos (b / 64 % 4);
        split = split;
        same_end = end' ∙ end;
        in_time = omega arith;
      } in
      rw (parse_size_lem b byte, some_size (b / 64 % 4))
        (Turns-later waits Getting Gotten r r' (poll_rest o reader g' r') waited
          (poll_rest-Gets g' r' (ap first_size split, at)))
  after_first-Gets g r (ready (ok (b ∷ b' ∷ bs)), r') start (fits, _, _, _) = absurd (omega arith)

  poll-Gets : (g : GetVarint) (r : R) → Getting g r → Gets r (poll o reader g r)
  unfolding poll
  poll-Gets g r (inl (size, none_yet, all, end, time)) =
      let (out, read, flows) = poll_read_lem 1 r (omega arith) in
      let no_byte : (length g.filled == 0) ≡ true = ground arith in
      let no_size : (g.size == 0) ≡ true = ground arith in
      rw (no_byte, no_size, read, poll)
        (after_first-Gets g r out (size, none_yet, all, end, time) flows)
  poll-Gets g r (inr (sized, at)) =
      let some_byte : (length g.filled == 0) ≡ false = let h = at.long in ground arith in
      rw (some_byte, poll) (poll_rest-Gets g r (sized, at))

module _ {R : Type 0} {reader : AsyncRead R} (o : Octets) (laws : OctetsLaws o)
    (source : Source reader) where
  open source use {bytes, ending, waits}

  ended_varint-Got :
      (r : R) (polls : ℕ)
      → Ends waits
          (Getting o laws source (bytes r) (ending r) (waits r))
          (Gotten o laws source (bytes r) (ending r) (waits r))
          (await (poll o reader) polls new r)
      → Got source r (get_varint_async o reader polls r) (decode (bytes r))
  unfolding get_varint_async
  ended_varint-Got r polls (err x, g, r', same, (end, cut)) = rw (cut, same, end) (r', refl)
  ended_varint-Got r polls (ok v, g, r', same, (found, end, time)) =
      rw (found, same) (r', refl, refl, end, time)

  -- From a source that waits fewer times than the future is polled, `get_varint` reads the varint at
  -- its front and leaves the source behind it; where the bytes end too soon it returns the error by
  -- which the source ends. It never panics.
  pub get_varint_async-Got :
      (polls : ℕ) (r : R)
      → waits r < polls
      → Got source r (get_varint_async o reader polls r) (decode (bytes r))
  get_varint_async-Got polls r enough =
      let start : Getting o laws source (bytes r) (ending r) (waits r) new r =
        unfold new in inl (refl, refl, refl, refl, omega arith) in
      ended_varint-Got r polls (
        await-Ends waits _ _ (poll o reader)
          (poll-Gets o laws source (bytes r) (ending r) (waits r)) polls new r enough start)
