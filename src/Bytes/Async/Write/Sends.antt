-- ===== src/Bytes/Async/Write/Sends.antt =====
-- `PutBuffer` and `PutVarint` on a sink that keeps its contract.
use wtransport.Prelude.{
  ℕ, zero, suc, ◌+◌, ◌-◌, ◌≤◌, ◌<◌, ◌≡◌, refl, sym, ap, ◌∙◌, arith, inl, inr, Bool-cases, false,
  List, [], ◌++◌, append-nil, append_assoc, Option, Result, ok, err, Outcome, done, bind, ltb,
  ltb→lt, lt→ltb, length, length-drop, take, take_all, take-add, take-append_length, drop,
  replicate,
}
use wtransport.VarInt.{VarInt, IsVarInt}
use wtransport.Quic.Encoding.{encode}
use wtransport.VarInt.{varint_max_size}
use wtransport.VarInt.Size.{size-encode}
use wtransport.Quic.Octets.{Octets, OctetsLaws}
use wtransport.Bytes.Buffer
use wtransport.Bytes.Buffer.Filled.{new_writer-Filled, Wrote-Filled}
use wtransport.Bytes.Async.{IoError, Poll, pending, ready}
use wtransport.Bytes.Async.Await.{await, Turns, Turns-later, Ends, await-Ends}
use wtransport.Bytes.Async.Write.{
  AsyncWrite, Put, put_buffer, put_varint, PolledPut, after_write, put_loop, poll_put,
  put_buffer_async, put_varint_async, put_of, size_of,
}
use wtransport.Bytes.Async.Write.Sink.{Takes, Sink, Sent}

module _ {W : Type 0} {writer : AsyncWrite W} (sink : Sink writer) where
  open sink use {written, waits, poll_write_lem}

  module _ (bytes base : List ℕ) (k : ℕ) where
    -- `offset` of the bytes stand behind what the sink held.
    pub record Sending (p : Put) (w : W) : Type 0 where
      pub whole : take p.size p.buffer ≡ bytes
      pub sized : p.size ≡ length bytes
      pub within : p.offset ≤ length bytes
      pub sent : written w ≡ base ++ take p.offset bytes
      pub in_time : waits w ≤ k

    abbrev pub Over : Result (Unit {0}) IoError → Put → W → Type 0
    Over (ok _) p w = (written w ≡ base ++ bytes) × (waits w ≤ k)
    Over (err e) p w =
        (n : ℕ) × (n ≤ length bytes) × (written w ≡ base ++ take n bytes) × (waits w ≤ k)

    abbrev Puts : W → PolledPut writer → Type 0
    Puts w out = Turns waits Sending Over w out

    after_write-Puts :
        (next : ℕ → W → PolledPut writer) (p : Put) (w : W) (out : Poll (Result ℕ IoError) × W)
        → Sending p w
        → Takes written waits (drop p.offset bytes) w out
        → ((n : ℕ) (w' : W)
            → 0 < n
            → Sending (record { buffer = p.buffer; size = p.size; offset = p.offset + n }) w'
            → waits w' ≤ waits w
            → Puts w (next n w'))
        → Puts w (after_write writer next p out)
    after_write-Puts next p w (pending, w') s (same, fewer) go =
        let kept : Sending p w' = record {
          whole = s.whole;
          sized = s.sized;
          within = s.within;
          sent = same ∙ s.sent;
          in_time = omega (arith, s.in_time);
        } in
        (pending, p, w', refl, (kept, fewer))
    after_write-Puts next p w (ready (err e), w') s (same, time) go =
        (ready (err e), p, w', refl, (p.offset, s.within, same ∙ s.sent, omega (arith, s.in_time)))
    after_write-Puts next p w (ready (ok n), w') s (some_byte, fits, grown, time) go =
        let more : Sending (record { buffer = p.buffer; size = p.size; offset = p.offset + n }) w' =
          record {
            whole = s.whole;
            sized = s.sized;
            within = omega (arith, s.within, length-drop p.offset bytes);
            sent =
                grown
                ∙ rw (s.sent, take-add p.offset n bytes)
                    (append_assoc base (take p.offset bytes) (take n (drop p.offset bytes)));
            in_time = omega (arith, s.in_time);
          } in
        rw (lt→ltb _ _ some_byte) (go n w' some_byte more time)

    at_end :
        (p : Put) (w : W) → Sending p w → ltb p.offset p.size ≡ false → written w ≡ base ++ bytes
    at_end p w s full =
        let all : p.offset ≡ length bytes = let h = s.within in let h' = s.sized in ground arith in
        s.sent ∙ rw (all, take_all bytes)

    put_loop-Puts :
        (fuel : ℕ) (p : Put) (w : W)
        → p.size - p.offset < fuel
        → Sending p w
        → Puts w (put_loop writer fuel p w)
    unfolding put_loop
    put_loop-Puts zero p w enough s = absurd (omega arith)
    put_loop-Puts (suc fuel) p w enough s = elim (Bool-cases (ltb p.offset p.size)) [
      | inr full ↦ (ready (ok tt), p, w, rw (full, put_loop), (at_end p w s full, s.in_time))
      | inl more ↦
          let left = ltb→lt _ _ more in
          let (out, put, takes) =
            poll_write_lem (drop p.offset bytes) w
              (omega (arith, length-drop p.offset bytes, s.sized)) in
          let next : ℕ → W → PolledPut writer = λ n w'.
            put_loop writer fuel
              (record { buffer = p.buffer; size = p.size; offset = p.offset + n }) w' in
          let (turn, p', w', same, goal) =
            after_write-Puts next p w out s takes λ n w' some_byte s' time.
              Turns-later waits Sending Over w w' (next n w') time (
                put_loop-Puts fuel
                  (record { buffer = p.buffer; size = p.size; offset = p.offset + n }) w'
                  (omega arith) s') in
          (turn, p', w', rw (more, s.whole, put, put_loop) same, goal)
    ]

    pub poll_put-Puts : (p : Put) (w : W) → Sending p w → Puts w (poll_put writer p w)
    unfolding poll_put
    poll_put-Puts p w s = put_loop-Puts (suc (p.size - p.offset)) p w (omega arith) s

  ended-Sent :
      (bytes : List ℕ) (p : Put) (w : W) (polls : ℕ)
      → Ends waits
          (Sending bytes (written w) (waits w))
          (Over bytes (written w) (waits w))
          (await (poll_put writer) polls p w)
      → Sent sink w bytes (bind (await (poll_put writer) polls p w) (put_of writer))
  ended-Sent bytes p w polls (err e, p', w', same, (n, fits, left, time)) =
      (w', time, inr (e, n, rw same, fits, left))
  ended-Sent bytes p w polls (ok _, p', w', same, (left, time)) =
      (w', time, inl (tt, rw same, left))

  await-Sent :
      (bytes : List ℕ) (p : Put) (w : W) (polls : ℕ)
      → waits w < polls
      → take p.size p.buffer ≡ bytes
      → p.size ≡ length bytes
      → p.offset ≡ 0
      → Sent sink w bytes (bind (await (poll_put writer) polls p w) (put_of writer))
  await-Sent bytes p w polls enough whole sized start =
      let at_start : Sending bytes (written w) (waits w) p w = record {
        whole = whole;
        sized = sized;
        within = omega arith;
        sent = rw start (sym (append-nil (written w)));
        in_time = omega arith;
      } in
      ended-Sent bytes p w polls (
        await-Ends waits _ _ (poll_put writer) (poll_put-Puts bytes (written w) (waits w)) polls p w
          enough at_start)

  -- On a sink that waits fewer times than the future is polled, the future ends.
  pub put_buffer_async-Sent :
      (polls : ℕ) (bytes : List ℕ) (w : W)
      → waits w < polls
      → Sent sink w bytes (put_buffer_async writer polls bytes w)
  unfolding put_buffer_async put_buffer
  put_buffer_async-Sent polls bytes w enough =
      await-Sent bytes (put_buffer bytes) w polls enough (take_all bytes) refl refl

  module _ (o : Octets) (laws : OctetsLaws o) where
    -- The varint fits the inner buffer, and its encoding is what is written.
    put_varint_lem :
        (v : VarInt)
        → IsVarInt v
        → (p : Put) × (put_varint o v ≡ done p)
          × (take p.size p.buffer ≡ encode v)
          × (p.size ≡ length (encode v))
          × (p.offset ≡ 0)
    unfolding put_varint Buffer.put_varint Buffer.new_writer Buffer.offset_writer
    put_varint_lem v h =
        let zeros : List ℕ = replicate varint_max_size 0 in
        let room : length (encode v) ≤ o.cap_mut (Buffer.new_writer o zeros) = omega (
          arith,
          (size-encode v h).1,
          laws.cap_mut_lem (Buffer.new_writer o zeros),
          laws.off_mut-with_slice_mut zeros,
          ap length (laws.buf_mut-with_slice_mut zeros),
        ) in
        let (w, put, wrote) =
          laws.put_varint_fits (Buffer.new_writer o zeros) v (omega arith) room in
        let f =
          Wrote-Filled o laws zeros _ w [] (encode v) (new_writer-Filled o laws zeros) wrote in
        (
          record { buffer = o.buf_mut w; size = o.off_mut w; offset = 0 },
          rw put,
          rw (f.at_end, f.content) (take-append_length (encode v) _),
          f.at_end,
          refl,
        )

    size_of-Sent :
        (w : W) (bs : List ℕ) (n : ℕ) (out : Outcome (Option (Result (Unit {0}) IoError × W)))
        → Sent sink w bs out
        → Sent sink w bs (bind out λ sent. done (size_of writer n sent))
    size_of-Sent w bs n out (w', time, inl (_, same, left)) = (w', time, inl (n, rw same, left))
    size_of-Sent w bs n out (w', time, inr (e, m, same, fits, left)) =
        (w', time, inr (e, m, rw same, fits, left))

    pub put_varint_async-Sent :
        (polls : ℕ) (v : VarInt) (w : W)
        → IsVarInt v
        → waits w < polls
        → Sent sink w (encode v) (put_varint_async writer o polls v w)
    unfolding put_varint_async
    put_varint_async-Sent polls v w h enough =
        let (p, made, whole, sized, start) = put_varint_lem v h in
        let sent = await-Sent (encode v) p w polls enough whole sized start in
        rw made (size_of-Sent w (encode v) p.size _ sent)
