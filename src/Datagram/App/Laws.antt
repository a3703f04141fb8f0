-- ===== src/Datagram/App/Laws.antt =====
-- Datagrams of an application: what one end sends into a session the other end of it receives.
use wtransport.Prelude.{
  ℕ, ◌+◌, ◌-◌, ◌*◌, ◌/◌, ◌^◌, ◌<◌, ◌≡◌, sym, ap, ◌∙◌, arith, inl, inr, List, [], ◌++◌, append-nil,
  none, some, ok, done, le→leb, ◌==◌, if◌then◌else◌, length, length-append_bytes, length-replicate,
  drop, drop_all, drop-append_length, replicate, Bool-cases,
}
use wtransport.Ids.SessionId.{SessionId}
use wtransport.Ids.Laws.{IsSessionId, from_session_id_lem, into_stream_id_lem}
use wtransport.Quic.Encoding.{encode}
use wtransport.Quic.Octets.{Octets, OctetsLaws}
use wtransport.Datagram.{Datagram as H3Datagram}
use wtransport.Datagram.Laws.{
  wire, read-decode_datagram, decode_datagram-wire, datagram_size-wire, write_room,
}
use wtransport.Datagram.App.{Datagram, with_payload, of_h3, read, write, deref}

-- The datagram that carries a payload into a session.
abbrev pub carried : SessionId → List ℕ → H3Datagram
carried s payload = record {
  qstream_id = record { varint = s.session_stream.varint / 4 };
  payload = payload;
}

abbrev pub in_session : SessionId → List ℕ → Datagram
in_session s payload = record {
  quic_dgram = wire (carried s payload);
  payload_offset = length (encode (s.session_stream.varint / 4));
}

length-carried :
    (s : SessionId) (payload : List ℕ)
    → length (wire (carried s payload))
      ≡ length (encode (s.session_stream.varint / 4)) + length payload
unfolding wire
length-carried s payload = length-append_bytes (encode (s.session_stream.varint / 4)) payload

with_payload-carried :
    (s : SessionId) (payload : List ℕ)
    → with_payload (wire (carried s payload)) payload ≡ done (in_session s payload)
with_payload-carried s payload =
    let size = length-carried s payload in
    let offset : length (wire (carried s payload)) - length payload
        ≡ length (encode (s.session_stream.varint / 4)) =
      omega (arith, size) in
    rw (le→leb (length payload) (length (wire (carried s payload))) (omega (arith, size)), offset)

-- The application sees exactly the payload of a datagram.
pub deref-in_session :
    (s : SessionId) (payload : List ℕ) → deref (in_session s payload) ≡ done payload
unfolding deref wire
deref-in_session s payload =
    let id = encode (s.session_stream.varint / 4) in
    rw (
      le→leb (length id) (length (id ++ payload)) (omega (arith, length-append_bytes id payload)),
      drop-append_length id payload,
    )

module _ (o : Octets) (laws : OctetsLaws o) where
  -- `write` never panics on a session id: it allocates exactly what the datagram takes.
  pub write-in_session :
      (s : SessionId) (payload : List ℕ)
      → IsSessionId s
      → write o s payload ≡ done (in_session s payload)
  unfolding write
  write-in_session s payload h =
      let d = carried s payload in
      let quarter : s.session_stream.varint / 4 < 2 ^ 60 = omega arith in
      let n = length (wire d) in
      let zeros = replicate {A = ℕ} n 0 in
      let full : length zeros ≡ n = length-replicate n 0 in
      let filled = write_room o laws d zeros quarter (omega (arith, full)) in
      let nothing : drop n zeros ≡ [] = ap (λ m. drop m zeros) (sym full) ∙ drop_all zeros in
      rw (
        from_session_id_lem s h.in_range,
        datagram_size-wire d quarter,
        filled,
        nothing,
        append-nil (wire d),
        with_payload-carried s payload,
      )

  of_h3-carried :
      (t s : SessionId) (payload : List ℕ)
      → IsSessionId s
      → of_h3 o t (wire (carried s payload)) (ok (carried s payload))
        ≡ done (
            ok (
              if t.session_stream.varint == s.session_stream.varint
              then some (in_session s payload)
              else none))
  unfolding of_h3
  of_h3-carried t s payload h =
      let v = s.session_stream.varint in
      let back : v / 4 * 4 ≡ v = omega arith in
      rw (into_stream_id_lem (v / 4) (omega arith), back)
        (elim (Bool-cases (t.session_stream.varint == v)) [
          | inl same ↦ rw (same, with_payload-carried s payload)
          | inr other ↦ rw other
        ])

  -- A datagram written for the session `s` reads as itself in that session, and is passed over in
  -- every other one.
  pub read-write :
      (t s : SessionId) (payload : List ℕ)
      → IsSessionId s
      → (d : Datagram) × (write o s payload ≡ done d)
        × (read o t d.quic_dgram
            ≡ done
                (ok (if t.session_stream.varint == s.session_stream.varint then some d else none)))
        × (deref d ≡ done payload)
  read-write t s payload h = (
    in_session s payload,
    write-in_session s payload h,
    unfold read in
        rw
          (
            read-decode_datagram o laws (wire (carried s payload)),
            decode_datagram-wire (carried s payload) (omega arith),
          )
          (of_h3-carried t s payload h),
    deref-in_session s payload,
  )
