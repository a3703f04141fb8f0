-- ===== src/Settings/Writing.antt =====
-- `Settings::generate_frame`, `Settings::generate_frame_ref`, and the way back through `with_frame`.
use wtransport.Prelude.{
  ℕ, ◌<◌, ◌≤◌, ◌≡◌, ◌⊎◌, inl, inr, sym, ap, ◌∙◌, arith, Bool-cases, List, [], ◌∷◌, ◌++◌, append-nil,
  append_assoc, none, ok, err, done, length, leb, le→leb, leb→le,
}
use wtransport.VarInt.{IsVarInt, varint_max}
use wtransport.Quic.Encoding.{encode}
use wtransport.Quic.Octets.{Octets, OctetsLaws}
use wtransport.Bytes.Writer.{BytesWriter, WriterLaws, end_of_buffer}
use wtransport.Bytes.Writer.Appends.{Appends, put_varint-Appends, nothing-Appends, then-Appends}
use wtransport.Bytes.Buffer
use wtransport.Bytes.Buffer.{buffer_writer}
use wtransport.Bytes.Buffer.Laws.{buffer-WriterLaws, written_so_far}
use wtransport.Bytes.Vec.Laws.{vec-put_varint}
use wtransport.Frame.{Frame, new_settings}
use wtransport.Frame.Kind.{FrameKind}
use wtransport.Frame.Wire.{payload_frame}
use wtransport.Settings.{Settings, get, put_all, generate_frame, put_entries, generate_frame_ref}
use wtransport.Settings.Setting.{id}
use wtransport.Settings.Setting.Laws.{IsSetting, id-IsVarInt}

-- The settings of a map: no setting twice, every setting with an id of its own, varints as values.
abbrev pub IsSettings : Settings → Type 0
IsSettings [] = Unit {0}
IsSettings ((k, v) ∷ s) = IsSetting k × IsVarInt v × (get s k ≡ none) × IsSettings s

abbrev pub settings_bytes : Settings → List ℕ
settings_bytes [] = []
settings_bytes ((k, v) ∷ s) = (encode (id k) ++ encode v) ++ settings_bytes s

abbrev pub settings_frame : Settings → Frame
settings_frame s = payload_frame FrameKind.settings (settings_bytes s)

new_settings_lem :
    (payload : List ℕ)
    → length payload ≤ varint_max
    → new_settings payload ≡ done (payload_frame FrameKind.settings payload)
unfolding new_settings
new_settings_lem payload h = rw (le→leb _ _ h)

module _ (o : Octets) (laws : OctetsLaws o) where
  put_all_lem :
      (s : Settings) (payload : List ℕ)
      → IsSettings s
      → put_all o s payload ≡ done (payload ++ settings_bytes s)
  unfolding put_all
  put_all_lem [] payload h = ap done (sym (append-nil payload))
  put_all_lem ((k, v) ∷ s) payload (hk, hv, _, hs) =
      rw
        (
          vec-put_varint o laws payload (id k) (id-IsVarInt k hk),
          vec-put_varint o laws (payload ++ encode (id k)) v hv,
          put_all_lem s ((payload ++ encode (id k)) ++ encode v) hs,
        )
        (ap done (
          append_assoc (payload ++ encode (id k)) (encode v) (settings_bytes s)
          ∙ append_assoc payload (encode (id k)) (encode v ++ settings_bytes s)
          ∙ ap (λ l. payload ++ l)
              (sym (append_assoc (encode (id k)) (encode v) (settings_bytes s)))))

  -- `generate_frame` makes the settings frame of the entries.
  pub generate_frame-bytes :
      (s : Settings)
      → IsSettings s
      → length (settings_bytes s) ≤ varint_max
      → generate_frame o s ≡ done (settings_frame s)
  unfolding generate_frame
  generate_frame-bytes s h short = rw (put_all_lem s [] h) (new_settings_lem _ short)

  put_entries-Appends :
      {W : Type 0} (writer : BytesWriter W) (wl : WriterLaws writer) (s : Settings)
      → IsSettings s
      → Appends writer wl (put_entries writer s) (settings_bytes s)
  unfolding put_entries
  put_entries-Appends writer wl [] h = nothing-Appends writer wl
  put_entries-Appends writer wl ((k, v) ∷ s) (hk, hv, _, hs) =
      then-Appends writer wl _ _ _ _
        (then-Appends writer wl _ _ _ _ (put_varint-Appends writer wl (id k) (id-IsVarInt k hk))
          (put_varint-Appends writer wl v hv))
        (put_entries-Appends writer wl s hs)

  -- `generate_frame_ref` makes the same frame where the buffer has room for its payload, and fails with
  -- `EndOfBuffer` where it has not.
  pub generate_frame_ref_cases :
      (s : Settings) (buffer : List ℕ)
      → IsSettings s
      → length (settings_bytes s) ≤ varint_max
      → ((length (settings_bytes s) ≤ length buffer)
          × (generate_frame_ref o s buffer ≡ done (ok (settings_frame s))))
        ⊎ ((length buffer < length (settings_bytes s))
            × (generate_frame_ref o s buffer ≡ done (err end_of_buffer)))
  unfolding generate_frame_ref Buffer.new_writer Buffer.offset_writer
  generate_frame_ref_cases s buffer h short =
      let w = o.with_slice_mut buffer in
      let free : o.cap_mut w ≡ length buffer = omega (
        arith,
        laws.cap_mut_lem w,
        laws.off_mut-with_slice_mut buffer,
        ap length (laws.buf_mut-with_slice_mut buffer),
      ) in
      let nothing : written_so_far o laws w ≡ [] = rw (laws.off_mut-with_slice_mut buffer) in
      let puts = put_entries-Appends (buffer_writer o) (buffer-WriterLaws o laws) s h in
      elim (Bool-cases (leb (length (settings_bytes s)) (o.cap_mut w))) [
        | inl room ↦
            let (w', put, (grown, _)) = puts.fitting w room in
            let payload : written_so_far o laws w' ≡ settings_bytes s =
              grown ∙ ap (λ l. l ++ settings_bytes s) nothing in
            inl (
              rw free at (leb→le _ _ room),
              rw (
                put,
                le→leb _ _ (laws.off_mut-le w'),
                payload,
                new_settings_lem (settings_bytes s) short,
              ),
            )
        | inr full ↦ let (w', put) = puts.full w full in inr (ground arith, rw put)
      ]
