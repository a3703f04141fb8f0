-- ===== src/Settings.antt =====
-- wtransport-proto/src/settings.rs: the settings of a connection, read from a frame and written to
-- one. The map is a list of its entries, in an order in which it may iterate; the theorems hold for
-- every list, so for every such order.
pub mod Setting
pub mod Pairs
pub mod Reading
pub mod Writing
pub mod RoundTrip
pub mod Tests
use wtransport.Prelude.{
  ℕ, zero, suc, List, [], ◌∷◌, ◌++◌, Bool, true, false, Option, none, some, Result, ok, err,
  Outcome, done, bind, assert, expect_ok, ltb, leb, if◌then◌else◌, length, take,
}
use wtransport.VarInt.{VarInt, from_u32}
use wtransport.ErrorCode.{ErrorCode}
use wtransport.Quic.Octets.{Octets}
use wtransport.Bytes.Writer.{Write, BytesWriter, ◌>>◌, written_ok, EndOfBuffer}
use wtransport.Bytes.Buffer
use wtransport.Bytes.Vec
use wtransport.Frame.{Frame, new_settings}
use wtransport.Frame.Kind.{FrameKind}
use Setting.{
  SettingId, ParseError, reserved_setting, unknown_setting, same, id, parse,
  qpack_max_table_capacity, qpack_blocked_streams, enable_webtransport, h3_datagram,
}

abbrev pub Settings : Type 0
Settings = List (SettingId × VarInt)

unfoldable pub get : Settings → SettingId → Option VarInt
get [] k = none
get ((j, v) ∷ s) k = if same j k then some v else get s k

-- `HashMap::insert`, which replaces the value of a setting that is there.
abbrev insert : SettingId → VarInt → Settings → Settings
insert k v [] = (k, v) ∷ []
insert k v ((j, w) ∷ s) = if same j k then (j, v) ∷ s else (j, w) ∷ insert k v s

-- `SettingsBuilder`
unfoldable pub with_qpack_max_table_capacity : VarInt → Settings → Settings
with_qpack_max_table_capacity value s = insert qpack_max_table_capacity value s

unfoldable pub with_qpack_blocked_streams : VarInt → Settings → Settings
with_qpack_blocked_streams value s = insert qpack_blocked_streams value s

unfoldable pub with_enable_webtransport : Settings → Settings
unfolding from_u32
with_enable_webtransport s = insert enable_webtransport (from_u32 1) s

unfoldable pub with_h3_datagrams : Settings → Settings
unfolding from_u32
with_h3_datagrams s = insert h3_datagram (from_u32 1) s

-- `slot.insert` on a vacant entry.
abbrev pub occupy : Settings → SettingId → VarInt → Option VarInt → Result Settings ErrorCode
occupy s k value none = ok (s ++ (k, value) ∷ [])
occupy s k value (some _) = err ErrorCode.settings

abbrev pub store : Settings → VarInt → Result SettingId ParseError → Result Settings ErrorCode
unfolding get
store s value (ok k) = occupy s k value (get s k)
store s value (err unknown_setting) = ok s
store s value (err reserved_setting) = err ErrorCode.settings

abbrev pub is_settings : FrameKind → Bool
is_settings FrameKind.settings = true
is_settings _ = false

-- The loop's result; `none` is a loop that the fuel cut off.
abbrev pub Loop : Type 0
Loop = Outcome (Option (Result Settings ErrorCode))

module _ (o : Octets) where
  -- `get_varint().ok_or(ErrorCode::Frame)?`
  abbrev pub needed : (VarInt → o.Reader → Loop) → Option VarInt × o.Reader → Loop
  needed next (none, r) = done (some (err ErrorCode.frame))
  needed next (some v, r) = next v r

  abbrev pub go_on : (Settings → Loop) → Result Settings ErrorCode → Loop
  go_on next (ok s) = next s
  go_on next (err e) = done (some (err e))

  unfoldable pub read_settings : ℕ → Settings → o.Reader → Loop
  unfolding Buffer.capacity Buffer.get_varint parse
  read_settings zero s r = done none
  read_settings (suc fuel) s r = elim (ltb 0 (Buffer.capacity o r)) [
    | true ↦ bind (Buffer.get_varint o r) (
        needed λ i r₁.
          bind (Buffer.get_varint o r₁)
            (needed λ value r₂. go_on (λ s'. read_settings fuel s' r₂) (store s value (parse i))))
    | false ↦ done (some (ok s))
  ]

  -- An entry takes a byte or more, so one turn for each byte and a last one are enough.
  unfoldable pub with_frame : Frame → Loop
  unfolding Buffer.new read_settings
  with_frame frame =
      bind (assert (is_settings frame.kind))
        λ _. read_settings (suc (length frame.payload)) [] (Buffer.new o frame.payload)

  abbrev put_all : Settings → List ℕ → Outcome (List ℕ)
  unfolding id Vec.put_varint
  put_all [] payload = done payload
  put_all ((k, value) ∷ s) payload = bind (Vec.put_varint o (id k) payload) λ (put_id, payload₁).
      bind (expect_ok put_id) λ _.
        bind (Vec.put_varint o value payload₁)
          λ (put_value, payload₂). bind (expect_ok put_value) λ _. put_all s payload₂

  unfoldable pub generate_frame : Settings → Outcome Frame
  unfolding put_all new_settings
  generate_frame s = bind (put_all s []) new_settings

module _ {W : Type 0} (writer : BytesWriter W) where
  abbrev pub put_entries : Settings → Write W
  unfolding id
  put_entries [] = written_ok
  put_entries ((k, value) ∷ s) =
      (writer.put_varint (id k) >> writer.put_varint value) >> put_entries s

module _ (o : Octets) where
  -- `&buffer[..offset]` is checked.
  abbrev written_frame :
      Result (Unit {0}) EndOfBuffer × o.Writer → Outcome (Result Frame EndOfBuffer)
  unfolding Buffer.offset_writer new_settings
  written_frame (err e, w) = done (err e)
  written_frame (ok _, w) =
      let offset = Buffer.offset_writer o w in
      bind (assert (leb offset (length (o.buf_mut w))))
        λ _. bind (new_settings (take offset (o.buf_mut w))) λ frame. done (ok frame)

  unfoldable pub generate_frame_ref : Settings → List ℕ → Outcome (Result Frame EndOfBuffer)
  unfolding Buffer.new_writer written_frame
  generate_frame_ref s buffer =
      bind (put_entries (Buffer.buffer_writer o) s (Buffer.new_writer o buffer)) written_frame
