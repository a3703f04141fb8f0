-- ===== src/Frame/Wire.antt =====
-- The format of a frame on the wire, by RFC 9114 and the WebTransport draft: a decoder of byte lists
-- and the bytes of a frame. It is the reference to which `read` and `write` are held; no code of the
-- repository stands here.
pub mod RoundTrip
use wtransport.Prelude.{
  ℕ, ◌%◌, ◌≤◌, ◌≡◌, List, [], ◌++◌, Option, none, some, Result, ok, err, ◌==◌, if◌then◌else◌,
  length, split_at, IsBytes,
}
use wtransport.VarInt.{IsVarInt, varint_max}
use wtransport.Ids.SessionId.{SessionId}
use wtransport.Ids.Laws.{IsSessionId}
use wtransport.Quic.Encoding.{encode, decode}
use wtransport.Bytes.Reader.Decoded.{Decoded, decode_then}
use wtransport.Frame.{Frame, FrameReadError, unknown_frame, invalid_session_id}
use wtransport.Frame.Kind
use wtransport.Frame.Kind.{FrameKind, webtransport, is_webtransport}
use wtransport.Frame.Kind.Laws.{IsKind}

abbrev pub session_frame : ℕ → Frame
session_frame v = record {
  kind = webtransport;
  payload = [];
  session_id = some (record { session_stream = record { varint = v } });
}

abbrev pub payload_frame : FrameKind → List ℕ → Frame
payload_frame kind payload = record { kind = kind; payload = payload; session_id = none }

-- After the type: a session id, which is a multiple of four, or a length and as many bytes.
unfoldable pub decode_body : Option FrameKind → List ℕ → Decoded (Result Frame FrameReadError)
decode_body none bs = some (err unknown_frame, bs)
decode_body (some kind) bs =
    if is_webtransport kind
    then (decode_then (decode bs) λ v rest.
        some ((if v % 4 == 0 then ok (session_frame v) else err invalid_session_id), rest))
    else (decode_then (decode bs) λ n rest.
        decode_then (split_at n rest)
          λ payload rest'. some (ok (payload_frame kind payload), rest'))

unfoldable pub decode_frame : List ℕ → Decoded (Result Frame FrameReadError)
decode_frame bs = decode_then (decode bs) λ kind_id rest. decode_body (Kind.parse kind_id) rest

-- A WebTransport frame is a session id alone, any other frame a payload alone.
abbrev pub Shape : FrameKind → List ℕ → Option SessionId → Type 0
Shape webtransport payload session_id =
    (payload ≡ []) × ((s : SessionId) × (session_id ≡ some s) × IsSessionId s)
Shape _ payload session_id = session_id ≡ none

pub record IsFrame (f : Frame) : Type 0 where
  pub kind_ok : IsKind f.kind
  pub short : length f.payload ≤ varint_max
  pub shape : Shape f.kind f.payload f.session_id

abbrev pub body_bytes : List ℕ → Option SessionId → List ℕ
body_bytes payload (some s) = encode s.session_stream.varint
body_bytes payload none = encode (length payload) ++ payload

unfoldable pub wire : Frame → List ℕ
wire f = encode (Kind.id f.kind) ++ body_bytes f.payload f.session_id
