-- ===== src/StreamHeader/Wire.antt =====
-- The format of a stream header, by RFC 9114 and the WebTransport draft: the reference to which
-- `read` and `write` are held; no code of the repository stands here.
pub mod RoundTrip
use wtransport.Prelude.{
  ℕ, ◌%◌, ◌≡◌, List, [], ◌++◌, Option, none, some, Result, ok, err, ◌==◌, if◌then◌else◌,
}
use wtransport.Ids.SessionId.{SessionId}
use wtransport.Ids.Laws.{IsSessionId}
use wtransport.Quic.Encoding.{encode, decode}
use wtransport.Bytes.Reader.Decoded.{Decoded, decode_then}
use wtransport.StreamHeader.{
  StreamHeader, StreamHeaderReadError, unknown_stream, invalid_session_id,
}
use wtransport.StreamHeader.Kind
use wtransport.StreamHeader.Kind.{StreamKind, webtransport, is_webtransport}
use wtransport.StreamHeader.Kind.Laws.{IsKind}

abbrev pub session_header : ℕ → StreamHeader
session_header v = record {
  kind = webtransport;
  session_id = some (record { session_stream = record { varint = v } });
}

abbrev pub plain_header : StreamKind → StreamHeader
plain_header kind = record { kind = kind; session_id = none }

-- After the type comes a session id, a multiple of four, where the type says so.
unfoldable pub decode_rest :
    Option StreamKind → List ℕ → Decoded (Result StreamHeader StreamHeaderReadError)
decode_rest none bs = some (err unknown_stream, bs)
decode_rest (some kind) bs =
    if is_webtransport kind
    then (decode_then (decode bs) λ v rest.
        some ((if v % 4 == 0 then ok (session_header v) else err invalid_session_id), rest))
    else some (ok (plain_header kind), bs)

unfoldable pub decode_header : List ℕ → Decoded (Result StreamHeader StreamHeaderReadError)
decode_header bs = decode_then (decode bs) λ kind_id rest. decode_rest (Kind.parse kind_id) rest

abbrev pub Shape : StreamKind → Option SessionId → Type 0
Shape webtransport session_id = (s : SessionId) × (session_id ≡ some s) × IsSessionId s
Shape _ session_id = session_id ≡ none

pub record IsHeader (h : StreamHeader) : Type 0 where
  pub kind_ok : IsKind h.kind
  pub shape : Shape h.kind h.session_id

abbrev pub session_bytes : Option SessionId → List ℕ
session_bytes (some s) = encode s.session_stream.varint
session_bytes none = []

unfoldable pub wire : StreamHeader → List ℕ
wire h = encode (Kind.id h.kind) ++ session_bytes h.session_id
