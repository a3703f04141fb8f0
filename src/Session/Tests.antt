-- ===== src/Session/Tests.antt =====
-- Tests of the requests for a session, on a table of two header lists that stands for `ls_qpack`.
use Prim.Native.String.{String}
use wtransport.Prelude.{
  ℕ, zero, suc, ◌≡◌, ◌⊎◌, ◌↔◌, refl, arith, inl, inr, List, [], ◌∷◌, Option, none, some, Result, ok,
  err, done,
}
use wtransport.ErrorCode.{message}
use wtransport.Quic.Encoding.{encode}
use wtransport.Quic.Octets.Cursor.{cursor, cursor-OctetsLaws}
use wtransport.Quic.Qpack.{Qpack, DecoderOutput, decoded, Unblocked, Codes}
use wtransport.Quic.Streams.{Quinn}
use wtransport.Quic.Streams.Feeds
use wtransport.Bytes.Async.Feed.{content_bytes, feed_source, vec_async, vec_sink}
use wtransport.Bytes.Async.Write.{put_varint_async, put_buffer_async}
use wtransport.Frame.{new, new_headers}
use wtransport.Frame.Async.{write_async}
use wtransport.Headers
use wtransport.Headers.Laws.{headers_frame}
use wtransport.Stream.{Stream, Raw, H3, TwoWay}
use wtransport.Stream.BiLocal
use wtransport.Stream.BiRemote
use wtransport.Session.{
  SessionError, Session, SessionRemoteRequest, SessionRemoteResponse, closing, request_headers,
  response_headers, validate_request, request, accept, confirm,
}
use wtransport.Session.Validation.{validate_request_iff}
use wtransport.Session.Confirming.{confirm-Ended}
use wtransport.Session.Established.{request_arrives, response_confirms}

abbrev pub feeds : Quinn
feeds = Feeds.feeds 4

abbrev table_decode : List ℕ → Option DecoderOutput
unfolding request_headers response_headers
table_decode [] = none
table_decode (zero ∷ bs) = some (decoded request_headers)
table_decode (suc n ∷ bs) = some (decoded response_headers)

abbrev table_encode : Option String → Option (List ℕ × List ℕ)
table_encode none = some (1 ∷ [], [])
table_encode (some method) = some (0 ∷ [], [])

unfoldable pub table : Qpack
unfolding table_decode Headers.get
table = record {
  decode = λ id bs. table_decode bs;
  encode_all = λ id hs. table_encode (Headers.get ":method" hs);
}

abbrev pub two_way : List ℕ → List ℕ → Stream (TwoWay feeds) H3
two_way sent content = record {
  kind = record { send = sent; recv = record { content = content; naps = 1 } };
  stage = record { header = none };
}

validate_request_iff_example :
    ((validate_request [] ≡ ok tt) ↔ (
      (Headers.get ":method" [] ≡ some "CONNECT")
      × (Headers.get ":protocol" [] ≡ some "webtransport")
      × (Headers.get ":scheme" [] ≡ some "https")))
    × ((validate_request [] ≡ ok tt)
        ⊎ ((reason : String) × (validate_request [] ≡ err (closing message reason))))
validate_request_iff_example = validate_request_iff []

pub unblocked : Unblocked table
unfolding table
unblocked id [] = inl refl
unblocked id (zero ∷ bs) = inr (request_headers, refl)
unblocked id (suc n ∷ bs) = inr (response_headers, refl)

confirm-Ended_example :
    (x : Result (Session feeds) SessionError) × (confirm feeds cursor table 2 5
        (two_way [] (1 ∷ 1 ∷ 1 ∷ []))
      ≡ done (some x))
confirm-Ended_example =
    confirm-Ended feeds cursor cursor-OctetsLaws table 2 feed_source 5 (two_way [] (1 ∷ 1 ∷ 1 ∷ []))
      unblocked (omega arith) (omega arith) (omega arith)

abbrev requested : SessionRemoteResponse feeds
requested = record { stream = two_way (1 ∷ 1 ∷ 0 ∷ []) [] }

requests : request feeds cursor table 2 (two_way [] []) ≡ done (some (ok requested))
unfolding request BiLocal.write_frame Headers.generate_frame new_headers new write_async
    put_varint_async put_buffer_async vec_async encode table request_headers Headers.get
    Headers.insert Headers.from_iter
requests = refl

pub request-Codes : Codes table 4 request_headers (0 ∷ [])
unfolding table request_headers Headers.from_iter Headers.insert Headers.get
request-Codes = record { encodes = refl; decodes = refl; short = omega arith }

request_arrives_example :
    (t' : Stream (TwoWay feeds) H3) × (BiRemote.read_frame feeds cursor 2
        (two_way [] (1 ∷ 1 ∷ 0 ∷ 9 ∷ []))
      ≡ done (some (ok (headers_frame (0 ∷ [])), t')))
    × (Headers.with_frame table (headers_frame (0 ∷ [])) (record { varint = 4 })
        ≡ done (ok request_headers))
    × (validate_request request_headers ≡ ok tt)
    × (content_bytes t'.kind.recv.content ≡ 9 ∷ [])
unfolding vec_sink
request_arrives_example =
    request_arrives feeds cursor cursor-OctetsLaws table 2 vec_sink feed_source (two_way [] [])
      requested (two_way [] (1 ∷ 1 ∷ 0 ∷ 9 ∷ [])) (0 ∷ []) (9 ∷ []) (omega arith) refl request-Codes
      (omega arith) refl requests (omega arith) refl

abbrev asked : SessionRemoteRequest feeds
unfolding request_headers
asked = record { stream = two_way [] []; headers = request_headers }

abbrev established : Session feeds
established = record {
  stream = record {
    kind = record { send = 1 ∷ 1 ∷ 1 ∷ []; recv = record { content = []; naps = 1 } };
    stage = Raw.raw;
  };
}

accepts : accept feeds cursor table 2 asked ≡ done (some (ok established))
unfolding accept asked BiRemote.write_frame Headers.generate_frame new_headers new write_async
    put_varint_async put_buffer_async vec_async encode table request_headers response_headers
    Headers.get Headers.insert Headers.from_iter
accepts = refl

pub response-Codes : Codes table 4 response_headers (1 ∷ [])
unfolding table response_headers Headers.from_iter Headers.insert Headers.get
response-Codes = record { encodes = refl; decodes = refl; short = omega arith }

response_confirms_example :
    (u : Stream (TwoWay feeds) H3) × (confirm feeds cursor table 2 1
        (two_way (1 ∷ 1 ∷ 0 ∷ []) (1 ∷ 1 ∷ 1 ∷ 7 ∷ []))
      ≡ done (some (ok (record { stream = BiLocal.normalize feeds u }))))
    × (u.kind.send ≡ 1 ∷ 1 ∷ 0 ∷ [])
    × (content_bytes u.kind.recv.content ≡ 7 ∷ [])
unfolding vec_sink asked
response_confirms_example =
    response_confirms feeds cursor cursor-OctetsLaws table 2 vec_sink feed_source asked established
      (two_way (1 ∷ 1 ∷ 0 ∷ []) (1 ∷ 1 ∷ 1 ∷ 7 ∷ [])) (1 ∷ []) (7 ∷ []) 0 (omega arith) refl
      response-Codes (omega arith) refl accepts (omega arith) refl
