-- ===== src/Connection/Tests.antt =====
-- Runs of a connection attempt and of its streams.
use wtransport.Prelude.{◌≡◌, refl, arith, ℕ, [], ◌∷◌, List, none, some, ok, done, Result, err}
use wtransport.Quic.Encoding.{encode, decode}
use wtransport.Quic.Octets.Cursor.{cursor, cursor-OctetsLaws}
use wtransport.Bytes.Async.Feed.{content_bytes, feed_source, vec_async, vec_sink}
use wtransport.Bytes.Async.Write.{put_varint_async, put_buffer_async}
use wtransport.Bytes.Buffer
use wtransport.Frame.{Frame, new, new_headers}
use wtransport.Frame.Async.{write_async}
use wtransport.Headers
use wtransport.Headers.Laws.{headers_frame}
use wtransport.Ids.SessionId.{SessionId}
use wtransport.Stream.{Stream, Raw, H3, TwoWay}
use wtransport.Stream.BiLocal
use wtransport.Stream.BiRemote
use wtransport.Session.{
  Session, SessionRemoteRequest, SessionRemoteResponse, request, request_headers, response_headers,
  accept,
}
use wtransport.Session.Tests.{feeds, table, two_way, unblocked, request-Codes, response-Codes}
use wtransport.Worker.{remote_closed}
use wtransport.Worker.Accept.{permit, to_h3, process_inc_bi}
use wtransport.Worker.Requests.{requested, handle_new_h3_bi}
use wtransport.ConnectionError.{timed_out}
use wtransport.Engine.{remote_settings}
use wtransport.Worker.Accept.{to_wt}
use wtransport.Ids.SessionId
use wtransport.Session as Session
use wtransport.Stream.{Wt}
use wtransport.Stream.UniLocal.{uni_local_raw}
use wtransport.Stream.UniRemote
use wtransport.Stream.UniRemote.{UniRemote, uni_remote_raw}
use wtransport.Stream.App.{RecvStream}
use wtransport.Ids.QStreamId
use wtransport.Datagram as H3
use wtransport.Datagram.App as App
use wtransport.Datagram.App.{Datagram}
use wtransport.ConnectionError.{QuinnSendDatagramError, DatagramError}
use wtransport.Engine.Laws.{arriving}
use wtransport.Connection.Datagrams.{Told, datagram_arrives}
use wtransport.Connection.{send_datagram, receive_datagram}
use wtransport.Connection.Opened.{uni_stream_arrives, bi_stream_arrives}
use wtransport.Connection.{
  Connection, connect_as_server, connect_as_client, session_id, open_uni, open_bi, accept_uni,
  accept_bi,
}
use wtransport.Connection.Established.{session_of, connection_established}
use wtransport.Connection.Closes.{Concluded}
use wtransport.Connection.Concludes.{connect_as_server-Concluded, connect_as_client-Concluded}

abbrev streams : List ℕ → List ℕ → ℕ → TwoWay feeds
streams sent content naps = record { send = sent; recv = record { content = content; naps = naps } }

-- The client's stream, on which the answer will come.
abbrev opened : Stream (TwoWay feeds) Raw
opened = record { kind = streams [] (1 ∷ 1 ∷ 1 ∷ 7 ∷ []) 1; stage = Raw.raw }

abbrev sent : SessionRemoteResponse feeds
sent = record { stream = two_way (1 ∷ 1 ∷ 0 ∷ []) (1 ∷ 1 ∷ 1 ∷ 7 ∷ []) }

requests : request feeds cursor table 2 (BiLocal.upgrade feeds opened) ≡ done (some (ok sent))
unfolding request BiLocal.write_frame BiLocal.upgrade Headers.generate_frame new_headers new
    write_async put_varint_async put_buffer_async vec_async encode table request_headers Headers.get
    Headers.insert Headers.from_iter
requests = refl

-- The server's end of it, behind the request.
abbrev behind : Stream (TwoWay feeds) H3
behind = record { kind = streams [] (9 ∷ []) 0; stage = record { header = none } }

abbrev established : Session feeds
established = record {
  stream = record { kind = streams (1 ∷ 1 ∷ 1 ∷ []) (9 ∷ []) 0; stage = Raw.raw };
}

accepts :
    accept feeds cursor table 2 (record { stream = behind; headers = request_headers })
    ≡ done (some (ok established))
unfolding accept BiRemote.write_frame Headers.generate_frame new_headers new write_async
    put_varint_async put_buffer_async vec_async encode table request_headers response_headers
    Headers.get Headers.insert Headers.from_iter
accepts = refl

settled : remote_settings {E = Unit {0}} remote_closed (some []) [] ≡ some (ok [])
unfolding remote_settings
settled = refl

reads :
    BiRemote.read_frame feeds cursor 2 (two_way [] (1 ∷ 1 ∷ 0 ∷ 9 ∷ []))
    ≡ done (some (ok (headers_frame (0 ∷ [])), behind))
unfolding BiRemote.read_frame Buffer.get_varint decode Buffer.new
reads = refl

connection_established_example :
    (session' : Session feeds) × (process_inc_bi (ok (headers_frame (0 ∷ [])))
      ≡ done (to_h3 (headers_frame (0 ∷ []))))
    × (handle_new_h3_bi feeds table behind (headers_frame (0 ∷ [])) permit
        ≡ done (ok (requested (record { stream = behind; headers = request_headers }))))
    × (connect_as_server feeds cursor table 2 remote_closed none {E = Unit {0}}
          (ok tt)
          (some [])
          []
          (some (some (record { stream = behind; headers = request_headers })))
        ≡ done (some (ok (record { session = established }), [])))
    × (connect_as_client feeds cursor table 2 remote_closed none {E = Unit {0}} 1
          (ok tt)
          (some [])
          []
          (some opened)
        ≡ done (some (ok (record { session = session' }), [])))
    × (session_id feeds (record { session = established }) ≡ done (session_of 4))
    × (session_id feeds (record { session = session' }) ≡ done (session_of 4))
unfolding vec_sink BiLocal.upgrade
connection_established_example =
    connection_established feeds cursor cursor-OctetsLaws table 2 vec_sink feed_source remote_closed
      remote_closed none none (some []) (some []) [] [] [] [] 0 opened sent
      (two_way [] (1 ∷ 1 ∷ 0 ∷ 9 ∷ [])) behind (headers_frame (0 ∷ [])) established (0 ∷ [])
      (1 ∷ []) (9 ∷ []) (7 ∷ []) (record { in_range = omega arith; quarter = refl }) refl refl refl
      request-Codes response-Codes settled settled (omega arith) refl requests (omega arith) refl
      reads (omega arith) refl accepts (omega arith) refl

connect_as_server-Concluded_example : Concluded feeds (ok tt) (
    connect_as_server feeds cursor table 2 remote_closed
      (some timed_out)
      {E = Unit {0}}
      (ok tt)
      (some [])
      []
      (some (some (record { stream = behind; headers = [] }))))
unfolding vec_sink
connect_as_server-Concluded_example =
    connect_as_server-Concluded feeds cursor cursor-OctetsLaws table 2 vec_sink feed_source
      remote_closed (some timed_out) tt (λ w. omega arith) (ok tt) (some []) [] (ok [])
      (some (record { stream = behind; headers = [] })) tt settled
      ((1 ∷ [], response-Codes), omega arith)

connect_as_client-Concluded_example : Concluded feeds (ok tt) (
    connect_as_client feeds cursor table 2 remote_closed
      (some timed_out)
      {E = Unit {0}}
      9
      (ok tt)
      (some [])
      []
      (some opened))
unfolding vec_sink
connect_as_client-Concluded_example =
    connect_as_client-Concluded feeds cursor cursor-OctetsLaws table 2 vec_sink feed_source
      remote_closed (some timed_out) tt (λ w. omega arith) (ok tt) (some []) [] (ok []) 9 opened
      (0 ∷ []) tt settled unblocked request-Codes (omega arith) (omega arith) (omega arith)

abbrev connection : Connection feeds
connection = record { session = established }

knows_id : session_id feeds connection ≡ done (session_of 4)
unfolding session_id Session.id BiLocal.bi_id SessionId.from_session_stream_unchecked
knows_id = refl

opens_uni :
    open_uni feeds cursor table 2 remote_closed none connection (some (uni_local_raw feeds []))
    ≡ done (some (ok (record { stream = 64 ∷ 84 ∷ 4 ∷ [] }), []))
unfolding open_uni encode vec_async uni_local_raw
opens_uni = refl

uni_stream_arrives_example :
    (t : Stream (UniRemote feeds) H3) × (wt : Stream (UniRemote feeds) Wt) × (recv : RecvStream
      feeds)
    × (UniRemote.upgrade feeds cursor 2
          (uni_remote_raw feeds (record { content = 64 ∷ 84 ∷ 4 ∷ 7 ∷ []; naps = 1 }))
        ≡ done (some (ok t)))
    × (UniRemote.upgrade_wt feeds t ≡ done wt)
    × (wt.stage.session_id ≡ session_of 4)
    × (accept_uni feeds cursor table 2 remote_closed none (some wt) ≡ done (some (ok recv, [])))
    × (content_bytes recv.stream.content ≡ 7 ∷ [])
unfolding vec_sink
uni_stream_arrives_example =
    uni_stream_arrives feeds cursor cursor-OctetsLaws table 2 vec_sink feed_source remote_closed
      none connection (session_of 4) [] (record { stream = 64 ∷ 84 ∷ 4 ∷ [] })
      (record { content = 64 ∷ 84 ∷ 4 ∷ 7 ∷ []; naps = 1 }) (7 ∷ []) remote_closed none knows_id
      (record { in_range = omega arith; quarter = refl }) (omega arith) refl opens_uni (omega arith)
      refl

abbrev fresh : Stream (TwoWay feeds) Raw
fresh = record { kind = streams [] [] 0; stage = Raw.raw }

abbrev arrived : Stream (TwoWay feeds) Raw
arrived = record { kind = streams [] (64 ∷ 65 ∷ 4 ∷ 7 ∷ []) 1; stage = Raw.raw }

opens_bi :
    open_bi feeds cursor table 2 remote_closed none connection (some fresh)
    ≡ done (
        some (
          ok (
            record { stream = 64 ∷ 65 ∷ 4 ∷ [] },
            record { stream = record { content = []; naps = 0 } },
          ),
          [],
        ))
unfolding open_bi encode vec_async
opens_bi = refl

bi_stream_arrives_example :
    (f : Frame) × (t' : Stream (TwoWay feeds) H3) × (recv : RecvStream feeds) × (BiRemote.read_frame
        feeds cursor 2
        (BiRemote.upgrade feeds arrived)
      ≡ done (some (ok f, t')))
    × (process_inc_bi (ok f) ≡ done (to_wt (session_of 4)))
    × (accept_bi feeds cursor table 2 remote_closed none
          (some (BiRemote.upgrade_wt feeds (session_of 4) t'))
        ≡ done (some (ok (record { stream = [] }, recv), [])))
    × (content_bytes recv.stream.content ≡ 7 ∷ [])
unfolding vec_sink
bi_stream_arrives_example =
    bi_stream_arrives feeds cursor cursor-OctetsLaws table 2 vec_sink feed_source remote_closed none
      connection (session_of 4) fresh
      (record { stream = 64 ∷ 65 ∷ 4 ∷ [] }, record { stream = record { content = []; naps = 0 } })
      arrived (7 ∷ []) remote_closed none knows_id
      (record { in_range = omega arith; quarter = refl }) (omega arith) refl opens_bi (omega arith)
      refl

abbrev theirs : Datagram
theirs = record { quic_dgram = 2 ∷ 9 ∷ []; payload_offset = 1 }

writes_theirs : App.write cursor (session_of 8) (9 ∷ []) ≡ done theirs
unfolding App.write H3.write H3.write_size encode QStreamId.from_session_id
writes_theirs = refl

abbrev unsupported : List ℕ → Result (Unit {0}) QuinnSendDatagramError
unsupported dgram = err QuinnSendDatagramError.unsupported_by_peer

datagram_arrives_example :
    (d : Datagram) × (r : Result (Unit {0}) DatagramError) × (send_datagram feeds cursor table 2
        remote_closed none connection unsupported
        (7 ∷ [])
      ≡ done r)
    × Told (unsupported d.quic_dgram) r
    × (receive_datagram feeds cursor table 2 remote_closed none connection
          (arriving ((2 ∷ 9 ∷ []) ∷ []) (ok d.quic_dgram ∷ err tt ∷ []))
        ≡ done (some (ok d, [])))
    × (App.deref d ≡ done (7 ∷ []))
datagram_arrives_example =
    datagram_arrives feeds cursor cursor-OctetsLaws table 2 remote_closed none connection connection
      (session_of 4) (7 ∷ []) ((2 ∷ 9 ∷ []) ∷ []) (err tt ∷ []) unsupported knows_id knows_id
      (record { in_range = omega arith; quarter = refl })
      (
        (
          session_of 8,
          9 ∷ [],
          theirs,
          record { in_range = omega arith; quarter = refl },
          refl,
          writes_theirs,
          refl,
        ),
        tt,
      )
