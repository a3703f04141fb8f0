-- ===== src/Stream/Tests.antt =====
-- Tests of the two ends of a connection, over a source that gives a byte at a time and a vector.
use wtransport.Prelude.{◌≡◌, refl, ℕ, List, [], ◌∷◌, none, some, ok, err, done, length, arith}
use wtransport.Ids.SessionId.{SessionId}
use wtransport.Quic.Encoding.{encode, decode}
use wtransport.Quic.Octets.Cursor.{cursor, cursor-OctetsLaws}
use wtransport.Quic.Streams.{Quinn}
use wtransport.Ids.Laws.{IsSessionId}
use wtransport.Frame.{Frame}
use wtransport.Frame.Kind.{data_frame}
use wtransport.Frame.Async.{write_async}
use wtransport.Bytes.Buffer
use wtransport.StreamHeader.Wire.{decode_header}
use wtransport.Bytes.Async.Feed.{Feed, content_bytes, feed_reader, feed_source, vec_async, vec_sink}
use wtransport.Bytes.Async.Write.{put_varint_async, put_buffer_async}
use wtransport.StreamHeader.{StreamHeader}
use wtransport.StreamHeader.Kind.{webtransport}
use wtransport.Stream.{Stream, H3, TwoWay}
use wtransport.Stream.Errors.{UpgradeError}
use wtransport.Stream.Laws.{Upgraded, uni_upgrade-Upgraded}
use wtransport.Stream.Connected.{session_connects}
use wtransport.Stream.UniLocal
use wtransport.Stream.UniLocal.{UniLocal, uni_local_raw}
use wtransport.Stream.UniRemote
use wtransport.Stream.UniRemote.{UniRemote, uni_remote_raw}

abbrev feeds : Quinn
feeds = record {
  Send = List ℕ;
  writer = vec_async;
  send_id = length;
  Recv = Feed;
  reader = feed_reader;
  recv_id = λ r. r.naps;
  stop = λ code r. r;
}

abbrev fourth : SessionId
fourth = record { session_stream = record { varint = 4 } }

abbrev session_header : StreamHeader
session_header = record { kind = webtransport; session_id = some fourth }

abbrev opened : Stream (UniLocal feeds) H3
opened = record {
  kind = record { send = 64 ∷ 84 ∷ 4 ∷ [] };
  stage = record { header = some session_header };
}

opens :
    UniLocal.upgrade feeds cursor 3 session_header (uni_local_raw feeds [])
    ≡ done (some (ok opened))
unfolding UniLocal.upgrade uni_local_raw put_varint_async vec_async encode
opens = refl

abbrev arriving : Feed
arriving = record { content = 64 ∷ 84 ∷ 4 ∷ 7 ∷ []; naps = 2 }

fourth-IsSessionId : IsSessionId fourth
fourth-IsSessionId = record { in_range = omega arith; quarter = refl }

-- A push stream, whose type is not known here.
abbrev pushed : Feed
pushed = record { content = 1 ∷ 7 ∷ []; naps = 2 }

uni_upgrade-Upgraded_example :
    Upgraded feeds cursor cursor-OctetsLaws 3 feed_source pushed
      (UniRemote.upgrade feeds cursor 3 (uni_remote_raw feeds pushed))
      (decode_header (1 ∷ 7 ∷ []))
uni_upgrade-Upgraded_example =
    uni_upgrade-Upgraded feeds cursor cursor-OctetsLaws 3 feed_source pushed (omega arith)

refuses_pushed :
    UniRemote.upgrade feeds cursor 3 (uni_remote_raw feeds pushed)
    ≡ done (some (err UpgradeError.unknown_stream))
unfolding UniRemote.upgrade uni_remote_raw decode Buffer.get_varint Buffer.new
refuses_pushed = refl

-- A header that ends before its session id, on a stream that was finished.
cut_off :
    UniRemote.upgrade feeds cursor 3
      (uni_remote_raw feeds (record { content = 64 ∷ 84 ∷ []; naps = 1 }))
    ≡ done (some (err UpgradeError.end_of_stream))
unfolding UniRemote.upgrade uni_remote_raw decode Buffer.get_varint Buffer.new
cut_off = refl

session_connects_example :
    (t : Stream (UniRemote feeds) H3) × (UniRemote.upgrade feeds cursor 3
        (uni_remote_raw feeds arriving)
      ≡ done (some (ok t)))
    × (UniRemote.upgrade_wt feeds t
        ≡ done (record { kind = t.kind; stage = record { session_id = fourth } }))
    × (UniLocal.upgrade_wt feeds opened
        ≡ done (record { kind = opened.kind; stage = record { session_id = fourth } }))
    × (content_bytes t.kind.recv.content ≡ 7 ∷ [])
unfolding vec_sink
session_connects_example =
    session_connects feeds cursor cursor-OctetsLaws 3 vec_sink feed_source fourth [] opened arriving
      (7 ∷ []) fourth-IsSessionId (omega arith) refl opens (omega arith) refl

abbrev greeting : Frame
greeting = record { kind = data_frame; payload = 9 ∷ []; session_id = none }

abbrev receiving : Stream (TwoWay feeds) H3
receiving = record {
  kind = record { send = []; recv = record { content = 0 ∷ 1 ∷ 9 ∷ 8 ∷ []; naps = 1 } };
  stage = record { header = none };
}

writes : write_async cursor vec_async 3 greeting [] ≡ done (some (ok tt, 0 ∷ 1 ∷ 9 ∷ []))
unfolding write_async put_varint_async put_buffer_async vec_async encode
writes = refl
