-- ===== src/Worker/Connects/Tests.antt =====
-- Tests of bidirectional streams between two ends.
use wtransport.Prelude.{◌≡◌, refl, [], ◌∷◌, none, some, ok, done, arith, length, List, ℕ}
use wtransport.Ids.SessionId.{SessionId}
use wtransport.Quic.Encoding.{encode}
use wtransport.Quic.Octets.Cursor.{cursor, cursor-OctetsLaws}
use wtransport.Quic.Streams.{Quinn}
use wtransport.Bytes.Async.Feed.{Feed, content_bytes, feed_reader, feed_source, vec_async, vec_sink}
use wtransport.Bytes.Async.Write.{put_varint_async}
use wtransport.Frame.{Frame, new, new_webtransport}
use wtransport.Frame.Async.{write_async}
use wtransport.Stream.{Stream, H3, Wt, TwoWay}
use wtransport.Stream.BiLocal
use wtransport.Stream.BiRemote
use wtransport.Worker.Accept.{process_inc_bi, to_wt}
use wtransport.Worker.Connects.{bi_session_connects}

abbrev feeds : Quinn
feeds = record {
  Send = List ℕ;
  writer = vec_async;
  send_id = length;
  Recv = Feed;
  reader = feed_reader;
  recv_id = λ r. r.naps;
  stop = λ code r. r;
}

abbrev fourth : SessionId
fourth = record { session_stream = record { varint = 4 } }

abbrev two_way : List ℕ → List ℕ → Stream (TwoWay feeds) H3
two_way sent content = record {
  kind = record { send = sent; recv = record { content = content; naps = 1 } };
  stage = record { header = none };
}

abbrev upgraded : Stream (TwoWay feeds) Wt
upgraded = record {
  kind = record { send = 64 ∷ 65 ∷ 4 ∷ []; recv = record { content = []; naps = 1 } };
  stage = record { session_id = fourth };
}

upgrades : BiLocal.upgrade_wt feeds cursor 2 fourth (two_way [] []) ≡ done (some (ok upgraded))
unfolding BiLocal.upgrade_wt new_webtransport new write_async put_varint_async vec_async encode
upgrades = refl

bi_session_connects_example :
    (f : Frame) × (t : Stream (TwoWay feeds) H3) × (BiRemote.read_frame feeds cursor 2
        (two_way [] (64 ∷ 65 ∷ 4 ∷ 8 ∷ []))
      ≡ done (some (ok f, t)))
    × (process_inc_bi (ok f) ≡ done (to_wt fourth))
    × (content_bytes t.kind.recv.content ≡ 8 ∷ [])
unfolding vec_sink
bi_session_connects_example =
    bi_session_connects feeds cursor cursor-OctetsLaws 2 vec_sink feed_source fourth (two_way [] [])
      upgraded (two_way [] (64 ∷ 65 ∷ 4 ∷ 8 ∷ [])) (8 ∷ [])
      (record { in_range = omega arith; quarter = refl }) (omega arith) refl upgrades (omega arith)
      refl
