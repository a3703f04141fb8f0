-- ===== src/Quic/Streams/Feeds.antt =====
-- Streams that stand for those of `quinn` in the tests: their bytes come one at a time, what is
-- written is kept, and they have a given id.
use wtransport.Prelude.{ℕ, List}
use wtransport.Quic.Streams.{Quinn}
use wtransport.Bytes.Async.Feed.{Feed, feed_reader, vec_async}

abbrev pub feeds : ℕ → Quinn
feeds id = record {
  Send = List ℕ;
  writer = vec_async;
  send_id = λ w. id;
  Recv = Feed;
  reader = feed_reader;
  recv_id = λ r. id;
  stop = λ code r. r;
}
