-- ===== src/StreamHeader/Async/Tests.antt =====
-- Tests of `StreamHeader::read_async` and `StreamHeader::write_async`.
use wtransport.Prelude.{[], ◌∷◌, none}
use wtransport.Bytes.Async.Feed.{Feed}
use wtransport.StreamHeader.{StreamHeader}
use wtransport.StreamHeader.Kind.{control}

abbrev plain : StreamHeader
plain = record { kind = control; session_id = none }

abbrev sleepy : Feed
sleepy = record { content = 64 ∷ 84 ∷ 5 ∷ []; naps = 2 }
