-- ===== src/Frame/Async/Tests.antt =====
-- Tests of `Frame::read_async` and `Frame::write_async`.
use wtransport.Prelude.{[], ◌∷◌, none, refl, arith}
use wtransport.Quic.Octets.Cursor.{cursor, cursor-OctetsLaws}
use wtransport.Bytes.Async.Chain.Found.{Found}
use wtransport.Bytes.Async.Write.Sink.{Sent}
use wtransport.Bytes.Async.Feed.{Feed, feed_reader, feed_source, vec_async, vec_sink}
use wtransport.Frame.{Frame}
use wtransport.Frame.Kind.{headers}
use wtransport.Frame.Wire.{decode_frame, wire}
use wtransport.Frame.Async.{frame, io, read_async, write_async}
use wtransport.Frame.Async.Reading.{read_async-Found}
use wtransport.Frame.Async.Writing.{write_async-Sends}

abbrev two_bytes : Frame
two_bytes = record { kind = headers; payload = 7 ∷ 8 ∷ []; session_id = none }

abbrev sleepy : Feed
sleepy = record { content = 1 ∷ 2 ∷ 7 ∷ 8 ∷ 9 ∷ []; naps = 2 }

read_async-Found_example :
    Found feed_source io frame sleepy
      (read_async cursor feed_reader 3 sleepy)
      (decode_frame (1 ∷ 2 ∷ 7 ∷ 8 ∷ 9 ∷ []))
read_async-Found_example =
    read_async-Found cursor cursor-OctetsLaws feed_source 3 sleepy (omega arith)

write_async-Sends_example :
    Sent vec_sink (5 ∷ []) (wire two_bytes) (write_async cursor vec_async 1 two_bytes (5 ∷ []))
unfolding vec_sink
write_async-Sends_example =
    write_async-Sends cursor cursor-OctetsLaws vec_sink 1 two_bytes (5 ∷ [])
      (record { kind_ok = tt; short = omega arith; shape = refl }) (omega arith)
