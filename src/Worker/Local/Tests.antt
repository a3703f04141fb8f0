-- ===== src/Worker/Local/Tests.antt =====
-- Tests of the control stream that this side opens.
use wtransport.Prelude.{ℕ, ◌≡◌, refl, arith, List, [], ◌∷◌, ◌++◌, none, some, ok, done}
use wtransport.VarInt.{from_u32}
use wtransport.Quic.Encoding.{encode}
use wtransport.Quic.Octets.Cursor.{cursor, cursor-OctetsLaws}
use wtransport.Quic.Streams.{Quinn}
use wtransport.Quic.Streams.Feeds
use wtransport.Bytes.Async.Feed.{Feed, content_bytes, feed_source, vec_async, vec_sink}
use wtransport.Bytes.Async.Write.{put_varint_async, put_buffer_async}
use wtransport.Frame.{Frame, new, new_settings}
use wtransport.Frame.Async.{write_async}
use wtransport.Settings.{generate_frame, with_frame}
use wtransport.Settings.Setting.{id}
use wtransport.StreamHeader.{StreamHeader, new_control}
use wtransport.StreamHeader as Header
use wtransport.StreamHeader.Async as HeaderAsync
use wtransport.StreamHeader.Kind.{control}
use wtransport.Stream.{Stream, H3}
use wtransport.Stream.UniLocal
use wtransport.Stream.UniLocal.{UniLocal}
use wtransport.Stream.UniRemote
use wtransport.Stream.UniRemote.{UniRemote, uni_remote_raw}
use wtransport.Worker.Local.{local_settings, on_ready_connection}
use wtransport.Worker.Local.Laws.{settings_arrive}

abbrev feeds : Quinn
feeds = Feeds.feeds 3

abbrev control_header : StreamHeader
control_header = record { kind = control; session_id = none }

-- The header, then the type, the length and the four settings of the frame.
abbrev sent : List ℕ
sent = 0 ∷ 4 ∷ 14 ∷ 1 ∷ 0 ∷ 7 ∷ 0 ∷ 171 ∷ 96 ∷ 55 ∷ 66 ∷ 1 ∷ 128 ∷ 255 ∷ 210 ∷ 119 ∷ 1 ∷ []

abbrev ready : Stream (UniLocal feeds) H3
ready = record { kind = record { send = sent }; stage = record { header = some control_header } }

readies : on_ready_connection feeds cursor 2 {E = Unit {0}} (ok []) ≡ done (some (ok ready))
unfolding on_ready_connection UniLocal.open_uni UniLocal.upgrade UniLocal.write_frame new_control
    Header.new HeaderAsync.write_async generate_frame new_settings new write_async put_varint_async
    put_buffer_async vec_async encode local_settings from_u32 id
readies = refl

abbrev arriving : Feed
arriving = record { content = sent ++ (33 ∷ []); naps = 1 }

settings_arrive_example :
    (t : Stream (UniRemote feeds) H3) × (t' : Stream (UniRemote feeds) H3) × (f : Frame)
    × (UniRemote.upgrade feeds cursor 2 (uni_remote_raw feeds arriving) ≡ done (some (ok t)))
    × (t.stage.header ≡ some control_header)
    × (UniRemote.read_frame feeds cursor 2 t ≡ done (some (ok f, t')))
    × (with_frame cursor f ≡ done (some (ok local_settings)))
    × (content_bytes t'.kind.recv.content ≡ 33 ∷ [])
unfolding vec_sink
settings_arrive_example =
    settings_arrive feeds cursor cursor-OctetsLaws 2 vec_sink feed_source [] ready arriving
      (33 ∷ []) (omega arith) refl readies (omega arith) refl
