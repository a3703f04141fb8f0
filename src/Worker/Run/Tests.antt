-- ===== src/Worker/Run/Tests.antt =====
-- Runs of the worker.
use wtransport.Prelude.{◌≡◌, ◌-◌, refl, arith, inl, [], ◌∷◌, List, none, some, err, ok, done}
use wtransport.Quic.Encoding.{decode, encode}
use wtransport.Quic.Octets.Cursor.{cursor, cursor-OctetsLaws}
use wtransport.Quic.Qpack.{Qpack, Unblocked}
use wtransport.Quic.Streams.{Quinn}
use wtransport.Quic.Streams.Feeds
use wtransport.Bytes.Async.Feed.{vec_async, vec_sink}
use wtransport.Bytes.Async.Write.{put_varint_async, put_buffer_async}
use wtransport.Frame.{Frame, new, new_settings}
use wtransport.Frame.Async.{write_async}
use wtransport.Frame.Kind.{FrameKind}
use wtransport.Settings.{get, with_frame, generate_frame, Settings}
use wtransport.Settings.Setting.{parse, id, qpack_max_table_capacity}
use wtransport.StreamHeader.{StreamHeader, new_control}
use wtransport.StreamHeader as Header
use wtransport.StreamHeader.Async as HeaderAsync
use wtransport.StreamHeader.Kind.{control}
use wtransport.Stream.{Stream, Raw}
use wtransport.Stream.UniLocal
use wtransport.Stream.UniRemote.{UniRemote, uni_remote_raw}
use wtransport.VarInt.{from_u32}
use wtransport.Worker.Accept.{permit, full, accept_uni, process_inc_uni}
use wtransport.Worker.Local.{local_settings, on_ready_connection}
use wtransport.Worker.Streams.{
  UniStream, publish, on_settings, on_frame, on_control_stream, by_kind, handle_new_h3_uni, start,
  with_settings,
}
use wtransport.Worker.Run.{Turn, turn, turns, run, initial, handle_uni, incoming_uni, uni_upgraded}
use wtransport.Worker.Run.Invariant.{Serves}
use wtransport.Worker.{FrameReadError, closing}
use wtransport.ErrorCode.{ErrorCode}
use wtransport.Worker.Run.{Loop, capacity, control_frame}
use wtransport.Worker.Streams.{settings_done}
use wtransport.Worker.Run.Places.{Reserved, all_free}
use wtransport.Worker.Run.Capacity.{Balanced, begins, takes, Runs-Balanced}
use wtransport.Worker.{remote_closed}
use wtransport.Engine.{remote_settings}
use wtransport.Worker.Run.Settings.{settings_served}
use wtransport.Worker.Run.Ends.{run-Serves}

abbrev feeds : Quinn
feeds = Feeds.feeds 3

-- It decodes nothing.
abbrev refusing : Qpack
refusing = record { decode = λ id bs. none; encode_all = λ id hs. none }

refuses : Unblocked refusing
refuses id bs = inl refl

abbrev control_stream : UniStream
control_stream = record {
  stream = record { varint = 3 };
  header = record { kind = control; session_id = none };
}

abbrev settings_frame : Frame
settings_frame = record { kind = FrameKind.settings; payload = 1 ∷ 0 ∷ []; session_id = none }

abbrev no_table : Settings
no_table = (qpack_max_table_capacity, 0) ∷ []

abbrev raw_stream : Stream (UniRemote feeds) Raw
unfolding uni_remote_raw
raw_stream = uni_remote_raw feeds (record { content = []; naps = 0 })

-- A stream that is refused, and the control stream of the peer with its settings.
abbrev served : List (Turn feeds)
served =
    incoming_uni (some raw_stream) full permit
    ∷ incoming_uni (some raw_stream) permit permit
    ∷ uni_upgraded (ok control_stream)
    ∷ handle_uni (ok settings_frame)
    ∷ []

serves :
    run feeds {E = Unit {0}} cursor refusing 2 (ok []) served
    ≡ done (
        some (ok (record (initial feeds) { remote = with_settings control_stream no_table start })))
unfolding run turns turn accept_uni process_inc_uni handle_new_h3_uni by_kind on_control_stream
    on_frame on_settings publish with_frame parse get decode on_ready_connection UniLocal.open_uni
    UniLocal.upgrade UniLocal.write_frame new_control Header.new HeaderAsync.write_async
    generate_frame new_settings new write_async put_varint_async put_buffer_async vec_async encode
    local_settings from_u32 id
serves = refl

run-Serves_example :
    Serves feeds refusing
      (initial feeds)
      (run feeds {E = Unit {0}} cursor refusing 2 (ok []) served)
unfolding vec_sink
run-Serves_example =
    run-Serves feeds cursor cursor-OctetsLaws refusing refuses 2 vec_sink (ok []) served
      (λ w e. omega arith) (tt, (tt, (tt, (tt, tt))))

-- The loop behind a stream that was accepted.
abbrev spawned : Loop feeds
spawned = record (initial feeds) { uni_tasks = 1 }

spawns :
    turn feeds cursor refusing (incoming_uni (some raw_stream) permit permit) (initial feeds)
    ≡ done (some (ok spawned))
unfolding turn accept_uni
spawns = refl

-- A permit for it, where every place is free.
accepting : Reserved feeds (incoming_uni (some raw_stream) permit permit) all_free
unfolding capacity
accepting = omega arith

Runs-Balanced_example : Balanced feeds spawned (record all_free { uni = capacity - 1 })
Runs-Balanced_example =
    Runs-Balanced feeds cursor refusing spawned (record all_free { uni = capacity - 1 })
      (takes (incoming_uni (some raw_stream) permit permit) begins accepting spawns)

-- The end of the peer's control stream ends the connection.
ends :
    turns feeds cursor refusing
      (control_frame (err FrameReadError.end_of_stream) ∷ [])
      (record (initial feeds) { remote = with_settings control_stream no_table start })
    ≡ done (some (err (closing ErrorCode.closed_critical_stream "Error on control stream")))
unfolding turns turn settings_done
ends = refl

decodes : with_frame cursor settings_frame ≡ done (some (ok no_table))
unfolding with_frame parse get decode
decodes = refl

settings_served_example :
    (w' : Loop feeds) × (turns feeds cursor refusing
        (incoming_uni (some raw_stream) permit permit
          ∷ uni_upgraded (ok control_stream)
          ∷ handle_uni (ok settings_frame)
          ∷ [])
        (initial feeds)
      ≡ done (some (ok w')))
    × (w'.remote.settings_stream ≡ some control_stream)
    × (remote_settings {E = Unit {0}} remote_closed w'.remote.inc_settings [] ≡ some (ok no_table))
settings_served_example =
    settings_served cursor control_stream settings_frame no_table refl feeds refusing
      (initial feeds) raw_stream remote_closed [] refl refl refl refl decodes
