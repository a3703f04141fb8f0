-- ===== src/Worker/Tests.antt =====
-- Tests of the peer's control and QPACK streams, on the cursor that stands for `octets`.
use Prim.Native.String.{String}
use wtransport.Prelude.{◌≡◌, refl, [], ◌∷◌, none, some, ◌⊎◌, true, false, arith, ok, err, done}
use wtransport.ErrorCode.{ErrorCode}
use wtransport.Quic.Encoding.{decode}
use wtransport.Quic.Octets.Cursor.{cursor}
use wtransport.Frame.{Frame}
use wtransport.Frame.Kind.{FrameKind}
use wtransport.Settings.{Settings, get, with_frame}
use wtransport.Settings.Setting.{parse, qpack_max_table_capacity}
use wtransport.StreamHeader.Kind.{control}
use wtransport.Worker.{closing}
use wtransport.Worker.Streams.{
  UniStream, start, with_settings, publish, on_settings, on_frame, on_control_stream, by_kind,
  handle_new_h3_uni,
}
use wtransport.Ids.SessionId.{SessionId}
use wtransport.Frame.Kind.{is_webtransport}
use wtransport.Frame.Wire.{IsFrame}
use wtransport.Worker.Accept.{process_inc_uni, process_inc_bi, to_h3, to_wt, process_inc_bi_cases}
use wtransport.Worker.Reaches.{handle_duplicate}

abbrev control_stream : UniStream
control_stream = record {
  stream = record { varint = 3 };
  header = record { kind = control; session_id = none };
}

abbrev settings_frame : Frame
settings_frame = record { kind = FrameKind.settings; payload = 1 ∷ 0 ∷ []; session_id = none }

abbrev no_table : Settings
no_table = (qpack_max_table_capacity, 0) ∷ []

takes_control :
    handle_new_h3_uni cursor control_stream (ok settings_frame) start
    ≡ done (some (ok tt, with_settings control_stream no_table start))
unfolding handle_new_h3_uni by_kind on_control_stream on_frame on_settings publish with_frame parse
    get decode
takes_control = refl

handle_duplicate_example :
    (reason : String) × (handle_new_h3_uni cursor control_stream
        (ok settings_frame)
        (with_settings control_stream no_table start)
      ≡ done (
          some (
            err (closing ErrorCode.stream_creation reason),
            with_settings control_stream no_table start,
          )))
handle_duplicate_example =
    handle_duplicate cursor control_stream control_stream (ok settings_frame)
      (with_settings control_stream no_table start) refl

-- A control stream that was upgraded goes to the HTTP/3 channel.
routed : process_inc_uni (ok control_stream) ≡ to_h3 control_stream
unfolding process_inc_uni
routed = refl

abbrev fourth : SessionId
fourth = record { session_stream = record { varint = 4 } }

abbrev session_frame : Frame
session_frame = record { kind = FrameKind.webtransport; payload = []; session_id = some fourth }

session_frame-IsFrame : IsFrame session_frame
session_frame-IsFrame = record {
  kind_ok = tt;
  short = omega arith;
  shape = (refl, (fourth, refl, record { in_range = omega arith; quarter = refl }));
}

process_inc_bi_cases_example :
    ((s : SessionId) × (session_frame.session_id ≡ some s)
      × (process_inc_bi (ok session_frame) ≡ done (to_wt s))
      × (is_webtransport session_frame.kind ≡ true))
    ⊎ ((process_inc_bi (ok session_frame) ≡ done (to_h3 session_frame))
        × (is_webtransport session_frame.kind ≡ false))
process_inc_bi_cases_example = process_inc_bi_cases session_frame session_frame-IsFrame
