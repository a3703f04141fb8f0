-- ===== src/Worker/Run/Settings.antt =====
-- The settings of the peer on their way through the worker to the application.
use wtransport.Prelude.{◌≡◌, refl, true, List, [], ◌∷◌, Option, none, some, Result, ok, done}
use wtransport.Quic.Octets.{Octets}
use wtransport.Quic.Qpack.{Qpack}
use wtransport.Quic.Streams.{Quinn}
use wtransport.Frame.{Frame}
use wtransport.Settings.{Settings, is_settings, with_frame}
use wtransport.StreamHeader.Kind.{control}
use wtransport.Stream.{Stream, Raw}
use wtransport.Stream.UniRemote.{UniRemote}
use wtransport.Worker.{WorkerError}
use wtransport.Worker.Accept.{permit, to_h3, accept_uni, process_inc_uni}
use wtransport.Worker.Streams.{
  UniStream, Remote, with_settings, handle_new_h3_uni, by_kind, on_control_stream, on_frame,
  on_settings, publish,
}
use wtransport.Worker.Run.{
  Loop, turn, turns, incoming_uni, uni_upgraded, handle_uni, recv_uni, uni_task,
}
use wtransport.Engine.{remote_settings}

module _ (o : Octets) (s : UniStream) (f : Frame) (settings : Settings)
    (is_control : s.header.kind ≡ control) where
  control_taken :
      (w : Remote)
      → w.settings_stream ≡ none
      → w.has_receiver ≡ true
      → is_settings f.kind ≡ true
      → with_frame o f ≡ done (some (ok settings))
      → handle_new_h3_uni o s (ok f) w ≡ done (some (ok tt, with_settings s settings w))
  unfolding handle_new_h3_uni by_kind on_control_stream on_frame on_settings publish
  control_taken w free heard shows decoded = rw (is_control, free, shows, decoded, heard) refl

  control_routed : process_inc_uni (ok s) ≡ to_h3 s
  unfolding process_inc_uni
  control_routed = rw is_control refl

  -- Let no HTTP/3 stream wait in its channel and no control stream be taken, let the application
  -- still listen, and let the first frame of a control stream be a settings frame that decodes.
  -- Then once the worker accepted the stream, its header was read and it was handled, the loop goes
  -- on, holds the stream, and `remote_settings` returns the settings at once.
  pub settings_served :
      (q : Quinn) (p : Qpack) (w : Loop q) (stream : Stream (UniRemote q) Raw) (ended : WorkerError)
      (changes : List (Result (Option Settings) (Unit {0})))
      → w.h3_uni ≡ []
      → w.remote.settings_stream ≡ none
      → w.remote.has_receiver ≡ true
      → is_settings f.kind ≡ true
      → with_frame o f ≡ done (some (ok settings))
      → (w' : Loop q) × (turns q o p
            (incoming_uni (some stream) permit permit
              ∷ uni_upgraded (ok s)
              ∷ handle_uni (ok f)
              ∷ [])
            w
          ≡ done (some (ok w')))
        × (w'.remote.settings_stream ≡ some s)
        × (remote_settings ended w'.remote.inc_settings changes ≡ some (ok settings))
  unfolding turns turn accept_uni uni_task recv_uni remote_settings
  settings_served q p w stream ended changes empty free heard shows decoded = (
    record w { h3_uni = []; remote = with_settings s settings w.remote },
    rw (control_routed, empty, control_taken w.remote free heard shows decoded) refl,
    refl,
    refl,
  )
