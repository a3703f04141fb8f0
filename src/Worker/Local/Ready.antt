-- ===== src/Worker/Local/Ready.antt =====
-- Opening the control stream of this side ends.
use wtransport.Prelude.{
  ◌<◌, ◌≡◌, ◌⊎◌, refl, arith, inl, inr, List, ℕ, Option, some, Result, ok, err, Outcome, done, bind,
}
use wtransport.Quic.Octets.{Octets, OctetsLaws}
use wtransport.Quic.Streams.{Quinn}
use wtransport.Bytes.Async.{IoError}
use wtransport.Bytes.Async.Chain.{converted}
use wtransport.Bytes.Async.Write.Sink.{Sink, Sent}
use wtransport.Frame.Wire as F
use wtransport.Frame.Async.Writing.{write_async-Sends}
use wtransport.Settings.Writing.{settings_frame, generate_frame-bytes}
use wtransport.StreamHeader.{new, new_control}
use wtransport.Stream.{Stream, H3, on_part}
use wtransport.Stream.Errors.{io_to_frame_write, io_to_upgrade, UpgradeError}
use wtransport.Stream.UniLocal
use wtransport.Stream.UniLocal.{UniLocal}
use wtransport.Stream.Laws.{Headed, uni_local_upgrade-Headed}
use wtransport.Worker.{WorkerError, with_upgrade_err, with_frame_write_err}
use wtransport.Worker.Local.{
  Ready, local_settings, settings_sent, control_opened, on_stream, on_ready_connection,
}
use wtransport.Worker.Local.Laws.{
  control_header, control_header-IsHeader, local_settings-IsSettings, local_settings_short,
}

module _ (q : Quinn) (o : Octets) (polls : ℕ) where
  -- With a stream, or with an error.
  abbrev pub IsReady : Ready q o polls → Type 0
  IsReady out =
      ((s : Stream (UniLocal q) H3) × (out ≡ done (some (ok s))))
      ⊎ ((e : WorkerError) × (out ≡ done (some (err e))))

module _ (q : Quinn) (o : Octets) (laws : OctetsLaws o) (polls : ℕ) (sink : Sink q.writer) where
  frame-IsReady :
      (s : Stream (UniLocal q) H3) (bs : List ℕ)
      (out : Outcome (Option (Result (Unit {0}) IoError × q.Send)))
      → Sent sink s.kind.send bs out
      → IsReady q o polls (
          bind
            (on_part
              (UniLocal.send_part q)
              (UniLocal.with_send q)
              (converted io_to_frame_write (λ w. out))
              s)
            (settings_sent q o polls))
  unfolding settings_sent
  frame-IsReady s bs out (w', time, inl (a, same, left)) =
      inl (UniLocal.with_send q w' s, rw same refl)
  frame-IsReady s bs out (w', time, inr (e, n, same, _, _)) =
      inr (with_frame_write_err (io_to_frame_write e) "Unable to send SETTINGS", rw same refl)

  header-IsReady :
      (w : q.Send) (out : Outcome (Option (Result (Stream (UniLocal q) H3) UpgradeError)))
      → sink.waits w < polls
      → Headed q o laws polls sink control_header w out
      → IsReady q o polls (bind out (control_opened q o polls))
  unfolding control_opened UniLocal.write_frame
  header-IsReady w out enough (inr (e, same)) =
      inr (with_upgrade_err (io_to_upgrade e) "Unable to send SETTINGS", rw same refl)
  header-IsReady w out enough (inl (s, same, head, left, time)) =
      let framed =
        generate_frame-bytes o laws local_settings local_settings-IsSettings local_settings_short in
      let v : F.IsFrame (settings_frame local_settings) = record {
        kind_ok = tt;
        short = local_settings_short;
        shape = refl;
      } in
      let sent =
        write_async-Sends o laws sink polls (settings_frame local_settings) s.kind.send v
          (omega arith) in
      rw (same, framed) (frame-IsReady s (F.wire (settings_frame local_settings)) _ sent)

  -- On a stream that waits fewer times than it is polled, and where none is opened,
  -- `on_ready_connection` ends with a stream or an error, and without a panic.
  pub on_ready_connection-IsReady :
      {E : Type 0} (opened : Result q.Send E)
      → ((w : q.Send) → opened ≡ ok w → sink.waits w < polls)
      → IsReady q o polls (on_ready_connection q o polls opened)
  unfolding on_ready_connection on_stream UniLocal.open_uni new_control new
  on_ready_connection-IsReady (err e) enough = inr (_, refl)
  on_ready_connection-IsReady (ok w) enough = header-IsReady w _ (enough w refl) (
      uni_local_upgrade-Headed q o laws polls sink control_header w control_header-IsHeader
        (enough w refl))
