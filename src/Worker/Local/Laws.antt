-- ===== src/Worker/Local/Laws.antt =====
-- The control stream that one side opens is the one that the other side expects.
use wtransport.Prelude.{
  ℕ, ◌≤◌, ◌<◌, ◌≡◌, refl, sym, ap, ◌∙◌, arith, inl, inr, List, [], ◌++◌, append_assoc, Option, none,
  some, Result, ok, Outcome, done, bind, length,
}
use wtransport.VarInt.{varint_max, from_u32}
use wtransport.Quic.Encoding.{encode}
use wtransport.Quic.Octets.{Octets, OctetsLaws}
use wtransport.Quic.Streams.{Quinn}
use wtransport.Bytes.Async.{IoError}
use wtransport.Bytes.Async.Chain.{converted}
use wtransport.Bytes.Async.Source.{Source}
use wtransport.Bytes.Async.Write.Sink.{Sink, Sent}
use wtransport.Frame.{Frame}
use wtransport.Frame.Wire as F
use wtransport.Frame.Wire.RoundTrip.{decode_frame-wire}
use wtransport.Frame.Async.Reading.{read_async-Found}
use wtransport.Frame.Async.Writing.{write_async-Sends}
use wtransport.Settings.{get, with_frame}
use wtransport.Settings.Setting.{id}
use wtransport.Settings.Writing.{IsSettings, settings_bytes, settings_frame, generate_frame-bytes}
use wtransport.Settings.RoundTrip.{with_frame-generate_frame}
use wtransport.StreamHeader.{StreamHeader, new, new_control}
use wtransport.StreamHeader.Kind.{control}
use wtransport.StreamHeader.Wire.{IsHeader, wire}
use wtransport.StreamHeader.Wire.RoundTrip.{decode_header-wire}
use wtransport.Stream.{Stream, H3, on_part}
use wtransport.Stream.Errors.{io_to_frame_write, UpgradeError}
use wtransport.Stream.UniLocal
use wtransport.Stream.UniLocal.{UniLocal, uni_local_raw}
use wtransport.Stream.UniRemote
use wtransport.Stream.UniRemote.{UniRemote, uni_remote_raw}
use wtransport.Stream.Laws.{Headed, uni_local_upgrade-Headed, uni_upgrade-Upgraded}
use wtransport.Worker.Local.{
  local_settings, settings_sent, control_opened, on_stream, on_ready_connection,
}

abbrev pub control_header : StreamHeader
control_header = record { kind = control; session_id = none }

pub control_header-IsHeader : IsHeader control_header
control_header-IsHeader = record { kind_ok = tt; shape = refl }

pub local_settings-IsSettings : IsSettings local_settings
unfolding local_settings get from_u32
local_settings-IsSettings = (
  tt,
  omega arith,
  refl,
  (tt, omega arith, refl, (tt, omega arith, refl, (tt, omega arith, refl, tt))),
)

pub local_settings_short : length (settings_bytes local_settings) ≤ varint_max
unfolding local_settings encode id
local_settings_short = omega arith

module _ (q : Quinn) (o : Octets) (laws : OctetsLaws o) (polls : ℕ) (sink : Sink q.writer)
    (source : Source q.reader) where
  open sink use {written}
  open source use {bytes}

  settings_written :
      (s s' : Stream (UniLocal q) H3) (bs : List ℕ)
      (out : Outcome (Option (Result (Unit {0}) IoError × q.Send)))
      → Sent sink s.kind.send bs out
      → bind
          (on_part
            (UniLocal.send_part q)
            (UniLocal.with_send q)
            (converted io_to_frame_write (λ w. out))
            s)
          (settings_sent q o polls)
        ≡ done (some (ok s'))
      → written s'.kind.send ≡ written s.kind.send ++ bs
  unfolding settings_sent
  settings_written s s' bs out (w', time, inl (a, same, left)) made =
      let got = rw same at made in let is : w' ≡ s'.kind.send = cc in rw is at left
  settings_written s s' bs out (w', time, inr (e, n, same, _, _)) made =
      let got = rw same at made in cc

  opened_ready :
      (w : q.Send) (s' : Stream (UniLocal q) H3)
      (out : Outcome (Option (Result (Stream (UniLocal q) H3) UpgradeError)))
      → sink.waits w < polls
      → Headed q o laws polls sink control_header w out
      → bind out (control_opened q o polls) ≡ done (some (ok s'))
      → written s'.kind.send
        ≡ (written w ++ wire control_header) ++ F.wire (settings_frame local_settings)
  unfolding control_opened UniLocal.write_frame
  opened_ready w s' out enough (inr (e, same)) made = let got = rw same at made in cc
  opened_ready w s' out enough (inl (s, same, head, left, time)) made =
      let framed =
        generate_frame-bytes o laws local_settings local_settings-IsSettings local_settings_short in
      let v : F.IsFrame (settings_frame local_settings) = record {
        kind_ok = tt;
        short = local_settings_short;
        shape = refl;
      } in
      let made' = rw (same, framed) at made in
      let sent =
        write_async-Sends o laws sink polls (settings_frame local_settings) s.kind.send v
          (omega arith) in
      settings_written s s' (F.wire (settings_frame local_settings)) _ sent made'
      ∙ ap (λ l. l ++ F.wire (settings_frame local_settings)) left

  -- What a control stream has written once it is ready.
  ready_written :
      (w : q.Send) (s' : Stream (UniLocal q) H3)
      → sink.waits w < polls
      → written w ≡ []
      → on_ready_connection q o polls {E = Unit {0}} (ok w) ≡ done (some (ok s'))
      → written s'.kind.send ≡ wire control_header ++ F.wire (settings_frame local_settings)
  unfolding on_ready_connection on_stream UniLocal.open_uni new_control new
  ready_written w s' enough empty made =
      opened_ready w s' _ enough
        (uni_local_upgrade-Headed q o laws polls sink control_header w control_header-IsHeader
          enough)
        made
      ∙ rw empty refl

  -- Let the sink and the source wait fewer times than they are polled. Where the control stream
  -- of one side is ready, with nothing written before, and its bytes arrive in order, the other
  -- side upgrades it to a control stream, reads a frame from it, and decodes from the frame the
  -- settings that were sent; what follows is next.
  pub settings_arrive :
      (w : q.Send) (s : Stream (UniLocal q) H3) (r : q.Recv) (rest : List ℕ)
      → sink.waits w < polls
      → written w ≡ []
      → on_ready_connection q o polls {E = Unit {0}} (ok w) ≡ done (some (ok s))
      → source.waits r < polls
      → bytes r ≡ written s.kind.send ++ rest
      → (t : Stream (UniRemote q) H3) × (t' : Stream (UniRemote q) H3) × (f : Frame)
        × (UniRemote.upgrade q o polls (uni_remote_raw q r) ≡ done (some (ok t)))
        × (t.stage.header ≡ some control_header)
        × (UniRemote.read_frame q o polls t ≡ done (some (ok f, t')))
        × (with_frame o f ≡ done (some (ok local_settings)))
        × (bytes t'.kind.recv ≡ rest)
  unfolding UniRemote.read_frame
  settings_arrive w s r rest enough empty made enough' arrived =
      let frame = settings_frame local_settings in
      let v : F.IsFrame frame = record {
        kind_ok = tt;
        short = local_settings_short;
        shape = refl;
      } in
      let all : bytes r ≡ wire control_header ++ (F.wire frame ++ rest) =
        rw (ready_written w s enough empty made) at arrived
        ∙ append_assoc (wire control_header) (F.wire frame) rest in
      let (t, upgraded, header, next, time) =
        rw (all, decode_header-wire control_header (F.wire frame ++ rest) control_header-IsHeader)
          at (uni_upgrade-Upgraded q o laws polls source r enough') in
      let (r', read, next', _, _) =
        rw (next, decode_frame-wire frame rest v) at
          (read_async-Found o laws source polls t.kind.recv (omega arith)) in
      let decoded =
        with_frame-generate_frame o laws local_settings local_settings-IsSettings
          local_settings_short in
      let same =
        generate_frame-bytes o laws local_settings local_settings-IsSettings local_settings_short in
      let is : decoded.0 ≡ frame = let both = sym decoded.1 ∙ same in cc in
      (
        t,
        UniRemote.with_recv q r' t,
        frame,
        upgraded,
        header,
        rw read refl,
        ap (with_frame o) (sym is) ∙ decoded.2,
        next',
      )
