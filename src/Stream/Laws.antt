-- ===== src/Stream/Laws.antt =====
-- Upgrades, reads and writes of streams whose QUIC streams keep the contracts of `AsyncRead` and
-- `AsyncWrite`.
use wtransport.Prelude.{
  ℕ, ◌≤◌, ◌<◌, ◌≡◌, ◌⊎◌, refl, ap, inl, inr, ◌++◌, Option, none, some, Result, ok, err, Outcome,
  done,
}
use wtransport.Quic.Octets.{Octets, OctetsLaws}
use wtransport.Quic.Streams.{Quinn}
use wtransport.Bytes.Reader.Decoded.{Decoded}
use wtransport.Bytes.Async.{IoError}
use wtransport.Bytes.Async.Source.{Source}
use wtransport.Bytes.Async.Chain.Found.{Found}
use wtransport.Bytes.Async.Write.Sink.{Sink, Sent}
use wtransport.StreamHeader.{StreamHeader}
use wtransport.StreamHeader as Header
use wtransport.StreamHeader.Wire.{IsHeader, wire, decode_header}
use wtransport.StreamHeader.Async as HeaderAsync
use wtransport.StreamHeader.Async.Reading.{read_header_async-Found}
use wtransport.StreamHeader.Async.Writing.{write_header_async-Sends}
use wtransport.Stream.{Stream, H3}
use wtransport.Stream.Errors.{UpgradeError, io_to_upgrade, read_to_upgrade}
use wtransport.Stream.UniRemote
use wtransport.Stream.UniRemote.{UniRemote, uni_remote_raw}
use wtransport.Stream.UniLocal
use wtransport.Stream.UniLocal.{UniLocal, uni_local_raw}

module _ (q : Quinn) (o : Octets) (laws : OctetsLaws o) (polls : ℕ) where
  module _ (source : Source q.reader) where
    open source use {bytes, ending, waits}

    -- The error of an upgrade, for a source that ends before the header does.
    abbrev pub cut_short : IoError → UpgradeError
    cut_short IoError.not_connected = UpgradeError.connection_closed
    cut_short IoError.closed = UpgradeError.end_of_stream

    -- The error of an upgrade, for bytes that are no header.
    abbrev pub refused : Header.StreamHeaderReadError → UpgradeError
    refused Header.unknown_stream = UpgradeError.unknown_stream
    refused Header.invalid_session_id = UpgradeError.invalid_session_id

    -- What `upgrade` returns, by what the format says of the bytes: a stream with the header, whose
    -- next bytes are those that follow; or an error.
    abbrev pub Upgraded :
        q.Recv
        → Outcome (Option (Result (Stream (UniRemote q) H3) UpgradeError))
        → Decoded (Result StreamHeader Header.StreamHeaderReadError)
        → Type 0
    Upgraded r out none = out ≡ done (some (err (cut_short (ending r))))
    Upgraded r out (some (err x, rest)) = out ≡ done (some (err (refused x)))
    Upgraded r out (some (ok header, rest)) =
        (s : Stream (UniRemote q) H3) × (out ≡ done (some (ok s)))
        × (s.stage.header ≡ some header)
        × (bytes s.kind.recv ≡ rest)
        × (waits s.kind.recv ≤ waits r)

    io_to_upgrade-cut_short : (e : IoError) → io_to_upgrade e ≡ cut_short e
    unfolding io_to_upgrade
    io_to_upgrade-cut_short IoError.not_connected = refl
    io_to_upgrade-cut_short IoError.closed = refl

    read_to_upgrade-refused :
        (x : Header.StreamHeaderReadError)
        → read_to_upgrade (HeaderAsync.stream_header x) ≡ refused x
    unfolding read_to_upgrade
    read_to_upgrade-refused Header.unknown_stream = refl
    read_to_upgrade-refused Header.invalid_session_id = refl

    header_read-Upgraded :
        (r : q.Recv) (d : Decoded (Result StreamHeader Header.StreamHeaderReadError))
        → Found source HeaderAsync.io HeaderAsync.stream_header r
            (HeaderAsync.read_async o q.reader polls r)
            d
        → Upgraded r (UniRemote.upgrade q o polls (uni_remote_raw q r)) d
    unfolding UniRemote.upgrade uni_remote_raw
    header_read-Upgraded r none (r', same) = rw same (
        unfold read_to_upgrade in
        ap (λ e. done (some (err e))) (io_to_upgrade-cut_short (ending r)))
    header_read-Upgraded r (some (err x, rest)) (r', same, _, _, _) =
        rw (same, read_to_upgrade-refused x) refl
    header_read-Upgraded r (some (ok header, rest)) (r', same, left, end, time) = (
      record { kind = record { recv = r' }; stage = record { header = some header } },
      rw same,
      refl,
      left,
      time,
    )

    -- From a source that waits fewer times than it is polled, a raw unidirectional stream of the
    -- peer upgrades to one with the header that its bytes begin with, and stands behind it. On an
    -- unknown type it fails with `UnknownStream` and on a bad session id with `InvalidSessionId`;
    -- where the bytes end too soon it fails with `EndOfStream`, and with `ConnectionClosed` where the
    -- connection was lost.
    pub uni_upgrade-Upgraded :
        (r : q.Recv)
        → waits r < polls
        → Upgraded r (UniRemote.upgrade q o polls (uni_remote_raw q r)) (decode_header (bytes r))
    uni_upgrade-Upgraded r enough =
        header_read-Upgraded r _ (read_header_async-Found o laws source polls r enough)

  module _ (sink : Sink q.writer) where
    open sink use {written, waits}

    abbrev pub Headed :
        StreamHeader
        → q.Send
        → Outcome (Option (Result (Stream (UniLocal q) H3) UpgradeError))
        → Type 0
    Headed h w out =
        ((s : Stream (UniLocal q) H3) × (out ≡ done (some (ok s)))
          × (s.stage.header ≡ some h)
          × (written s.kind.send ≡ written w ++ wire h)
          × (waits s.kind.send ≤ waits w))
        ⊎ ((e : IoError) × (out ≡ done (some (err (io_to_upgrade e)))))

    ended-Headed :
        (h : StreamHeader) (w : q.Send)
        → Sent sink w (wire h) (HeaderAsync.write_async o q.writer polls h w)
        → Headed h w (UniLocal.upgrade q o polls h (uni_local_raw q w))
    unfolding UniLocal.upgrade uni_local_raw
    ended-Headed h w (w', time, inl (a, same, left)) = inl (
      record { kind = record { send = w' }; stage = record { header = some h } },
      rw same,
      refl,
      left,
      time,
    )
    ended-Headed h w (w', time, inr (e, n, same, _, _)) = inr (e, rw same)

    -- A raw unidirectional stream of this side upgrades with a header to one that has written its
    -- bytes, or fails with the error of the sink.
    pub uni_local_upgrade-Headed :
        (h : StreamHeader) (w : q.Send)
        → IsHeader h
        → waits w < polls
        → Headed h w (UniLocal.upgrade q o polls h (uni_local_raw q w))
    uni_local_upgrade-Headed h w v enough =
        ended-Headed h w (write_header_async-Sends o laws sink polls h w v enough)
