-- ===== src/Datagram/App.antt =====
-- wtransport/src/datagram.rs: a datagram of an application, with the bytes it came in.
pub mod Laws
use wtransport.Prelude.{
  ℕ, ◌-◌, Bool, not, List, Option, none, some, Result, ok, err, Outcome, done, bind, assert,
  expect_ok, leb, ◌==◌, if◌then◌else◌, length, drop, replicate,
}
use wtransport.ErrorCode.{ErrorCode}
use wtransport.H3Error.{H3Error}
use wtransport.Ids.StreamId.{StreamId}
use wtransport.Ids.SessionId.{SessionId}
use wtransport.Ids.QStreamId
use wtransport.Quic.Octets.{Octets}
use wtransport.Datagram as H3
use wtransport.Datagram.{Datagram as H3Datagram}

pub record Datagram : Type 0 where
  pub quic_dgram : List ℕ
  pub payload_offset : ℕ

-- `quic_dgram.len() - payload.len()` on `usize`, where an underflow panics.
abbrev with_payload : List ℕ → List ℕ → Outcome Datagram
with_payload quic_dgram payload = bind (assert (leb (length payload) (length quic_dgram))) λ _.
    done (record { quic_dgram = quic_dgram; payload_offset = length quic_dgram - length payload })

module _ (o : Octets) where
  abbrev of_h3 :
      SessionId → List ℕ → Result H3Datagram ErrorCode → Outcome (Result (Option Datagram) H3Error)
  unfolding QStreamId.into_stream_id
  of_h3 session_id quic_dgram (err code) =
      done (err (record { code = code; reason = "Invalid datagram" }))
  of_h3 session_id quic_dgram (ok h3dgram) =
      bind (QStreamId.into_stream_id h3dgram.qstream_id) λ stream_id.
        if not (session_id.session_stream.varint == stream_id.varint)
        then done (ok none)
        else (bind (with_payload quic_dgram h3dgram.payload) λ d. done (ok (some d)))

  unfoldable pub read : SessionId → List ℕ → Outcome (Result (Option Datagram) H3Error)
  unfolding of_h3
  read session_id quic_dgram =
      bind (H3.read o quic_dgram) λ h3dgram. of_h3 session_id quic_dgram h3dgram

  unfoldable pub write : SessionId → List ℕ → Outcome Datagram
  unfolding H3.new
  write session_id payload = bind (QStreamId.from_session_id session_id) λ qstream_id.
      let h3dgram = H3.new qstream_id payload in
      bind (H3.write_size h3dgram) λ n.
        bind (H3.write o h3dgram (replicate n 0))
          λ (result, buffer). bind (expect_ok result) λ _. with_payload buffer payload

-- The application sees the payload, `&self.quic_dgram[self.payload_offset..]`.
unfoldable pub deref : Datagram → Outcome (List ℕ)
deref d =
    bind (assert (leb d.payload_offset (length d.quic_dgram)))
      λ _. done (drop d.payload_offset d.quic_dgram)
