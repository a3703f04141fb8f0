-- ===== src/Worker/Requests/Tests.antt =====
-- Tests of the bidirectional HTTP/3 streams that the peer opens.
use wtransport.Prelude.{refl, arith, inl, [], ◌∷◌, none}
use wtransport.Quic.Qpack.{Qpack, Unblocked}
use wtransport.Quic.Streams.{Quinn}
use wtransport.Quic.Streams.Feeds
use wtransport.Frame.{Frame}
use wtransport.Frame.Kind.{headers}
use wtransport.Stream.{Stream, H3, TwoWay}
use wtransport.Worker.Accept.{permit}
use wtransport.Worker.Requests.{handle_new_h3_bi, Outcomes, handle_new_h3_bi_cases}

abbrev feeds : Quinn
feeds = Feeds.feeds 4

-- It decodes nothing.
abbrev refusing : Qpack
refusing = record { decode = λ id bs. none; encode_all = λ id hs. none }

refuses : Unblocked refusing
refuses id bs = inl refl

abbrev asking : Stream (TwoWay feeds) H3
asking = record {
  kind = record { send = []; recv = record { content = []; naps = 0 } };
  stage = record { header = none };
}

abbrev garbled : Frame
garbled = record { kind = headers; payload = 9 ∷ []; session_id = none }

handle_new_h3_bi_cases_example :
    Outcomes feeds refusing asking refuses
      (omega arith)
      garbled
      permit
      (handle_new_h3_bi feeds refusing asking garbled permit)
handle_new_h3_bi_cases_example =
    handle_new_h3_bi_cases feeds refusing asking refuses (omega arith) garbled permit refl
