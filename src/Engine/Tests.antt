-- ===== src/Engine/Tests.antt =====
-- Tests of datagrams, and of what an engine gives whose worker ended.
use wtransport.Worker.{remote_closed}
use wtransport.Stream.{Stream, Wt}
use wtransport.Stream.UniRemote.{UniRemote}
use wtransport.Engine.State.{Engine, worker_result, received, accept_uni}
use wtransport.Worker.Local.{result}
use wtransport.Engine.Events.{Event, asks, sends, drops, Answers, happens, streams}
use wtransport.Engine.Drains.{Follows, Final, happens-Final}
use wtransport.Prelude.{◌≡◌, refl, List, [], ◌∷◌, done, inr, none, ◌++◌, err, true, false, some, ok}
use wtransport.Ids.SessionId.{SessionId}
use wtransport.Ids.QStreamId
use wtransport.Quic.Encoding.{encode}
use wtransport.Quic.Octets.Cursor.{cursor}
use wtransport.Datagram as H3
use wtransport.Datagram.App as App
use wtransport.Datagram.App.{Datagram}
use wtransport.Quic.Streams.{Quinn}
use wtransport.Quic.Streams.Feeds

abbrev four : SessionId
four = record { session_stream = record { varint = 4 } }

abbrev eight : SessionId
eight = record { session_stream = record { varint = 8 } }

abbrev ours : Datagram
ours = record { quic_dgram = 1 ∷ 7 ∷ []; payload_offset = 1 }

abbrev theirs : Datagram
theirs = record { quic_dgram = 2 ∷ 9 ∷ []; payload_offset = 1 }

writes_ours : App.write cursor four (7 ∷ []) ≡ done ours
unfolding App.write H3.write H3.write_size encode QStreamId.from_session_id
writes_ours = refl

writes_theirs : App.write cursor eight (9 ∷ []) ≡ done theirs
unfolding App.write H3.write H3.write_size encode QStreamId.from_session_id
writes_theirs = refl

abbrev feeds : Quinn
feeds = Feeds.feeds 2

abbrev waiting : Stream (UniRemote feeds) Wt
waiting = record {
  kind = record { recv = record { content = 7 ∷ []; naps = 0 } };
  stage = record { session_id = four };
}

abbrev one_left : Engine feeds
one_left = record {
  worker_handle = record { join_handle = true; stored = none };
  settings_channel = none;
  bi_streams_channel = [];
  uni_streams_channel = waiting ∷ [];
  session_streams_channel = [];
}

-- Two tasks hold permits: one sends a stream and one drops its permit.
abbrev events : List (Event (Stream (UniRemote feeds) Wt))
events = asks ∷ asks ∷ sends waiting ∷ asks ∷ drops ∷ asks ∷ asks ∷ []

happens-Final_example :
    (answers : Answers feeds) × (self' : Engine feeds) × (happens feeds {T = Unit {0}}
        {E = Unit {0}}
        (some (ok (err remote_closed)))
        events
        2
        one_left
      ≡ done (answers, self'))
    × Follows feeds remote_closed 2 (waiting ∷ []) events answers
    × Final feeds remote_closed answers
    × (streams feeds answers ++ self'.uni_streams_channel ≡ waiting ∷ waiting ∷ [])
happens-Final_example =
    happens-Final feeds remote_closed (Unit {0}) (Unit {0}) events 2 one_left (inr (refl, refl))

gives :
    happens feeds {T = Unit {0}} {E = Unit {0}} (some (ok (err remote_closed))) events 2 one_left
    ≡ done (
      some (ok waiting)
          ∷ none
          ∷ some (ok waiting)
          ∷ some (err remote_closed)
          ∷ some (err remote_closed)
          ∷ [],
      record one_left {
        worker_handle = record { join_handle = false; stored = some remote_closed };
        uni_streams_channel = [];
      },
    )
unfolding happens accept_uni received worker_result result
gives = refl
