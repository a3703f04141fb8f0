-- ===== src/Worker/Run/Places.antt =====
-- The channels of HTTP/3 streams are bounded: `mpsc::channel(1024)`. A tokio channel counts its free
-- places: a permit takes one, which comes back when the permit is dropped or when the value that was
-- sent on it is received.
use wtransport.Prelude.{
  ◌<◌, ◌≡◌, ℕ, zero, suc, List, [], ◌∷◌, some, Result, Outcome, done, panic, ◌-◌,
}
use wtransport.Ids.SessionId.{SessionId}
use wtransport.Quic.Streams.{Quinn}
use wtransport.Frame.{Frame}
use wtransport.Stream.{Stream, H3, TwoWay}
use wtransport.Worker.{FrameReadError, UpgradeError}
use wtransport.Worker.Streams.{UniStream}
use wtransport.Worker.Accept.{
  permit, full, Routed, dropped, to_h3, to_wt, process_inc_uni, process_inc_bi,
}
use wtransport.Worker.Run.{
  Loop, Turn, capacity, handle_uni, handle_bi, incoming_uni, incoming_bi, uni_upgraded, bi_read,
}

-- The free places of the channels of HTTP/3 streams, as tokio counts them.
pub record Places : Type 0 where
  pub uni : ℕ
  pub bi : ℕ

abbrev pub all_free : Places
all_free = record { uni = capacity; bi = capacity }

module _ (q : Quinn) where
  -- `try_reserve_owned` gives a permit only where there is a free place, and `Full` only where there
  -- is none.
  abbrev pub Reserved : Turn q → Places → Type 0
  Reserved (incoming_uni (some stream) permit wtslot) free = 0 < free.uni
  Reserved (incoming_uni (some stream) full wtslot) free = free.uni ≡ 0
  Reserved (incoming_bi (some stream) permit wtslot) free = 0 < free.bi
  Reserved (incoming_bi (some stream) full wtslot) free = free.bi ≡ 0
  Reserved _ free = Unit {0}

  -- `recv` frees the place of what it receives.
  abbrev pub received_uni : List UniStream → Places → Places
  received_uni [] free = free
  received_uni (stream ∷ rest) free = record free { uni = suc free.uni }

  abbrev pub received_bi : List (Stream (TwoWay q) H3 × Frame) → Places → Places
  received_bi [] free = free
  received_bi (stream ∷ rest) free = record free { bi = suc free.bi }

  -- A task that ends drops its permit, if it sent nothing on it.
  abbrev pub unsent_uni : Routed UniStream UniStream → Places → Places
  unsent_uni dropped free = record free { uni = suc free.uni }
  unsent_uni (to_wt stream) free = record free { uni = suc free.uni }
  unsent_uni (to_h3 stream) free = free

  abbrev pub unsent_bi : Outcome (Routed Frame SessionId) → Places → Places
  unsent_bi panic free = record free { bi = suc free.bi }
  unsent_bi (done dropped) free = record free { bi = suc free.bi }
  unsent_bi (done (to_wt session_id)) free = record free { bi = suc free.bi }
  unsent_bi (done (to_h3 frame)) free = free

  abbrev pub task_uni : Result UniStream UpgradeError → ℕ → Places → Places
  task_uni upgraded zero free = free
  task_uni upgraded (suc n) free = unsent_uni (process_inc_uni upgraded) free

  abbrev pub task_bi : Result Frame FrameReadError → ℕ → Places → Places
  task_bi read zero free = free
  task_bi read (suc n) free = unsent_bi (process_inc_bi read) free

  -- The free places behind a turn.
  abbrev pub after : Turn q → Loop q → Places → Places
  after (incoming_uni (some stream) permit permit) w free = record free { uni = free.uni - 1 }
  after (incoming_bi (some stream) permit permit) w free = record free { bi = free.bi - 1 }
  after (handle_uni read) w free = received_uni w.h3_uni free
  after (handle_bi slot) w free = received_bi w.h3_bi free
  after (uni_upgraded upgraded) w free = task_uni upgraded w.uni_tasks free
  after (bi_read stream read) w free = task_bi read w.bi_tasks free
  after _ w free = free
