-- ===== src/Worker/Local.antt =====
-- wtransport/src/engine/worker.rs: the control stream of this side, with the settings that it sends,
-- and the handle that keeps the worker's result.
pub mod Laws
pub mod Ready
pub mod Tests
use wtransport.Prelude.{
  ℕ, Bool, true, false, [], Option, none, some, Result, ok, err, Outcome, done, panic, bind, assert,
  expect,
}
use wtransport.VarInt.{from_u32}
use wtransport.Quic.Octets.{Octets}
use wtransport.Quic.Streams.{Quinn}
use wtransport.Settings.{
  Settings, with_qpack_max_table_capacity, with_qpack_blocked_streams, with_enable_webtransport,
  with_h3_datagrams, generate_frame,
}
use wtransport.StreamHeader.{new_control}
use wtransport.Stream.{Stream, Raw, H3}
use wtransport.Stream.UniLocal
use wtransport.Stream.UniLocal.{UniLocal}
use wtransport.Worker.{
  WorkerError, remote_closed, UpgradeError, FrameWriteError, with_upgrade_err, with_frame_write_err,
}

unfoldable pub local_settings : Settings
unfolding from_u32 with_qpack_max_table_capacity with_qpack_blocked_streams with_enable_webtransport
    with_h3_datagrams
local_settings = with_h3_datagrams (
    with_enable_webtransport
      (with_qpack_blocked_streams (from_u32 0) (with_qpack_max_table_capacity (from_u32 0) [])))

module _ (q : Quinn) (o : Octets) (polls : ℕ) where
  -- The stream that `LocalSettingsStream` holds then.
  abbrev pub Ready : Type 0
  Ready = Outcome (Option (Result (Stream (UniLocal q) H3) WorkerError))

  abbrev pub settings_sent :
      Option (Result (Unit {0}) FrameWriteError × Stream (UniLocal q) H3) → Ready
  unfolding with_frame_write_err
  settings_sent none = done none
  settings_sent (some (err e, s)) =
      done (some (err (with_frame_write_err e "Unable to send SETTINGS")))
  settings_sent (some (ok _, s)) = done (some (ok s))

  abbrev pub control_opened : Option (Result (Stream (UniLocal q) H3) UpgradeError) → Ready
  unfolding with_upgrade_err generate_frame UniLocal.write_frame settings_sent local_settings
  control_opened none = done none
  control_opened (some (err e)) = done (some (err (with_upgrade_err e "Unable to send SETTINGS")))
  control_opened (some (ok s)) =
      bind (generate_frame o local_settings)
        λ frame. bind (UniLocal.write_frame q o polls frame s) settings_sent

  abbrev pub on_stream : Option (Stream (UniLocal q) Raw) → Ready
  unfolding new_control UniLocal.upgrade control_opened
  on_stream none = done (some (err remote_closed))
  on_stream (some s) =
      bind new_control λ header. bind (UniLocal.upgrade q o polls header s) control_opened

  -- `LocalSettingsStream::on_ready_connection`, which is called on an empty `LocalSettingsStream`,
  -- with what the connection returns to `open_uni`.
  unfoldable pub on_ready_connection : {E : Type 0} → Result q.Send E → Ready
  unfolding on_stream UniLocal.open_uni
  on_ready_connection opened = on_stream (UniLocal.open_uni q opened)

-- `WorkerHandler`: whether the task is still to be joined, and its result.
pub record WorkerHandler : Type 0 where
  pub join_handle : Bool
  pub stored : Option WorkerError

abbrev pub joined :
    {T E : Type 0} → Result (Result T WorkerError) E → Outcome (WorkerError × WorkerHandler)
joined (ok (err e)) = done (e, record { join_handle = false; stored = some e })
joined (ok (ok t)) = panic
joined (err e) = panic

abbrev taken_handle :
    {T E : Type 0} → Bool → Result (Result T WorkerError) E → Outcome (WorkerError × WorkerHandler)
taken_handle true task = joined task
taken_handle false task = panic

abbrev result_of :
    {T E : Type 0}
    → Option WorkerError
    → Bool
    → Result (Result T WorkerError) E
    → Outcome (WorkerError × WorkerHandler)
result_of (some e) join_handle task =
    done (e, record { join_handle = join_handle; stored = some e })
result_of none join_handle task = taken_handle join_handle task

-- `WorkerHandler::result`, with what the task returns when it is joined.
unfoldable pub result :
    {T E : Type 0}
    → Result (Result T WorkerError) E
    → WorkerHandler
    → Outcome (WorkerError × WorkerHandler)
result task h = result_of h.stored h.join_handle task
