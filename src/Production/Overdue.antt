-- ===== src/Production/Overdue.antt =====
-- app/services/production.py: `hold_overdue_job`. The timeouts of the settings are arguments.
use coffee_cloud_mvp.Base.{
  ℕ, ◌+◌, ◌-◌, Bool, true, false, not, ◌&&◌, ◌||◌, Option, none, some, [], ◌∷◌, Decimal,
  if◌then◌else◌, ◌==◌, contains, ltb, coalesce, is_zero, le_decimal,
}
use coffee_cloud_mvp.CommandState.{
  CommandStatus, command_status_eq, CommandStatus-discrete, terminal_states,
}
use coffee_cloud_mvp.ProductionState.Orders.{
  OrderStatus, order_status_eq, OrderStatus-discrete, final_orders,
}
use coffee_cloud_mvp.ProductionState.Jobs.{JobStatus, job_status_eq, JobStatus-discrete}
use coffee_cloud_mvp.Store.{Db, Order, Job, Command, Action, ◌>>=◌, ◌>>◌, pure, gets, now}
use coffee_cloud_mvp.OrderRepository.{find_order}
use coffee_cloud_mvp.OrderRepository.Jobs.{update_job_hold}
use coffee_cloud_mvp.OrderRepository.Queue.{lock_job}
use coffee_cloud_mvp.CommandRepository.{find_command}
use coffee_cloud_mvp.Transitions.Orders.{transition_order}
use coffee_cloud_mvp.Production.Commands.{transition_command}

pub record Timeouts : Type 0 where
  pub production_wait : ℕ
  pub command_ack : ℕ
  pub command_start : ℕ
  pub production_grace : ℕ

-- `bool(sent and sent + timedelta(seconds=...) < now)`
abbrev is_late : Option ℕ → ℕ → ℕ → Bool
is_late none seconds at = false
is_late (some t) seconds at = ltb (t + seconds) at

abbrev or_default : Option Decimal → Decimal
or_default none = Decimal.above false 300 0
or_default (some planned) = if is_zero planned then Decimal.above false 300 0 else planned

-- `remaining if remaining is not None else job.get("planned_duration_seconds") or 300`
abbrev seconds_left : Job → Decimal
seconds_left job = elim job.remaining_seconds [
  | none ↦ or_default job.planned_duration_seconds
  | some seconds ↦ seconds
]

-- `started + timedelta(seconds=seconds) < now`, for a number of seconds with decimals.
abbrev is_past_decimal : ℕ → Decimal → ℕ → Bool
is_past_decimal started seconds at =
    ltb started at && not (le_decimal (Decimal.above false (at - started) 0) seconds)

unfoldable pub is_overdue : Timeouts → Job → Command → ℕ → Bool
unfolding JobStatus-discrete CommandStatus-discrete
is_overdue timeouts job command at =
    if contains job.status (JobStatus.paused ∷ JobStatus.retry_wait ∷ [])
    then ltb (job.updated_at + timeouts.production_wait) at
    else if contains command.status (CommandStatus.delivering ∷ CommandStatus.published ∷ [])
    then is_late (coalesce command.published_at command.delivered_at) timeouts.command_ack at
    else if command.status == CommandStatus.acked
    then is_late command.acked_at timeouts.command_start at
    else if command.status == CommandStatus.executing
    then is_past_decimal (job.updated_at + timeouts.production_grace) (seconds_left job) at
    else false

-- `if due:`
unfoldable pub hold_due : Order → Job → Command → Action (Unit {0})
hold_due order job command = do
  transition_command command CommandStatus.unknown "watchdog"
      (some "device outcome requires reconciliation") none true
  update_job_hold job.id "DEVICE_OUTCOME_UNKNOWN" none
  transition_order order OrderStatus.hold "watchdog" (some "device outcome unknown") none
  pure tt

unfoldable pub hold_current : Timeouts → Order → Job → Option Command → Action (Unit {0})
unfolding CommandStatus-discrete
hold_current timeouts order job none = pure tt
hold_current timeouts order job (some command) =
    if contains command.status terminal_states then pure tt else (do
      at ← now
      if is_overdue timeouts job command at then hold_due order job command else pure tt)

abbrev pub find_linked : Option ℕ → Db → Option Command
find_linked none db = none
find_linked (some id) db = find_command id db

unfoldable pub hold_locked : Timeouts → Option Order → Option Job → Action (Unit {0})
unfolding OrderStatus-discrete JobStatus-discrete
hold_locked timeouts (some order) (some job) =
    if contains order.status final_orders
      || not (
          contains job.status (
            JobStatus.dispatched ∷ JobStatus.accepted ∷ JobStatus.executing ∷ JobStatus.paused
            ∷ JobStatus.retry_wait ∷ []))
    then pure tt
    else (do command ← gets (find_linked job.command_id); hold_current timeouts order job command)
hold_locked timeouts _ _ = pure tt

unfoldable pub hold_overdue_job : Timeouts → ℕ → ℕ → Action (Unit {0})
hold_overdue_job timeouts order_id job_id = do
  order ← gets (find_order order_id)
  job ← gets (lock_job job_id)
  hold_locked timeouts order job
