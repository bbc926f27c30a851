-- ===== src/DeviceEvents/Reconcile.antt =====
-- app/services/production.py: `reconcile_device_event`. The argument `wait` is what other
-- transactions commit between the unlocked search for the job and the row locks.
use coffee_cloud_mvp.Base.{
  ℕ, Bool, true, false, not, ◌&&◌, ◌||◌, Option, none, some, String, Json, Decimal, if◌then◌else◌,
  ◌==◌, nat_eq, string_eq, leb, ltb, contains, get_key, is_truthy, is_null, is_text, select,
  sort_by, first,
}
use coffee_cloud_mvp.CommandState.{
  CommandStatus, command_status_eq, CommandStatus-discrete, terminal_states,
}
use coffee_cloud_mvp.ProductionState.Orders.{
  OrderStatus, order_status_eq, OrderStatus-discrete, final_orders,
}
use coffee_cloud_mvp.ProductionState.Jobs.{
  JobStatus, JobEvent, job_status_eq, JobStatus-discrete, final_jobs, event_targets, is_older,
  is_same,
}
use coffee_cloud_mvp.Store.{
  Db, Order, Job, Command, Host, Action, ◌>>=◌, ◌>>◌, pure, raise, raise_if, gets, or_raise, modify,
  http,
}
use coffee_cloud_mvp.OrderRepository.{find_order}
use coffee_cloud_mvp.OrderRepository.Queue.{lock_job}
use coffee_cloud_mvp.OrderRepository.Progress.{Metrics, job_for_task, update_job_progress}
use coffee_cloud_mvp.CommandRepository.{find_command}
use coffee_cloud_mvp.Production.Commands.{transition_command}
use coffee_cloud_mvp.DeviceEvents.Metrics.{
  event_payload_of, event_task_id, device_revision_of, validate_metrics, number_of, attempt_of,
  device_progress,
}
use coffee_cloud_mvp.DeviceEvents.Replies.{
  EventType, EventReply, IgnoredReason, reply_of, event_text,
}
use coffee_cloud_mvp.DeviceEvents.Apply.{ignore, to_column, task_event}

-- `value->>key = text`: the text of a JSON value that is no text is the database's.
abbrev reads_as : Host → String → Json → Bool
reads_as host task (Json.text s) = s == task
reads_as host task Json.null = false
reads_as host task value = host.json_text value == task

-- `CommandRepository.by_task`, newest first.
abbrev pub by_task : Host → ℕ → String → Db → Option Command
by_task host terminal task db = first (
    sort_by (λ a b. leb b.id a.id)
      (select
        (λ c.
          c.terminal_id == terminal
          && reads_as host task (get_key "taskId" c.payload_json)
          && c.command_type == "MAKE_DRINK")
        db.commands))

-- `body["taskId"] != event_payload["taskId"]`, of two that are set.
abbrev tasks_differ : Json → Json → Bool
tasks_differ Json.null nested = false
tasks_differ direct Json.null = false
tasks_differ direct (Json.text s) = not (is_text s direct)
tasks_differ direct nested = true

-- `value not in {None, text}`
abbrev is_other : String → Json → Bool
is_other text value = not (is_null value) && not (is_text text value)

abbrev pub is_earlier_attempt : Option ℕ → ℕ → Bool
is_earlier_attempt none last = false
is_earlier_attempt (some n) last = ltb n last

unfoldable pub is_final : Order → Job → Command → Bool
unfolding OrderStatus-discrete JobStatus-discrete CommandStatus-discrete
is_final order job command =
    contains order.status final_orders
    || contains job.status final_jobs
    || contains command.status terminal_states

-- The association of the command with the job's terminal and task.
abbrev is_stranger : ℕ → String → Command → Bool
is_stranger terminal task command =
    not (command.command_type == "MAKE_DRINK")
    || not (command.terminal_id == terminal)
    || not (is_text task (get_key "taskId" command.payload_json))

-- A task without a job.
unfoldable pub standalone_event :
    Json → Json → EventType → Option Command → Action (Option EventReply)
unfolding CommandStatus-discrete
standalone_event body payload (EventType.task event) (some command) =
    let target = (event_targets event).2 in
    do
      raise_if (is_other command.message_id (get_key "messageId" payload))
          (http 409 "task command association mismatch")
      if command.status == CommandStatus.unknown && not (contains target terminal_states)
          then pure (some EventReply.held)
          else (do
            (updated, duplicate) ←
                transition_command command target "device-event" (some (event_text event))
                  (some body) false
            pure (some (EventReply.standalone (reply_of updated duplicate))))
standalone_event body payload type command = pure none

module _ (host : Host) where
  -- `step.started` and `step.completed`
  abbrev pub is_stale_step : Option ℕ → Order → Job → Bool
  is_stale_step revision order job =
      not (job.status == JobStatus.executing)
      || not (order.status == OrderStatus.making)
      || is_older revision job.last_device_revision
      || is_same revision job.last_device_revision

  abbrev pub step_metrics : Json → Option ℕ → Decimal × Decimal → Metrics
  step_metrics payload revision progress = record {
    progress = progress.0;
    step_progress = progress.1;
    planned = none;
    elapsed = number_of (get_key "elapsedSeconds" payload);
    remaining = number_of (get_key "remainingSeconds" payload);
    device_revision = revision;
    attempt = attempt_of (get_key "attempt" payload);
  }

  unfoldable pub step_event : Json → Json → Option ℕ → Order → Job → Command → Action EventReply
  unfolding JobStatus-discrete OrderStatus-discrete
  step_event body payload revision order job command =
      if is_stale_step revision order job
      then pure (ignore order command IgnoredReason.stale_step)
      else (do
        (overall, step) ← device_progress payload job.progress job.step_progress
        step_id ← to_column host (get_key "stepId" payload)
        step_name ← to_column host (
            if is_truthy (get_key "stepName" payload)
            then get_key "stepName" payload
            else get_key "message" body)
        update_job_progress job.id (step_metrics payload revision (overall, step)) step_id step_name
        pure (EventReply.progressed order.id))

  -- The job, its order and its command under their locks.
  unfoldable pub locked_event :
      ℕ → Json → Json → Option ℕ → EventType → Order → Job → Command → Action EventReply
  locked_event terminal body payload revision type order job command =
      if is_earlier_attempt (attempt_of (get_key "attempt" payload)) job.execution_attempt
      then pure (ignore order command IgnoredReason.stale_attempt)
      else if is_final order job command
      then pure (ignore order command IgnoredReason.final_state)
      else elim type [
        | EventType.task event ↦
            task_event host terminal body payload revision event order job command
        | _ ↦ step_event body payload revision order job command
      ]

  unfoldable pub associated_event :
      ℕ
      → String
      → Json
      → Json
      → Option ℕ
      → EventType
      → Order
      → Job
      → Option Command
      → Action EventReply
  associated_event terminal task body payload revision type order job none =
      raise (http 409 "production command association mismatch")
  associated_event terminal task body payload revision type order job (some command) = do
    raise_if (is_stranger terminal task command)
        (http 409 "production command association mismatch")
    raise_if
        (is_other command.message_id (get_key "messageId" payload)
          || is_other (host.uuid_text order.id) (get_key "orderId" payload))
        (http 409 "task event association mismatch")
    locked_event terminal body payload revision type order job command

  abbrev pub dispatched_event :
      ℕ → String → Json → Json → Option ℕ → EventType → Order → Job → Option ℕ → Action EventReply
  dispatched_event terminal task body payload revision type order job none =
      pure EventReply.not_dispatched
  dispatched_event terminal task body payload revision type order job (some id) = do
    command ← gets (find_command id)
    associated_event terminal task body payload revision type order job command

  abbrev pub job_event :
      ℕ
      → String
      → Json
      → Json
      → Option ℕ
      → EventType
      → Option Order
      → Option Job
      → Action EventReply
  job_event terminal task body payload revision type (some order) (some job) =
      dispatched_event terminal task body payload revision type order job job.command_id
  job_event terminal task body payload revision type _ _ = pure EventReply.not_dispatched

  unfoldable pub located_event :
      (Db → Db)
      → ℕ
      → String
      → Json
      → Json
      → Option ℕ
      → EventType
      → Option Job
      → Action (Option EventReply)
  located_event wait terminal task body payload revision type none = do
    command ← gets (by_task host terminal task)
    standalone_event body payload type command
  located_event wait terminal task body payload revision type (some located) = do
    modify wait
    order ← gets (find_order located.order_id)
    job ← gets (lock_job located.id)
    reply ← job_event terminal task body payload revision type order job
    pure (some reply)

  -- `event_type == "task.recovered" and event_payload.get("state") != "PAUSED"`
  abbrev pub is_ignored_recovery : EventType → Json → Bool
  is_ignored_recovery (EventType.task JobEvent.recovered) payload =
      not (is_text "PAUSED" (get_key "state" payload))
  is_ignored_recovery type payload = false

  unfoldable pub checked_event : (Db → Db) → ℕ → Json → EventType → Action (Option EventReply)
  checked_event wait terminal body type =
      let payload = event_payload_of body in
      do
        revision ← device_revision_of payload
        validate_metrics payload
        task ← or_raise (http 422 "taskId is required for production events") (event_task_id body)
        raise_if (tasks_differ (get_key "taskId" body) (get_key "taskId" payload))
            (http 409 "conflicting taskId fields")
        if is_ignored_recovery type payload then pure (some EventReply.ignored_recovery) else (do
          located ← gets (job_for_task terminal task)
          located_event wait terminal task body payload revision type located)

  unfoldable pub reconcile_device_event :
      (Db → Db) → ℕ → Json → EventType → Action (Option EventReply)
  reconcile_device_event wait terminal body EventType.task_progress =
      pure (some EventReply.ephemeral_progress)
  reconcile_device_event wait terminal body EventType.other = pure none
  reconcile_device_event wait terminal body type = checked_event wait terminal body type
