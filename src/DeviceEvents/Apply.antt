-- ===== src/DeviceEvents/Apply.antt =====
-- app/services/production.py: the part of `reconcile_device_event` that changes a job, its order
-- and its command, and `create_automatic_refund_record`.
use coffee_cloud_mvp.Base.{
  ℕ, Bool, true, false, not, ◌&&◌, ◌||◌, Option, none, some, List, [], ◌∷◌, ◌<>◌, String, Json,
  Decimal, if◌then◌else◌, ◌==◌, nat_eq, string_eq, contains, is_some, get_key, or_json, is_truthy,
  coalesce, zero_decimal, one_decimal,
}
use coffee_cloud_mvp.CommandState.{command_status_eq, decide_transition}
use coffee_cloud_mvp.ProductionState.Orders.{
  OrderStatus, order_status_eq, OrderStatus-discrete, order_transition_allowed,
}
use coffee_cloud_mvp.ProductionState.Jobs.{
  JobStatus, JobEvent, job_status_eq, job_event_eq, JobStatus-discrete, final_jobs, event_targets,
  decide_job_event,
}
use coffee_cloud_mvp.Store.{
  Db, Order, Payment, Job, Command, Host, Action, ◌>>=◌, ◌>>◌, pure, gets, or_raise, now, exception,
}
use coffee_cloud_mvp.OrderRepository.{update_failure}
use coffee_cloud_mvp.OrderRepository.Jobs.{update_job_hold}
use coffee_cloud_mvp.OrderRepository.Progress.{Metrics, update_job_terminal, clear_job_hold}
use coffee_cloud_mvp.PaymentRepository.{find_payment}
use coffee_cloud_mvp.DispatchRepository.{enqueue}
use coffee_cloud_mvp.Transitions.Orders.{transition_order}
use coffee_cloud_mvp.Refunds.Intents.{is_refundable, ensure_automatic_refund_intent}
use coffee_cloud_mvp.Production.Commands.{transition_command}
use coffee_cloud_mvp.Production.Expiry.{paying}
use coffee_cloud_mvp.DeviceEvents.Metrics.{number_of, attempt_of, device_progress}
use coffee_cloud_mvp.DeviceEvents.Failures.{failure_of}
use coffee_cloud_mvp.DeviceEvents.Replies.{
  EventReply, IgnoredReason, reply_of, event_text, dispatch_reason,
}

-- `TERMINAL_ORDER_STATUSES`
abbrev pub terminal_orders : List OrderStatus
terminal_orders =
    OrderStatus.ready ∷ OrderStatus.failed ∷ OrderStatus.cancelled ∷ OrderStatus.expired
    ∷ OrderStatus.refunded ∷ []

abbrev pub ignore : Order → Command → IgnoredReason → EventReply
ignore order command reason =
    EventReply.ignored order.id order.status reason (reply_of command true)

-- `value if value else None`, for a column
abbrev pub if_truthy : Json → Option Json
if_truthy value = if is_truthy value then some value else none

-- `value if value is not None else None`, for a column: a column that is not written keeps its value.
abbrev pub if_present : Json → Option Json
if_present Json.null = none
if_present value = some value

-- `x if wanted and not old else old`
abbrev first_time : Bool → Option ℕ → ℕ → Option ℕ
first_time wanted old at = if wanted && not (is_some old) then some at else old

-- `order.get("failure_code")`, as a condition
abbrev pub is_set : Option String → Bool
is_set none = false
is_set (some text) = not (text == "")

abbrev is_succeeded : JobEvent → Bool
is_succeeded JobEvent.succeeded = true
is_succeeded _ = false

-- `accepted_at`, `started_at` and `completed_at`
unfoldable pub times_of : JobStatus → Job → ℕ → Option ℕ × Option ℕ × Option ℕ
unfolding JobStatus-discrete
times_of status job at = (
  first_time (status == JobStatus.accepted) job.accepted_at at,
  first_time (status == JobStatus.executing) job.started_at at,
  if contains status final_jobs then some at else job.completed_at,
)

module _ (host : Host) where
  -- A value for a nullable text column.
  abbrev pub to_column : Json → Action (Option String)
  to_column Json.null = pure none
  to_column value = do
    text ← or_raise (exception "ProgrammingError") (host.column_text value)
    pure (some text)

  abbrev pub refund_of : Order → Job → JobEvent → Option Payment → Action (Unit {0})
  refund_of order job event none = pure tt
  refund_of order job event (some payment) =
      if is_refundable payment.status
      then (do
        ensure_automatic_refund_intent host payment.id
            ("production:" <> host.uuid_text job.id <> ":automatic-refund")
            ("production failure: " <> event_text event) "production-service"
        pure tt)
      else pure tt

  abbrev pub payment_of : Option ℕ → Db → Option Payment
  payment_of none db = none
  payment_of (some id) db = find_payment id db

  unfoldable pub create_automatic_refund_record : Order → Job → JobEvent → Action (Unit {0})
  unfolding is_refundable
  create_automatic_refund_record order job event = do
    payment ← gets (λ db. payment_of (paying order db) db)
    refund_of order job event payment

  -- The values of an event that finishes, starts or holds the job.
  abbrev pub metrics_of : JobEvent → Json → Option ℕ → Decimal × Decimal → Metrics
  metrics_of event payload revision progress =
      let planned = number_of (get_key "plannedDurationSeconds" payload) in
      let elapsed = number_of (get_key "elapsedSeconds" payload) in
      let succeeded = is_succeeded event in
      record {
        progress = if succeeded then one_decimal else progress.0;
        step_progress = if succeeded then one_decimal else progress.1;
        planned = planned;
        elapsed = if succeeded then coalesce planned elapsed else elapsed;
        remaining =
            if succeeded then some zero_decimal else number_of (get_key "remainingSeconds" payload);
        device_revision = revision;
        attempt = attempt_of (get_key "attempt" payload);
      }

  -- The hold of the job after its columns are written.
  unfoldable pub settle_hold : ℕ → JobStatus → Action (Unit {0})
  unfolding JobStatus-discrete
  settle_hold id status =
      if status == JobStatus.hold
      then update_job_hold id "DEVICE_RESTARTED_OUTCOME_UNKNOWN" none
      else if contains status final_jobs
      then clear_job_hold id
      else pure tt

  -- The failure columns of the order.
  unfoldable pub settle_failure : Order → JobStatus → Json → Json → Action (Unit {0})
  unfolding JobStatus-discrete
  settle_failure order status failure body =
      if is_truthy failure
      then (do
        code ← to_column (
            or_json (or_json (get_key "code" failure) (get_key "errorCode" failure))
              (Json.text "PRODUCTION_FAILED"))
        message ← to_column (
            or_json (or_json (get_key "message" failure) (get_key "message" body))
              (Json.text "制作失败"))
        update_failure order.id code message)
      else if contains status (JobStatus.executing ∷ JobStatus.succeeded ∷ [])
          && is_set order.failure_code
      then update_failure order.id none none
      else pure tt

  abbrev pub refund_after : Order → Job → JobEvent → Action (Unit {0})
  refund_after order job event = elim event [
    | JobEvent.failed ↦ create_automatic_refund_record order job JobEvent.failed
    | JobEvent.rejected ↦ create_automatic_refund_record order job JobEvent.rejected
    | JobEvent.cancelled ↦ create_automatic_refund_record order job JobEvent.cancelled
    | _ ↦ pure tt
  ]

  abbrev pub dispatch_after : ℕ → OrderStatus → Action (Unit {0})
  dispatch_after terminal status =
      if contains status terminal_orders
      then enqueue host terminal (dispatch_reason status)
      else pure tt

  -- The statements after the last refusal.
  unfoldable pub apply_event :
      ℕ → Json → Json → Option ℕ → JobEvent → Order → Job → Command → Action EventReply
  unfolding JobStatus-discrete OrderStatus-discrete
  apply_event terminal body payload revision event order job command = do
    let (order_status, job_status, command_status) = event_targets event
    failure ← failure_of host event body payload
    progress ← device_progress payload job.progress job.step_progress
    at ← now
    (updated, duplicate) ←
        transition_command command command_status "device-event" (some (event_text event))
          (some body) true
    update_job_terminal job.id job_status (metrics_of event payload revision progress)
        (if_present (or_json (get_key "stepPlan" payload) (get_key "stepDurations" payload)))
        (if_truthy failure) (times_of job_status job at)
    settle_hold job.id job_status
    settle_failure order job_status failure body
    moved ← transition_order order order_status "device-event" (some (event_text event)) (some body)
    refund_after moved job event
    dispatch_after terminal order_status
    pure (EventReply.applied order.id moved.status (reply_of updated duplicate))

  abbrev pub is_coordinated : JobEvent → Order → Command → Bool
  is_coordinated event order command =
      order_transition_allowed order.status (event_targets event).0
      && (decide_transition command.status (event_targets event).2).allowed

  unfoldable pub task_event :
      ℕ → Json → Json → Option ℕ → JobEvent → Order → Job → Command → Action EventReply
  task_event terminal body payload revision event order job command =
      let decision = decide_job_event job.status event revision job.last_device_revision in
      if not decision.allowed || decision.duplicate
      then pure (ignore order command (IgnoredReason.decided decision.reason))
      else if not (is_coordinated event order command)
      then pure (ignore order command IgnoredReason.illegal_coordinated_transition)
      else apply_event terminal body payload revision event order job command
