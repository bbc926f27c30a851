-- ===== src/Tests/Events.antt =====
-- The theorems on the events of a device, with a dispatched job whose device acknowledges it.
use coffee_cloud_mvp.Base.{
  ◌≡◌, refl, Option, none, some, [], ◌∷◌, inl, inr, ◌⊎◌, Json, Fields, zero_decimal, List, ℕ,
}
use coffee_cloud_mvp.CommandState.{CommandStatus, CommandStatus-discrete, decide_transition}
use coffee_cloud_mvp.ProductionState.Orders.{
  OrderStatus, OrderStatus-discrete, order_transition_allowed,
}
use coffee_cloud_mvp.ProductionState.Jobs.{
  JobStatus-discrete, JobEvent, JobEvent-discrete, decide_job_event,
}
use coffee_cloud_mvp.Store.{Db, Result, ok, err, Returns, Ensures, ◌>>=◌, or_raise, raise_if}
use coffee_cloud_mvp.OrderRepository.{update_transition_state}
use coffee_cloud_mvp.CommandRepository.{transition_command_row}
use coffee_cloud_mvp.Transitions.Orders.{transition_order, apply_transition}
use coffee_cloud_mvp.Production.Commands.{transition_command}
use coffee_cloud_mvp.Production.Coherence.{Together}
use coffee_cloud_mvp.Callbacks.Sound.{same-Sound}
use coffee_cloud_mvp.PaymentState.{PaymentStatus-discrete}
use coffee_cloud_mvp.PaymentRepository.{
  insert_refund, refund_conflict, transition_payment_row, refunded_sum,
}
use coffee_cloud_mvp.Transitions.Payments.{transition_payment}
use coffee_cloud_mvp.Refunds.Intents.{project_refunding, project_on}
use coffee_cloud_mvp.PaymentState.{decide_payment_transition}
use coffee_cloud_mvp.DeviceEvents.Failures.{complete_failure}
use coffee_cloud_mvp.DispatchRepository.{enqueue, upsert_request}
use coffee_cloud_mvp.Refunds.Intents.{
  is_refundable, open_refund, replay_or_open, create_refund_intent, replay_or_ensure, ensure_refund,
  ensure_automatic_refund_intent,
}
use coffee_cloud_mvp.DeviceEvents.Metrics.{device_progress, device_revision_of, validate_metrics}
use coffee_cloud_mvp.DeviceEvents.Failures.{failure_of}
use coffee_cloud_mvp.DeviceEvents.Replies.{EventType, EventReply}
use coffee_cloud_mvp.DeviceEvents.Apply.{
  apply_event, task_event, create_automatic_refund_record, settle_hold, settle_failure, times_of,
}
use coffee_cloud_mvp.DeviceEvents.Reconcile.{
  locked_event, associated_event, located_event, checked_event, reconcile_device_event, is_final,
}
use coffee_cloud_mvp.DeviceEvents.Money.{Reconciled, reconcile_device_event-Refunds}
use coffee_cloud_mvp.DeviceEvents.Coherence.{reconcile_device_event-Together}
use coffee_cloud_mvp.DeviceEvents.Replays.{InUnit, locked_event-stale, device_progress-InUnit}
use coffee_cloud_mvp.Production.Overdue.{Timeouts, hold_overdue_job}
use coffee_cloud_mvp.DeviceEvents.Watchdog.{hold_overdue_job-Together}
use coffee_cloud_mvp.Tests.Data.{host, db, job, command, waiting, sold, sold-Sound}
use coffee_cloud_mvp.Store.{Command, Refund}

abbrev sent : Command
sent = record command {
  payload_json = Json.object (Fields.field "taskId" (Json.text "task") Fields.end);
}

abbrev making : Db
making = record db { commands = sent ∷ [] }

abbrev report : Json
report = Json.object (
    Fields.field "overallProgress" (Json.number 3)
      (Fields.field "taskRevision" (Json.number 1) Fields.end))

abbrev body : Json
body =
    Json.object
      (Fields.field "taskId" (Json.text "task") (Fields.field "payload" report Fields.end))

abbrev accepted : EventType
accepted = EventType.task JobEvent.acknowledged

-- The task of a paid order fails.
abbrev lost : EventType
lost = EventType.task JobEvent.failed

abbrev losing : Db
losing = record sold {
  orders = record waiting { paid_payment_id = some 7 } ∷ [];
  commands = sent ∷ [];
}

reconcile_device_event-Refunds_example :
    Ensures
      (Reconciled (λ d. d) lost losing)
      (reconcile_device_event host (λ d. d) 1 body lost losing)
reconcile_device_event-Refunds_example =
    reconcile_device_event-Refunds host (λ d. d) 1 body lost losing
      (same-Sound tt sold losing (refl, refl) sold-Sound) (λ d s. s)

-- The run of this example: one more refund, of the whole amount.
amounts_of : List Refund → List ℕ
amounts_of [] = []
amounts_of (f ∷ fs) = f.amount_minor ∷ amounts_of fs

amounts : Result (Option EventReply × Db) → List ℕ
amounts (ok r) = amounts_of (r.1).refunds
amounts (err e) = []

refunds_lost : amounts (reconcile_device_event host (λ d. d) 1 body lost losing) ≡ 1250 ∷ []
unfolding amounts amounts_of reconcile_device_event checked_event located_event associated_event
    locked_event task_event apply_event create_automatic_refund_record
    ensure_automatic_refund_intent ensure_refund replay_or_ensure create_refund_intent
    replay_or_open open_refund is_refundable settle_hold settle_failure times_of is_final failure_of
    device_progress device_revision_of validate_metrics decide_job_event decide_transition
    order_transition_allowed transition_order apply_transition update_transition_state
    transition_command transition_command_row ◌>>=◌ or_raise raise_if OrderStatus-discrete
    JobStatus-discrete JobEvent-discrete CommandStatus-discrete PaymentStatus-discrete
    complete_failure enqueue upsert_request refunded_sum insert_refund refund_conflict
    transition_payment decide_payment_transition transition_payment_row project_refunding project_on
refunds_lost = refl

reconcile_device_event-Together_example :
    Ensures
      (λ r db'. (db' ≡ making) ⊎ Together 30 4 db')
      (reconcile_device_event host (λ d. d) 1 body accepted making)
reconcile_device_event-Together_example =
    reconcile_device_event-Together host (λ d. d) 1 body accepted making "task" 30 job job waiting
      sent refl refl refl refl refl refl refl (refl, inl refl)

-- The run of this example.
order_of : Result (Option EventReply × Db) → Option OrderStatus
order_of (ok (some (EventReply.applied order status reply), d)) = some status
order_of _ = none

accepts :
    order_of (reconcile_device_event host (λ d. d) 1 body accepted making)
    ≡ some OrderStatus.accepted
unfolding order_of reconcile_device_event checked_event device_revision_of validate_metrics
    located_event associated_event locked_event is_final task_event apply_event failure_of
    device_progress transition_command transition_command_row settle_hold settle_failure times_of
    transition_order apply_transition update_transition_state decide_job_event decide_transition
    order_transition_allowed ◌>>=◌ or_raise raise_if OrderStatus-discrete JobStatus-discrete
    JobEvent-discrete CommandStatus-discrete
accepts = refl

locked_event-stale_example :
    Returns
      (λ r db'. db' ≡ making)
      (locked_event host 1 body report (some 0) accepted waiting job sent making)
locked_event-stale_example =
    locked_event-stale host 1 body report (some 0) waiting job sent making (inr refl) accepted

device_progress-InUnit_example :
    Ensures
      (λ p db'. (db' ≡ making) × InUnit p.0 × InUnit p.1)
      (device_progress report zero_decimal zero_decimal making)
device_progress-InUnit_example = device_progress-InUnit report zero_decimal zero_decimal making

abbrev timeouts : Timeouts
timeouts = record {
  production_wait = 60;
  command_ack = 5;
  command_start = 20;
  production_grace = 30;
}

-- The command was published long ago and is not acknowledged.
abbrev published : Command
published = record sent { status = CommandStatus.published; published_at = some 15 }

abbrev silent : Db
silent = record db { commands = published ∷ [] }

hold_overdue_job-Together_example :
    Ensures (λ u db'. Together 30 4 db') (hold_overdue_job timeouts 4 20 silent)
hold_overdue_job-Together_example =
    hold_overdue_job-Together timeouts 4 20 30 waiting job published silent refl refl refl refl refl
      (refl, inr (inr refl))
