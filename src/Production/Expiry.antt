-- ===== src/Production/Expiry.antt =====
-- app/services/production.py: `expire_order_for_command`. The argument `wait` is what other
-- transactions commit between the unlocked first pass and the row locks.
use coffee_cloud_mvp.Base.{
  ℕ, Bool, true, false, not, ◌&&◌, ◌||◌, Option, none, some, List, [], ◌∷◌, ◌<>◌, Json,
  if◌then◌else◌, ◌==◌, nat_eq, ltb, contains, is_some, Fields,
}
use coffee_cloud_mvp.PaymentState.{PaymentStatus, payment_status_eq, PaymentStatus-discrete}
use coffee_cloud_mvp.CommandState.{CommandStatus, command_status_eq, CommandStatus-discrete}
use coffee_cloud_mvp.ProductionState.Orders.{OrderStatus}
use coffee_cloud_mvp.ProductionState.Jobs.{JobStatus, job_status_eq, JobStatus-discrete}
use coffee_cloud_mvp.Store.{
  Db, Order, OrderPayment, Payment, Job, Command, CommandOutbox, OutboxStatus, Host, Action, ◌>>=◌,
  ◌>>◌, pure, gets, modify, now,
}
use coffee_cloud_mvp.OrderRepository.{find_order, update_failure}
use coffee_cloud_mvp.OrderRepository.Jobs.{job_for_command, update_job_expired, update_job_hold}
use coffee_cloud_mvp.CommandRepository.{find_command, outbox_for_command, terminalize_outbox}
use coffee_cloud_mvp.Transitions.Orders.{transition_order}
use coffee_cloud_mvp.Refunds.Intents.{is_refundable, ensure_automatic_refund_intent}
use coffee_cloud_mvp.Production.Commands.{transition_command}

abbrev is_pending : OutboxStatus → Bool
is_pending OutboxStatus.pending = true
is_pending _ = false

-- `outbox_claimed`
abbrev pub is_claimed : Option CommandOutbox → Bool
is_claimed none = false
is_claimed (some outbox) =
    not (is_pending outbox.status) || ltb 0 outbox.attempt_count || is_some outbox.published_at

-- `delivered_evidence`
abbrev pub may_be_sent : Option CommandOutbox → Command → Bool
may_be_sent outbox command =
    is_claimed outbox || is_some command.published_at || is_some command.delivered_at

abbrev pub verdict_of : Bool → CommandStatus
verdict_of evidence = if evidence then CommandStatus.unknown else CommandStatus.expired

-- `expires_at is None or expires_at > utc_now()`
abbrev pub not_due : Option ℕ → ℕ → Bool
not_due none at = true
not_due (some t) at = ltb at t

-- `if outbox is not None and not outbox_claimed`
unfoldable pub withdraw : Option CommandOutbox → Action (Unit {0})
withdraw none = pure tt
withdraw (some outbox) =
    if is_claimed (some outbox) then pure tt else terminalize_outbox outbox.id OutboxStatus.expired

-- `{"code": "COMMAND_EXPIRED", "messageId": ...}`
abbrev pub expiry_failure : Command → Json
expiry_failure command = Json.object (
    Fields.field "code" (Json.text "COMMAND_EXPIRED")
      (Fields.field "messageId" (Json.text command.message_id) Fields.end))

unfoldable pub hold_sent : Order → Job → Command → Action (Unit {0})
hold_sent order job command = do
  update_job_hold job.id "COMMAND_EXPIRED_AFTER_DELIVERY" (some (expiry_failure command))
  update_failure order.id (some "COMMAND_EXPIRED") (some "制作指令送达后超时，物理结果未知，需人工核对")
  transition_order order OrderStatus.hold "timeout-monitor"
      (some "command expired after delivery; outcome unknown") none
  pure tt

-- `paid_for_order`: PostgreSQL puts a null `paid_at` first in descending order.
abbrev is_later : Option ℕ → Option ℕ → Bool
is_later (some a) none = false
is_later (some a) (some b) = not (ltb a b)
is_later none b = true

abbrev is_collected : PaymentStatus → Bool
is_collected s = contains s (PaymentStatus.paid ∷ PaymentStatus.partially_refunded ∷ [])

abbrev later : Payment → Option Payment → Payment
later p none = p
later p (some q) = if is_later p.paid_at q.paid_at then p else q

unfoldable pub paid_for_order : ℕ → List Payment → Option Payment
unfolding PaymentStatus-discrete
paid_for_order id [] = none
paid_for_order id (p ∷ ps) =
    let rest = paid_for_order id ps in
    if p.order_id == id && is_collected p.status then some (later p rest) else rest

abbrev payment_key : Option Payment → Option ℕ
payment_key none = none
payment_key (some p) = some p.id

-- `order.get("paid_payment_id")`, or the order's latest paid payment.
abbrev pub paying : Order → Db → Option ℕ
paying order db = elim order.paid_payment_id [
  | none ↦ payment_key (paid_for_order order.id db.payments)
  | some id ↦ some id
]

abbrev pub has_refundable : OrderPayment → Bool
has_refundable (OrderPayment.as_payment s) = is_refundable s
has_refundable _ = false

module _ (host : Host) where
  unfoldable pub refund_paying : Order → Option ℕ → Action (Unit {0})
  refund_paying order none = pure tt
  refund_paying order (some id) = do
    ensure_automatic_refund_intent host id
        ("order:" <> host.uuid_text order.id <> ":command-expired-refund")
        "command expired before delivery" "timeout-monitor"
    pure tt

  unfoldable pub expire_unsent : Order → Job → Command → Action (Unit {0})
  unfolding is_refundable
  expire_unsent order job command = do
    update_job_expired job.id (expiry_failure command)
    update_failure order.id (some "COMMAND_EXPIRED") (some "设备未在时限内接收制作指令")
    transition_order order OrderStatus.expired "timeout-monitor" (some "device command expired")
        none
    if has_refundable order.payment_status
        then (do primary ← gets (paying order); refund_paying order primary)
        else pure tt

  -- A command without a job that waits for the device expires alone.
  unfoldable pub expire_job : Option Order → Option Job → Bool → Command → Action (Unit {0})
  unfolding JobStatus-discrete
  expire_job (some order) (some job) evidence command =
      if contains job.status (JobStatus.dispatched ∷ JobStatus.queued ∷ [])
      then if evidence then hold_sent order job command else expire_unsent order job command
      else pure tt
  expire_job _ _ evidence command = pure tt

  unfoldable pub expire_due : Option Order → Option Job → Command → Action (Option CommandStatus)
  expire_due order job command = do
    outbox ← gets (outbox_for_command command.id)
    withdraw outbox
    let verdict = verdict_of (may_be_sent outbox command)
    expire_job order job (may_be_sent outbox command) command
    transition_command command verdict "timeout-monitor" (some "command delivery deadline exceeded")
        none true
    pure (some verdict)

  unfoldable pub expire_current :
      Option Order → Option Job → Option Command → Action (Option CommandStatus)
  unfolding CommandStatus-discrete
  expire_current order job none = pure none
  expire_current order job (some command) =
      if not (command.status == CommandStatus.created) then pure none else (do
        at ← now
        if not_due command.expires_at at then pure none else expire_due order job command)

  -- The order of the located job under its lock, and then the job.
  abbrev pub locked_order : Option Job → Db → Option Order
  locked_order none db = none
  locked_order (some job) db = find_order job.order_id db

  abbrev pub locked_job : Option Order → ℕ → Db → Option Job
  locked_job none id db = none
  locked_job (some order) id db = job_for_command id db

  unfoldable pub expire_order_for_command : (Db → Db) → ℕ → Action (Option CommandStatus)
  expire_order_for_command wait id = do
    located ← gets (job_for_command id)
    modify wait
    order ← gets (locked_order located)
    job ← gets (locked_job order id)
    current ← gets (find_command id)
    expire_current order job current
