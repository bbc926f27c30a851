-- ===== src/Tests.antt =====
-- The theorems at work on one small database: an order that was paid by payment 7, of which
-- refund 9 has succeeded and refund 8 is in flight, and a second payment 6 that is pending.
mod Data
mod Gateways
mod Dispatching
mod Events
use coffee_cloud_mvp.Base.{
  if◌then◌else◌, ◌+◌, ℕ, ◌≤◌, ◌≡◌, refl, true, false, inl, inr, none, some, [], ◌∷◌, String, arith,
  Json, Option, Decimal, ◌==◌, nat_eq, string_eq, ◌⊎◌, Bool-cases,
}
use coffee_cloud_mvp.PaymentState.{
  PaymentStatus, PaymentStatus-discrete, RefundStatus, RefundStatus-discrete,
  decide_payment_transition, decide_refund_transition,
}
use coffee_cloud_mvp.PaymentState.Laws.{
  PaymentPath, RefundPath, HasMoney, PaymentPath-money, RefundPath-ended,
}
use coffee_cloud_mvp.CommandState.{CommandStatus, CommandStatus-discrete, decide_transition}
use coffee_cloud_mvp.ProductionState.Orders.{OrderStatus}
use coffee_cloud_mvp.ProductionState.Jobs.{
  JobStatus, JobStatus-discrete, JobEvent, decide_job_event, event_targets,
}
use coffee_cloud_mvp.ProductionState.Lockstep.{Lockstep, decide-Lockstep}
use coffee_cloud_mvp.Store.{
  Db, Order, Payment, Refund, InboxRow, OrderPayment, PaymentMode, Host, Job, Command,
  CommandOutbox, OutboxStatus, Result, Returns, Ensures, ok,
}
use coffee_cloud_mvp.PaymentRepository.{find_payment, refunded_total, refunded_sum}
use coffee_cloud_mvp.PaymentRepository.{insert_refund, refund_conflict, transition_payment_row}
use coffee_cloud_mvp.Transitions.Payments.{transition_payment}
use coffee_cloud_mvp.Refunds.Intents.{project_refunding, project_on}
use coffee_cloud_mvp.Refunds.Intents.{
  RefundIntent, is_refundable, replay_or_open, open_refund, replay_or_ensure, ensure_refund,
  create_refund_intent, ensure_automatic_refund_intent,
}
use coffee_cloud_mvp.Refunds.Outcomes.{apply_refund_outcome}
use coffee_cloud_mvp.Transitions.Orders.{transition_order}
use coffee_cloud_mvp.Transitions.OrderMoves.{OrderMoved, reached, transition_order-Returns}
use coffee_cloud_mvp.Ledger.Sound.{Sound, SettledAt}
use coffee_cloud_mvp.Ledger.Intents.{Created, create_refund_intent-Ensures}
use coffee_cloud_mvp.Ledger.Automatic.{Automatic, ensure_automatic_refund_intent-Ensures}
use coffee_cloud_mvp.Ledger.Refunding.{Applied, apply_refund_outcome-Returns}
use coffee_cloud_mvp.Callbacks.Amounts.{Values}
use coffee_cloud_mvp.Base.{times_100}
use coffee_cloud_mvp.Callbacks.First.{FirstAnswer, apply_paid_callback-FirstPaid}
use coffee_cloud_mvp.Callbacks.Amounts.{callback_amount_minor}
use coffee_cloud_mvp.Callbacks.Confirm.{merchant_number, trade_number}
use coffee_cloud_mvp.Callbacks.Confirm.{apply_paid_callback}
use coffee_cloud_mvp.Callbacks.Apply.{AmountMatches, apply_paid_callback-Ensures}
use coffee_cloud_mvp.Store.{err, raise_if}
use coffee_cloud_mvp.Store.{◌>>=◌}
use coffee_cloud_mvp.CommandRepository.{terminalize_outbox}
use coffee_cloud_mvp.ProductionState.Orders.{order_transition_allowed}
use coffee_cloud_mvp.Transitions.Orders.{apply_transition}
use coffee_cloud_mvp.OrderRepository.{update_transition_state}
use coffee_cloud_mvp.Store.{or_raise}
use coffee_cloud_mvp.Production.Expiry.{paid_for_order}
use coffee_cloud_mvp.CommandRepository.{transition_command_row}
use coffee_cloud_mvp.Production.Commands.{transition_command}
use coffee_cloud_mvp.Production.Expiry.{
  expire_order_for_command, expire_current, expire_due, withdraw, expire_job, expire_unsent,
  refund_paying,
}
use coffee_cloud_mvp.Production.Verdicts.{Expired}
use coffee_cloud_mvp.Production.Money.{expire_order_for_command-Ensures}
use coffee_cloud_mvp.Production.Coherence.{Together, expire_order_for_command-Together}
use coffee_cloud_mvp.Tests.Data.{
  sold, sold-Sound, host, order, paid, flying, ended, known, waiting, unpaid, fresh, first_values,
  job, command, db, values, db-Sound,
}

apply_refund_outcome-Returns_example :
    Returns
      (Applied paid RefundStatus.succeeded db)
      (apply_refund_outcome 8 RefundStatus.succeeded none "worker" db)
unfolding decide_refund_transition
apply_refund_outcome-Returns_example =
    apply_refund_outcome-Returns flying paid RefundStatus.succeeded none "worker" db db-Sound refl
      refl refl refl

apply_paid_callback-Ensures_example :
    Ensures
      (λ r db'. Sound db' × AmountMatches host values "MOCK" db)
      (apply_paid_callback host (λ d. d) "MOCK" "e2" values db)
apply_paid_callback-Ensures_example =
    apply_paid_callback-Ensures host (λ d. d) "MOCK" "e2" values db (λ d s. s) db-Sound refl

create_refund_intent-Ensures_example :
    Ensures
      (Created 7 "again" (some 500) sold)
      (create_refund_intent host 7 "again" "wrong cup" (some 500) none "admin" sold)
create_refund_intent-Ensures_example =
    create_refund_intent-Ensures host 7 "again" "wrong cup" (some 500) none "admin" sold sold-Sound

ensure_automatic_refund_intent-Ensures_example :
    Ensures
      (Automatic 7 "order:3" sold)
      (ensure_automatic_refund_intent host 7 "order:3" "failed" "worker" sold)
ensure_automatic_refund_intent-Ensures_example =
    ensure_automatic_refund_intent-Ensures host 7 "order:3" "failed" "worker" sold sold-Sound

-- The run of the second example: a new refund of the whole amount.
new_amount : Result (Option RefundIntent × Db) → Option ℕ
new_amount (ok (some i, db')) = if i.created then some (i.refund).amount_minor else none
new_amount _ = none

refunds_all :
    new_amount (ensure_automatic_refund_intent host 7 "order:3" "failed" "worker" sold) ≡ some 1250
unfolding new_amount ensure_automatic_refund_intent ensure_refund replay_or_ensure
    create_refund_intent replay_or_open open_refund ◌>>=◌ or_raise raise_if is_refundable
    PaymentStatus-discrete refunded_sum insert_refund refund_conflict transition_payment
    decide_payment_transition transition_payment_row project_refunding project_on
refunds_all = refl

decide-Lockstep_example :
    Lockstep OrderStatus.hold CommandStatus.unknown (event_targets JobEvent.succeeded)
unfolding decide_job_event
decide-Lockstep_example =
    decide-Lockstep JobStatus.hold JobEvent.succeeded (some 5) 4 OrderStatus.hold
      CommandStatus.unknown (refl, refl) refl

-- A paid payment is refunded in part, then in full.
refund_path : PaymentPath PaymentStatus.paid PaymentStatus.refunded
unfolding decide_payment_transition
refund_path = PaymentPath.move started refl
  where
    started : PaymentPath PaymentStatus.paid PaymentStatus.refunding
    started = PaymentPath.move PaymentPath.here refl

PaymentPath-money_example :
    HasMoney PaymentStatus.refunded ⊎ (PaymentStatus.refunded ≡ PaymentStatus.failed)
PaymentPath-money_example = PaymentPath-money refund_path (inl refl)

repeated_success : RefundPath RefundStatus.succeeded RefundStatus.succeeded
unfolding decide_refund_transition
repeated_success = RefundPath.move RefundPath.here refl

RefundPath-ended_example : RefundStatus.succeeded ≡ RefundStatus.succeeded
RefundPath-ended_example = RefundPath-ended repeated_success (inl refl)

transition_order-Returns_example :
    Returns
      (λ o db'.
        OrderMoved 3 db o db' × (o.status ≡ reached OrderStatus.failed OrderStatus.refunded))
      (transition_order order OrderStatus.refunded "worker" none none db)
transition_order-Returns_example =
    transition_order-Returns order OrderStatus.refunded "worker" none none db order refl refl

expire_order_for_command-Ensures_example :
    Ensures (Expired 30 db) (expire_order_for_command host (λ d. d) 30 db)
expire_order_for_command-Ensures_example =
    expire_order_for_command-Ensures host (λ d. d) 30 db (λ d s. s) db-Sound

expire_order_for_command-Together_example :
    Ensures (λ v db'. Together 30 4 db') (expire_order_for_command host (λ d. d) 30 db)
expire_order_for_command-Together_example =
    expire_order_for_command-Together host (λ d. d) 30 db job job waiting command refl refl refl
      refl (refl, inl refl)

-- The run of this example: the command was never sent, so all three expire.
verdict : Result (Option CommandStatus × Db) → Option CommandStatus
verdict (ok r) = r.0
verdict (err e) = none

expires : verdict (expire_order_for_command host (λ d. d) 30 db) ≡ some CommandStatus.expired
unfolding verdict expire_order_for_command expire_current expire_due withdraw expire_job
    expire_unsent refund_paying transition_order transition_command decide_transition ◌>>=◌
    terminalize_outbox order_transition_allowed apply_transition update_transition_state or_raise
    paid_for_order transition_command_row
expires = refl

apply_paid_callback-FirstPaid_example :
    Returns (FirstAnswer host 5 5) (apply_paid_callback host (λ d. d) "MOCK" "e3" first_values db)
unfolding merchant_number trade_number callback_amount_minor times_100 PaymentStatus-discrete
apply_paid_callback-FirstPaid_example =
    apply_paid_callback-FirstPaid host "MOCK" "e3" first_values db fresh unpaid refl refl refl refl
      refl refl refl refl refl refl refl
