-- ===== src/Callbacks/Confirm.antt =====
-- app/payment_service.py: `apply_paid_callback`. Between the unlocked first pass and the
-- grant of the order's row lock other transactions may commit: `wait` is what they did.
use coffee_cloud_mvp.Base.{
  ℕ, ◌+◌, Bool, true, false, not, ◌&&◌, Option, none, some, List, [], ◌∷◌, String, ◌<>◌, Json,
  coalesce, any, find, if◌then◌else◌, ◌==◌, nat_eq, string_eq, contains, update_id, is_some,
}
use coffee_cloud_mvp.PaymentState.{PaymentStatus, payment_status_eq, PaymentStatus-discrete}
use coffee_cloud_mvp.ProductionState.Orders.{OrderStatus, order_status_eq, OrderStatus-discrete}
use coffee_cloud_mvp.Store.{
  Db, Order, OrderPayment, Payment, EventId, InboxRow, OutboxRow, Host, Action, ok, err, ◌>>=◌,
  ◌>>◌, pure, raise, raise_if, or_raise, gets, modify, http, none_row, assertion, integrity,
}
use coffee_cloud_mvp.PaymentRepository.{payment_id, find_payment}
use coffee_cloud_mvp.OrderRepository.{find_order, set_orders}
use coffee_cloud_mvp.Transitions.Payments.{transition_payment}
use coffee_cloud_mvp.Refunds.Intents.{is_refundable, draw, ensure_automatic_refund_intent}
use coffee_cloud_mvp.Callbacks.Amounts.{
  Values, get, truthy, or_else, as_json, callback_amount_minor,
}

-- `PAID_CALLBACK_STATUSES`
abbrev pub paid_callback_statuses : List PaymentStatus
paid_callback_statuses =
    PaymentStatus.paid ∷ PaymentStatus.refunding ∷ PaymentStatus.partially_refunded
    ∷ PaymentStatus.refunded ∷ []

-- `DEAD_ORDER_STATUSES`
abbrev pub dead_order_statuses : List OrderStatus
dead_order_statuses = OrderStatus.cancelled ∷ OrderStatus.expired ∷ OrderStatus.failed ∷ []

abbrev pub find_inbox : String → String → Db → Option InboxRow
find_inbox provider event db =
    find (λ r. r.provider == provider && r.provider_event_id == event) db.inbox

abbrev pub find_merchant : String → String → Db → Option Payment
find_merchant provider number db =
    find (λ p. p.provider == provider && p.merchant_payment_no == number) db.payments

abbrev pub set_payment : ℕ → (Payment → Payment) → Db → Db
set_payment id f db = record db { payments = update_id payment_id id f db.payments }

-- The row and the audit event of `_record_late_paid`.
abbrev pub late_paid : ℕ → Json → Payment → ℕ → Payment
late_paid revision values p at = record p {
  status = PaymentStatus.paid;
  revision = revision;
  updated_at = at;
  paid_at = coalesce p.paid_at (some at);
  provider_response = coalesce p.provider_response (some values);
}

abbrev pub with_late_paid : Payment → String → Json → Db → Db
with_late_paid payment provider values db = record db {
  payments =
      update_id payment_id payment.id (λ p. late_paid (payment.revision + 1) values p db.clock)
        db.payments;
  payment_events =
      record {
        payment_id = payment.id;
        event_id = EventId.late_paid (payment.revision + 1);
        event_type = "payment.late_paid_recorded";
        actor = provider <> "-callback";
        payload_json = values;
      }
      ∷ db.payment_events;
}

-- `str(values.get("out_trade_no") or values.get("merchant_payment_no") or "")`
unfoldable pub merchant_number : Values → String
unfolding get
merchant_number values =
    elim (truthy (or_else (get "out_trade_no" values) (get "merchant_payment_no" values))) [
      | none ↦ ""
      | some text ↦ text
    ]

-- `values.get("trade_no") or values.get("provider_trade_no")`
unfoldable pub trade_number : Values → Option String
unfolding get
trade_number values = truthy (or_else (get "trade_no" values) (get "provider_trade_no" values))

-- `_record_late_paid`: a CLOSED or FAILED intent did receive money.
unfoldable pub record_late_paid : Payment → String → Json → Action Payment
record_late_paid payment provider values = do
  modify (with_late_paid payment provider values)
  updated ← gets (find_payment payment.id)
  or_raise none_row updated

abbrev pub with_trade : String → Json → Db → Payment → Payment
with_trade trade_no values db p = record p {
  provider_trade_no = some trade_no;
  provider_response = some values;
  updated_at = db.clock;
}

abbrev is_trade : String → Option String → Bool
is_trade number none = false
is_trade number (some recorded) = recorded == number

-- Another payment of the channel has the trade number.
abbrev pub trade_taken : String → String → ℕ → Db → Bool
trade_taken provider number id db =
    any (λ p. p.provider == provider && is_trade number p.provider_trade_no && not (p.id == id))
      db.payments

-- The first recorded trade number is the financial fact.
unfoldable pub record_trade_no : Host → String → Option String → Json → Payment → Action Payment
record_trade_no host provider none values payment = pure payment
record_trade_no host provider (some trade_no) values payment = do
  let recorded = host.strip (elim payment.provider_trade_no [ none ↦ "" | some text ↦ text ])
  raise_if (not (recorded == "") && not (recorded == host.strip trade_no))
      (http 409 "provider trade number conflict")
  clash ← gets (trade_taken provider trade_no payment.id)
  raise_if clash (http 409 "provider trade number conflict")
  modify (λ db. set_payment payment.id (with_trade trade_no values db) db)
  updated ← gets (find_payment payment.id)
  or_raise none_row updated

-- The paid fact, recorded once; `true` when it was recorded before.
unfoldable pub mark_paid : Payment → String → Json → Action (Payment × Bool)
unfolding PaymentStatus-discrete
mark_paid payment provider values =
    if contains payment.status paid_callback_statuses
    then pure (payment, true)
    else if contains payment.status (PaymentStatus.closed ∷ PaymentStatus.failed ∷ [])
    then (do updated ← record_late_paid payment provider values; pure (updated, false))
    else transition_payment payment PaymentStatus.paid (provider <> "-callback") values

-- The inbox row, unique by provider and event.
unfoldable pub insert_inbox : String → String → ℕ → String → Action (Unit {0})
insert_inbox provider event id digest = do
  known ← gets (λ db. is_some (find_inbox provider event db))
  raise_if known (integrity "payment_callback_inbox")
  modify λ db. record db {
    inbox =
        record {
          provider = provider;
          provider_event_id = event;
          payment_id = id;
          payload_digest = digest;
          processed_at = db.clock;
        }
        ∷ db.inbox;
  }

-- `insert ... on conflict(idempotency_key) do update set idempotency_key = excluded...`
unfoldable pub enqueue_outbox : OutboxRow → Action (Unit {0})
enqueue_outbox row = modify λ db.
    if any (λ r. r.idempotency_key == row.idempotency_key) db.outbox
    then db
    else record db { outbox = row ∷ db.outbox }

-- `set paid_payment_id = ... where paid_payment_id is null`
abbrev pub adopt : ℕ → ℕ → Order → Order
adopt id at o = elim o.paid_payment_id [
  | none ↦ record o { paid_payment_id = some id; updated_at = at }
  | some primary ↦ o
]

abbrev pub set_primary : Order → ℕ → Action (Unit {0})
set_primary order id = modify λ db. set_orders order.id (adopt id db.clock) db

-- The primary payment after `if primary_id is None: ... primary_id = payment["id"]`.
abbrev pub primary_or : Option ℕ → ℕ → ℕ
primary_or none id = id
primary_or (some primary) id = primary

unfoldable pub adopt_primary : Order → ℕ → Action ℕ
adopt_primary order id =
    if is_some order.paid_payment_id
    then pure (primary_or order.paid_payment_id id)
    else (do set_primary order id; pure id)

-- `payment_status in ('NOT_STARTED','PENDING','PAID','PARTIALLY_REFUNDED')`
abbrev pub may_refund : OrderPayment → Bool
may_refund OrderPayment.not_required = false
may_refund OrderPayment.not_started = true
may_refund (OrderPayment.as_payment s) =
    contains s (PaymentStatus.pending ∷ PaymentStatus.paid ∷ PaymentStatus.partially_refunded ∷ [])

abbrev pub mark_refunding : ℕ → Order → Order
mark_refunding at o =
    if may_refund o.payment_status
    then record o {
      payment_status = OrderPayment.as_payment PaymentStatus.refunding;
      updated_at = at;
    }
    else o

abbrev pub mark_order_paid : ℕ → Order → Order
mark_order_paid at o = record o {
  payment_status = OrderPayment.as_payment PaymentStatus.paid;
  status =
      if contains o.status (OrderStatus.created ∷ OrderStatus.awaiting_payment ∷ [])
      then OrderStatus.paid
      else o.status;
  updated_at = at;
}

abbrev pub is_paid : OrderPayment → Bool
is_paid (OrderPayment.as_payment s) = s == PaymentStatus.paid
is_paid _ = false

module _ (host : Host) where
  -- `_ensure_extra_refund`
  unfoldable pub ensure_extra_refund : Payment → String → String → Action Payment
  ensure_extra_refund payment key reason =
      if not (is_refundable payment.status) then pure payment else (do
        intent ← ensure_automatic_refund_intent host payment.id key reason "payment-service"
        pure (elim intent [ none ↦ payment | some i ↦ i.payment ]))

  -- Late money on a cancelled, expired or failed order is refunded.
  unfoldable pub refund_late : Order → Payment → Action Payment
  refund_late order payment = do
    primary ← adopt_primary order payment.id
    modify
        λ db. if primary == payment.id then set_orders order.id (mark_refunding db.clock) db else db
    ensure_extra_refund payment
        ("payment:" <> host.uuid_text payment.id <> ":cancelled-order-refund")
        "payment completed after order cancellation"

  -- The first payment of a live order starts its production; any other is refunded.
  unfoldable pub accept_live : Order → Payment → Action Payment
  accept_live order payment = do
    primary ← adopt_primary order payment.id
    if not (primary == payment.id)
        then ensure_extra_refund payment
            ("payment:" <> host.uuid_text payment.id <> ":extra-paid-refund")
            "duplicate payment received for order"
        else if is_paid order.payment_status
        then pure payment
        else (do
          modify (λ db. set_orders order.id (mark_order_paid db.clock) db)
          id ← draw host
          enqueue_outbox (record {
            id = id;
            event_type = "payment.paid";
            aggregate_type = "payment";
            aggregate_id = host.uuid_text payment.id;
            payment_id = payment.id;
            order_id = order.id;
            terminal_id = order.terminal_id;
            idempotency_key = "payment:" <> host.uuid_text payment.id <> ":paid";
          })
          pure payment)

  -- What a confirmed payment means for its order.
  unfoldable pub project_paid : Order → Payment → Bool → Action (Payment × Bool)
  unfolding OrderStatus-discrete
  project_paid order payment duplicate =
      if duplicate
      then pure (payment, true)
      else if contains order.status dead_order_statuses
      then (do refunded ← refund_late order payment; pure (refunded, false))
      else (do accepted ← accept_live order payment; pure (accepted, false))

  -- The steps under the financial locks.
  unfoldable pub confirm :
      String → String → Values → String → Order → Payment → Action (Payment × Bool)
  confirm provider event values digest order payment = do
    let json = Json.object (as_json values)
    traded ← record_trade_no host provider (trade_number values) json payment
    (paid, duplicate) ← mark_paid traded provider json
    insert_inbox provider event paid.id digest
    project_paid order paid duplicate

  -- `_inbox_conflict`, and the answer to an event that was processed before. A stored digest
  -- has no blanks to strip.
  unfoldable pub replay : InboxRow → String → Payment → Action (Payment × Bool)
  replay existing digest payment = do
    raise_if (not (existing.payload_digest == digest))
        (http 409 "provider event id payload conflict")
    pure (payment, true)

  unfoldable pub confirm_once :
      Option InboxRow
      → String
      → String
      → Values
      → String
      → Order
      → Payment
      → Action (Payment × Bool)
  confirm_once (some existing) provider event values digest order payment =
      replay existing digest payment
  confirm_once none provider event values digest order payment =
      confirm provider event values digest order payment

  -- `callback_amount_minor` inside the transaction.
  abbrev pub parse_amount : Values → Action (Option ℕ)
  parse_amount values db = elim (callback_amount_minor host values) [
    | ok amount ↦ ok (amount, db)
    | err e ↦ err e
  ]

  -- `if amount_minor is None` and the comparison with the payment.
  unfoldable pub check_amount : Option ℕ → ℕ → Action (Unit {0})
  check_amount none expected = raise (http 409 "payment callback amount is required")
  check_amount (some amount) expected =
      raise_if (not (amount == expected)) (http 409 "payment callback amount mismatch")

  unfoldable pub apply_new : (Db → Db) → String → String → Values → String → Action (Payment × Bool)
  apply_new wait provider event values digest = do
    located ← gets (find_merchant provider (merchant_number values))
    candidate ← or_raise (http 404 "payment not found") located
    amount ← parse_amount values
    check_amount amount candidate.amount_minor
    modify wait
    locked ← gets (find_order candidate.order_id)
    order ← or_raise (http 404 "order not found") locked
    again ← gets (find_payment candidate.id)
    payment ← or_raise assertion again
    existing ← gets (find_inbox provider event)
    confirm_once existing provider event values digest order payment

  unfoldable pub answer_known :
      Option InboxRow
      → (Db → Db)
      → String
      → String
      → Values
      → String
      → Action (Option Payment × Bool)
  answer_known (some existing) wait provider event values digest = do
    raise_if (not (existing.payload_digest == digest))
        (http 409 "provider event id payload conflict")
    stored ← gets (find_payment existing.payment_id)
    pure (stored, true)
  answer_known none wait provider event values digest = do
    (payment, duplicate) ← apply_new wait provider event values digest
    pure (some payment, duplicate)

  unfoldable pub apply_paid_callback :
      (Db → Db) → String → String → Values → Action (Option Payment × Bool)
  apply_paid_callback wait provider event values = do
    existing ← gets (find_inbox provider event)
    answer_known existing wait provider event values (host.digest (Json.object (as_json values)))
