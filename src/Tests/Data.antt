-- ===== src/Tests/Data.antt =====
-- A small database, and the services that the tests take.
use coffee_cloud_mvp.Base.{
  ◌+◌, ℕ, refl, false, inl, inr, none, some, [], ◌∷◌, String, arith, Json, Decimal, empty_object,
  zero_decimal, ◌==◌, nat_eq, string_eq, Bool-cases,
}
use coffee_cloud_mvp.PaymentState.{PaymentStatus, RefundStatus}
use coffee_cloud_mvp.CommandState.{CommandStatus}
use coffee_cloud_mvp.ProductionState.Orders.{OrderStatus}
use coffee_cloud_mvp.ProductionState.Jobs.{JobStatus}
use coffee_cloud_mvp.Store.{
  Db, Order, Payment, Refund, InboxRow, OrderPayment, PaymentMode, Host, Job, Command,
  CommandOutbox, OutboxStatus, Terminal,
}
use coffee_cloud_mvp.PaymentRepository.{find_payment, refunded_sum}
use coffee_cloud_mvp.Ledger.Sound.{Sound, SettledAt}
use coffee_cloud_mvp.Callbacks.Amounts.{Values}

-- "12.50" is what the parser reads from any text.
abbrev pub host : Host
host = record {
  uuid = λ n. n + 100;
  serial = λ n. n + 200;
  uuid_text = λ n. "uuid";
  iso = λ t. "time";
  refund_no = λ n. "0001";
  digest = λ j. "digest";
  strip = λ s. s;
  starts_with = λ p s. false;
  json_text = λ j. "json";
  column_text = λ j. some "text";
  clip = λ n s. s;
  decimal = λ s. some (Decimal.below false 1250 2);
}

abbrev pub order : Order
order = record {
  id = 3;
  order_no = "C3";
  terminal_id = 1;
  tenant_id = none;
  access_token_hash = "hash";
  status = OrderStatus.failed;
  payment_mode = PaymentMode.online;
  payment_status = OrderPayment.as_payment PaymentStatus.refunding;
  paid_payment_id = some 7;
  payment_account_id = none;
  currency = "CNY";
  total_amount_minor = 1250;
  recipe_id = "latte";
  recipe_version = "1";
  product_name = "Latte";
  product_snapshot = empty_object;
  failure_code = none;
  failure_message = none;
  created_at = 10;
  updated_at = 10;
  started_at = none;
  completed_at = some 40;
  cancelled_at = none;
}

abbrev pub payment : ℕ → String → PaymentStatus → Payment
payment id number status = record {
  id = id;
  order_id = 3;
  provider = "MOCK";
  merchant_payment_no = number;
  provider_trade_no = none;
  payment_account_id = none;
  idempotency_key = number;
  request_digest = "digest";
  status = status;
  revision = 2;
  amount_minor = 1250;
  currency = "CNY";
  subject = "Latte";
  qr_code = none;
  provider_response = none;
  next_reconcile_at = none;
  created_at = 11;
  updated_at = 12;
  paid_at = none;
  closed_at = none;
}

abbrev pub refund : ℕ → RefundStatus → ℕ → Refund
refund id status amount = record {
  id = id;
  payment_id = 7;
  provider = "MOCK";
  merchant_refund_no = "R1";
  idempotency_key = "key";
  request_digest = "digest";
  status = status;
  revision = 1;
  amount_minor = amount;
  reason = "failed";
  provider_response = none;
  attempt_count = 1;
  next_attempt_at = none;
  created_at = 13;
  updated_at = 13;
  completed_at = none;
}

abbrev pub paid : Payment
paid = payment 7 "P7" PaymentStatus.refunding

abbrev pub flying : Refund
flying = refund 8 RefundStatus.processing 1000

abbrev pub ended : Refund
ended = refund 9 RefundStatus.succeeded 250

abbrev pub known : InboxRow
known = record {
  provider = "MOCK";
  provider_event_id = "e1";
  payment_id = 7;
  payload_digest = "digest";
  processed_at = 12;
}

-- An order whose command waits in the outbox, past its deadline.
abbrev pub waiting : Order
waiting = record order {
  id = 4;
  order_no = "C4";
  access_token_hash = "other";
  status = OrderStatus.dispatched;
  payment_status = OrderPayment.as_payment PaymentStatus.paid;
  paid_payment_id = none;
  completed_at = none;
}

abbrev pub job : Job
job = record {
  id = 20;
  task_id = "task";
  order_id = 4;
  terminal_id = 1;
  command_id = some 30;
  status = JobStatus.dispatched;
  revision = 1;
  progress = zero_decimal;
  step_progress = zero_decimal;
  current_step_id = none;
  current_step_name = none;
  planned_duration_seconds = none;
  step_durations = Json.null;
  elapsed_seconds = zero_decimal;
  remaining_seconds = none;
  last_device_revision = 0;
  execution_attempt = 1;
  failure_json = none;
  hold_reason = none;
  manual_review_required = false;
  created_at = 14;
  updated_at = 14;
  accepted_at = none;
  started_at = none;
  completed_at = none;
}

abbrev pub command : Command
command = record {
  id = 30;
  terminal_id = 1;
  message_id = "m30";
  command_type = "MAKE_DRINK";
  payload_json = Json.null;
  idempotency_key = none;
  payload_digest = none;
  status = CommandStatus.created;
  revision = 0;
  created_at = 14;
  expires_at = some 45;
  published_at = none;
  delivered_at = none;
  acked_at = none;
  executing_at = none;
  completed_at = none;
  last_transition_at = 14;
  result_json = none;
}

abbrev pub queued : CommandOutbox
queued = record {
  id = 40;
  command_id = 30;
  terminal_id = 1;
  topic = "commands";
  envelope_json = Json.null;
  status = OutboxStatus.pending;
  attempt_count = 0;
  next_attempt_at = 14;
  locked_by = none;
  locked_until = none;
  published_at = none;
  last_error = none;
  created_at = 14;
}

abbrev pub terminal : Terminal
terminal = record {
  id = 1;
  device_id = "D1";
  lifecycle_status = "ACTIVE";
  connection_status = "online";
  last_heartbeat_at = some 45;
  reported_status = empty_object;
}

-- An order that waits for its payment.
abbrev pub unpaid : Order
unpaid = record waiting {
  id = 5;
  order_no = "C5";
  access_token_hash = "third";
  status = OrderStatus.awaiting_payment;
  payment_status = OrderPayment.as_payment PaymentStatus.pending;
}

abbrev pub fresh : Payment
fresh = record (payment 5 "P5" PaymentStatus.pending) { order_id = 5 }

abbrev pub first_values : Values
first_values = ("out_trade_no", "P5") ∷ ("total_amount", "12.50") ∷ []

abbrev pub db : Db
db = record {
  clock = 50;
  drawn = 0;
  orders = order ∷ waiting ∷ unpaid ∷ [];
  payments = paid ∷ payment 6 "P6" PaymentStatus.pending ∷ fresh ∷ [];
  refunds = flying ∷ ended ∷ [];
  payment_events = [];
  order_transitions = [];
  inbox = known ∷ [];
  outbox = [];
  jobs = job ∷ [];
  commands = command ∷ [];
  command_outbox = queued ∷ [];
  command_transitions = [];
  terminals = terminal ∷ [];
  pickup_slots = [];
  dispatch_requests = [];
}

abbrev pub values : Values
values = ("out_trade_no", "P6") ∷ ("total_amount", "12.50") ∷ ("trade_no", "T6") ∷ []

db-settled : (id : ℕ) → SettledAt id (find_payment id db) db.refunds
unfolding refunded_sum
db-settled id = elim (Bool-cases (7 == id)) [
  | inl own ↦ rw own (ground arith)
  | inr other ↦ elim (Bool-cases (6 == id)) [
    | inl own ↦ rw (other, own) (ground arith)
    | inr others ↦ elim (Bool-cases (5 == id)) [
      | inl own ↦ rw (other, others, own) (ground arith)
      | inr absent ↦ rw (other, others, absent) tt
    ]
  ]
]

pub db-Sound : Sound db
db-Sound = record {
  unique = (refl, (refl, tt));
  positive = (ground arith, (ground arith, tt));
  settled = db-settled;
}

-- The same shop, where payment 7 is PAID and has no refund.
abbrev pub sold : Db
sold = record db {
  payments = payment 7 "P7" PaymentStatus.paid ∷ payment 6 "P6" PaymentStatus.pending ∷ fresh ∷ [];
  refunds = [];
}

sold-settled : (id : ℕ) → SettledAt id (find_payment id sold) sold.refunds
unfolding refunded_sum
sold-settled id = elim (Bool-cases (7 == id)) [
  | inl own ↦ rw own (ground arith)
  | inr other ↦ elim (Bool-cases (6 == id)) [
    | inl own ↦ rw (other, own) (ground arith)
    | inr others ↦ elim (Bool-cases (5 == id)) [
      | inl own ↦ rw (other, others, own) (ground arith)
      | inr absent ↦ rw (other, others, absent) tt
    ]
  ]
]

pub sold-Sound : Sound sold
sold-Sound = record { unique = tt; positive = tt; settled = sold-settled }
