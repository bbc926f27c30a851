-- ===== src/PaymentRepository.antt =====
-- app/repositories/payments.py: the statements of `PaymentRepository` on payments and refunds.
pub mod Effects
use coffee_cloud_mvp.Base.{
  ℕ, ◌+◌, contains, ◌==◌, nat_eq, string_eq, if◌then◌else◌, Bool, ◌&&◌, ◌||◌, not, Option, none,
  some, List, [], ◌∷◌, String, ◌<>◌, Json, Fields, coalesce, any, find, find_id, update_id,
}
use coffee_cloud_mvp.PaymentState.{
  PaymentStatus, RefundStatus, payment_status_eq, refund_status_eq, PaymentStatus-discrete,
  RefundStatus-discrete, payment_lower,
}
use coffee_cloud_mvp.Store.{
  Db, Payment, Refund, PaymentEvent, EventId, Action, ◌>>=◌, ◌>>◌, pure, gets, or_raise, raise_if,
  modify, now, none_row, integrity, Host,
}

abbrev pub payment_id : Payment → ℕ
payment_id p = p.id

abbrev pub refund_id : Refund → ℕ
refund_id r = r.id

abbrev pub find_payment : ℕ → Db → Option Payment
find_payment id db = find_id payment_id id db.payments

abbrev pub find_refund : ℕ → Db → Option Refund
find_refund id db = find_id refund_id id db.refunds

abbrev pub find_refund_idempotent : ℕ → String → Db → Option Refund
find_refund_idempotent id key db =
    find (λ r. r.payment_id == id && r.idempotency_key == key) db.refunds

-- What `transition_payment` writes to the row.
abbrev pub moved_payment : ℕ → PaymentStatus → Payment → ℕ → Payment
moved_payment revision target p at = record p {
  status = target;
  revision = revision;
  updated_at = at;
  paid_at = if target == PaymentStatus.paid then coalesce p.paid_at (some at) else p.paid_at;
  closed_at =
      if contains target (PaymentStatus.closed ∷ PaymentStatus.failed ∷ [])
      then coalesce p.closed_at (some at)
      else p.closed_at;
}

-- The tables after `transition_payment`: the row is moved and the audit event is inserted.
abbrev pub with_transition : Payment → PaymentStatus → String → Json → Db → Db
with_transition payment target actor payload db = record db {
  payments =
      update_id payment_id payment.id (λ p. moved_payment (payment.revision + 1) target p db.clock)
        db.payments;
  payment_events =
      record {
        payment_id = payment.id;
        event_id = EventId.transition (payment.revision + 1);
        event_type = "payment." <> payment_lower target;
        actor = actor;
        payload_json = payload;
      }
      ∷ db.payment_events;
}

unfoldable pub transition_payment_row : Payment → PaymentStatus → String → Json → Action Payment
transition_payment_row payment target actor payload = do
  modify (with_transition payment target actor payload)
  updated ← gets (find_payment payment.id)
  or_raise none_row updated

-- `payload if payload else None`: an empty object is false.
abbrev present : Option Json → Option Json
present (some (Json.object Fields.end)) = none
present payload = payload

-- What `transition_refund` writes to the row.
abbrev pub moved_refund : RefundStatus → Option Json → Refund → ℕ → Refund
moved_refund target payload r at = record r {
  status = target;
  revision = r.revision + 1;
  provider_response = coalesce (present payload) r.provider_response;
  updated_at = at;
  completed_at =
      if contains target (RefundStatus.succeeded ∷ RefundStatus.failed ∷ [])
      then some at
      else r.completed_at;
}

abbrev pub with_refund_transition : Refund → RefundStatus → Option Json → Db → Db
with_refund_transition refund target payload db = record db {
  refunds = update_id refund_id refund.id (λ r. moved_refund target payload r db.clock) db.refunds;
}

unfoldable pub transition_refund_row : Refund → RefundStatus → Option Json → Action Refund
transition_refund_row refund target payload = do
  modify (with_refund_transition refund target payload)
  updated ← gets (find_refund refund.id)
  or_raise none_row updated

-- `sum(amount_minor)` of a payment's refunds in the given statuses.
unfoldable pub refunded_sum : ℕ → List RefundStatus → List Refund → ℕ
unfolding RefundStatus-discrete
refunded_sum id statuses [] = 0
refunded_sum id statuses (r ∷ rs) =
    (if r.payment_id == id && contains r.status statuses then r.amount_minor else 0)
    + refunded_sum id statuses rs

abbrev pub refunded_total : ℕ → List RefundStatus → Db → ℕ
refunded_total id statuses db = refunded_sum id statuses db.refunds

abbrev pub in_flight_statuses : List RefundStatus
in_flight_statuses = RefundStatus.requested ∷ RefundStatus.processing ∷ RefundStatus.unknown ∷ []

unfoldable pub in_flight : ℕ → List Refund → Bool
unfolding RefundStatus-discrete
in_flight id rs = any (λ r. r.payment_id == id && contains r.status in_flight_statuses) rs

abbrev pub inflight_refund_exists : ℕ → Db → Bool
inflight_refund_exists id db = in_flight id db.refunds

-- The primary key and the two unique constraints of the table `refund`.
unfoldable pub refund_conflict : Refund → List Refund → Bool
refund_conflict new rs =
    any
      (λ r.
        r.id == new.id
        || (r.payment_id == new.payment_id && r.idempotency_key == new.idempotency_key)
        || (r.provider == new.provider && r.merchant_refund_no == new.merchant_refund_no))
      rs

unfoldable pub insert_refund : ℕ → Payment → String → String → String → ℕ → String → Action Refund
insert_refund id payment merchant_no key digest amount reason = do
  at ← now
  let row : Refund = record {
    id = id;
    payment_id = payment.id;
    provider = payment.provider;
    merchant_refund_no = merchant_no;
    idempotency_key = key;
    request_digest = digest;
    status = RefundStatus.requested;
    revision = 0;
    amount_minor = amount;
    reason = reason;
    provider_response = none;
    attempt_count = 0;
    next_attempt_at = some at;
    created_at = at;
    updated_at = at;
    completed_at = none;
  }
  clash ← gets (λ db. refund_conflict row db.refunds)
  raise_if clash (integrity "refund")
  raise_if (amount == 0) (integrity "amount_minor")
  modify (λ db. record db { refunds = row ∷ db.refunds })
  pure row

-- `schedule_refund`
unfoldable pub schedule_refund : ℕ → Bool → Action (Unit {0})
schedule_refund id increment = do
  at ← now
  modify λ db. record db {
    refunds =
        update_id refund_id id
          (λ r. record r {
            attempt_count = if increment then r.attempt_count + 1 else r.attempt_count;
            next_attempt_at = some (at + 30);
          })
          db.refunds;
  }
