-- ===== src/Refunds/Intents.antt =====
-- app/services/refund_intents.py: `create_refund_intent` and `ensure_automatic_refund_intent`.
use coffee_cloud_mvp.Base.{
  ℕ, suc, ◌-◌, true, false, Bool, ◌||◌, not, Option, none, some, List, [], ◌∷◌, ◌++◌, String, ◌<>◌,
  Json, Fields, one_field, if◌then◌else◌, ◌==◌, nat_eq, string_eq, ltb, contains,
}
use coffee_cloud_mvp.PaymentState.{
  PaymentStatus, RefundStatus, payment_status_eq, PaymentStatus-discrete,
}
use coffee_cloud_mvp.Store.{
  Db, Order, OrderPayment, Payment, Refund, Host, Action, ok, ◌>>=◌, ◌>>◌, pure, raise_if, gets,
  or_raise, http,
}
use coffee_cloud_mvp.PaymentRepository.{
  find_payment, find_refund_idempotent, refunded_total, insert_refund, in_flight_statuses,
}
use coffee_cloud_mvp.OrderRepository.{find_order, update_payment_status}
use coffee_cloud_mvp.Transitions.Payments.{transition_payment}

-- `BUDGET_REFUND_STATUSES`
abbrev pub budget_statuses : List RefundStatus
budget_statuses = in_flight_statuses ++ RefundStatus.succeeded ∷ []

-- `REFUNDABLE_PAYMENT_STATUSES`
abbrev pub refundable_statuses : List PaymentStatus
refundable_statuses =
    PaymentStatus.paid ∷ PaymentStatus.refunding ∷ PaymentStatus.partially_refunded ∷ []

unfoldable pub is_refundable : PaymentStatus → Bool
unfolding PaymentStatus-discrete
is_refundable s = contains s refundable_statuses

pub record RefundIntent : Type 0 where
  pub refund : Refund
  pub created : Bool
  pub payment : Payment

abbrev pub get_or {ℓ} : {A : Type ℓ} → A → Option A → A
get_or a none = a
get_or a (some b) = b

-- `request_digest or digest`: an empty text is false.
abbrev digest_or : String → Option String → String
digest_or computed none = computed
digest_or computed (some digest) = if digest == "" then computed else digest

-- `{"amountMinor": amount, "reason": reason}`
abbrev pub refund_request : ℕ → String → Json
refund_request amount reason = Json.object (
    Fields.field "amountMinor" (Json.number amount)
      (Fields.field "reason" (Json.text reason) Fields.end))

-- `request_digest is not None and existing["request_digest"].strip() != request_digest`; a
-- stored digest has no blanks to strip.
abbrev pub digest_differs : Option String → String → Bool
digest_differs none stored = false
digest_differs (some digest) stored = not (stored == digest)

-- `str(order.get("paid_payment_id")) == str(payment["id"])`
abbrev pub is_primary : Option ℕ → ℕ → Bool
is_primary none id = false
is_primary (some primary) id = primary == id

-- Only the primary payment shows on the order.
unfoldable pub project_on : Option Order → Payment → Action (Unit {0})
project_on none payment = pure tt
project_on (some order) payment =
    if is_primary order.paid_payment_id payment.id
    then update_payment_status order.id (OrderPayment.as_payment PaymentStatus.refunding)
    else pure tt

unfoldable pub project_refunding : Payment → Action (Unit {0})
project_refunding payment = do order ← gets (find_order payment.order_id); project_on order payment

-- The budget that is left: the truncated `-` of ℕ is 0 where the source's difference is
-- negative, and both are refused by `amount <= 0`.
abbrev pub remaining_budget : Payment → Db → ℕ
remaining_budget payment db = payment.amount_minor - refunded_total payment.id budget_statuses db

module _ (host : Host) where
  -- `uuid.uuid4()`
  abbrev pub draw : Action ℕ
  draw db = ok (host.uuid db.drawn, record db { drawn = suc db.drawn })

  -- A new intent, after the replay check.
  unfoldable pub open_refund :
      Payment → String → String → Option ℕ → Option String → String → Action RefundIntent
  unfolding is_refundable
  open_refund payment key reason amount_minor digest actor = do
    raise_if (not (is_refundable payment.status)) (http 409 "payment is not refundable")
    remaining ← gets (remaining_budget payment)
    let amount = get_or remaining amount_minor
    raise_if (amount == 0 || ltb remaining amount)
        (http 409 "refund amount exceeds unrefunded payment amount")
    id ← draw
    number ← draw
    refund ←
        insert_refund id payment ("R" <> host.refund_no number) key
          (digest_or (host.digest (refund_request amount reason)) digest) amount reason
    (moved, _) ←
        transition_payment payment PaymentStatus.refunding actor
          (one_field "refundId" (host.uuid_text refund.id))
    project_refunding moved
    pure (record { refund = refund; created = true; payment = moved })

  -- A replay with the same key returns the stored refund.
  unfoldable pub replay_or_open :
      Option Refund
      → Payment
      → String
      → String
      → Option ℕ
      → Option String
      → String
      → Action RefundIntent
  replay_or_open (some refund) payment key reason amount_minor digest actor = do
    raise_if (digest_differs digest refund.request_digest)
        (http 409 "Idempotency-Key payload conflict")
    pure (record { refund = refund; created = false; payment = payment })
  replay_or_open none payment key reason amount_minor digest actor =
      open_refund payment key reason amount_minor digest actor

  unfoldable pub create_refund_intent :
      ℕ → String → String → Option ℕ → Option String → String → Action RefundIntent
  create_refund_intent id key reason amount_minor digest actor = do
    found ← gets (find_payment id)
    payment ← or_raise (http 404 "payment not found") found
    existing ← gets (find_refund_idempotent id key)
    replay_or_open existing payment key reason amount_minor digest actor

  -- The automatic wrapper, for a payment that is there and refundable.
  unfoldable pub replay_or_ensure :
      Option Refund → Payment → ℕ → String → String → String → Action (Option RefundIntent)
  replay_or_ensure (some refund) payment remaining key reason actor =
      pure (some (record { refund = refund; created = false; payment = payment }))
  replay_or_ensure none payment remaining key reason actor =
      if remaining == 0 then pure none else (do
        intent ← create_refund_intent payment.id key reason (some remaining) none actor
        pure (some intent))

  unfoldable pub ensure_refund :
      Option Payment → String → String → String → Action (Option RefundIntent)
  ensure_refund none key reason actor = pure none
  ensure_refund (some payment) key reason actor =
      if is_refundable payment.status
      then (do
        existing ← gets (find_refund_idempotent payment.id key)
        remaining ← gets (remaining_budget payment)
        replay_or_ensure existing payment remaining key reason actor)
      else pure none

  unfoldable pub ensure_automatic_refund_intent :
      ℕ → String → String → String → Action (Option RefundIntent)
  ensure_automatic_refund_intent id key reason actor = do
    found ← gets (find_payment id)
    ensure_refund found key reason actor
