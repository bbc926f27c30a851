-- ===== src/Refunds/Outcomes.antt =====
-- app/services/refund_intents.py: `apply_refund_outcome` and the settlement.
use coffee_cloud_mvp.Base.{
  ℕ, Bool, ◌&&◌, not, Option, none, some, List, [], ◌∷◌, String, Json, empty_object, if◌then◌else◌,
  ◌==◌, leb, ltb, contains,
}
use coffee_cloud_mvp.PaymentState.{
  PaymentStatus, RefundStatus, refund_status_eq, payment_status_eq, PaymentStatus-discrete,
  RefundStatus-discrete,
}
use coffee_cloud_mvp.ProductionState.Orders.{OrderStatus, order_status_eq, OrderStatus-discrete}
use coffee_cloud_mvp.Store.{Order, OrderPayment, Payment, Refund, Action, ◌>>=◌, ◌>>◌, pure, gets}
use coffee_cloud_mvp.PaymentRepository.{
  find_payment, find_refund, refunded_total, inflight_refund_exists,
}
use coffee_cloud_mvp.OrderRepository.{find_order, update_payment_status}
use coffee_cloud_mvp.Transitions.Payments.{transition_payment, transition_refund}
use coffee_cloud_mvp.Transitions.Orders.{transition_order}
use coffee_cloud_mvp.Refunds.Intents.{is_primary}

-- Success total, then in flight, then zero.
abbrev pub settled_status : ℕ → ℕ → Bool → PaymentStatus
settled_status amount succeeded busy =
    if leb amount succeeded
    then PaymentStatus.refunded
    else if busy
    then PaymentStatus.refunding
    else if ltb 0 succeeded
    then PaymentStatus.partially_refunded
    else PaymentStatus.paid

-- What the settlement does to the order of a primary payment.
unfoldable pub settle_order : Option Order → ℕ → PaymentStatus → String → Action (Unit {0})
unfolding PaymentStatus-discrete OrderStatus-discrete
settle_order none id target actor = pure tt
settle_order (some order) id target actor =
    if not (is_primary order.paid_payment_id id) then pure tt else (do
      update_payment_status order.id (OrderPayment.as_payment target)
      if target == PaymentStatus.refunded && order.status == OrderStatus.failed
          then (do
            transition_order order OrderStatus.refunded actor (some "full refund completed") none
            pure tt)
          else pure tt)

-- `payload or {}`
abbrev pub payload_or_empty : Option Json → Json
payload_or_empty none = empty_object
payload_or_empty (some p) = p

-- `_settle_payment_after_refund`
unfoldable pub settle_payment_after_refund :
    Payment → Option Order → Option Json → String → Action (Unit {0})
settle_payment_after_refund payment order payload actor = do
  succeeded ← gets (refunded_total payment.id (RefundStatus.succeeded ∷ []))
  busy ← gets (inflight_refund_exists payment.id)
  let target = settled_status payment.amount_minor succeeded busy
  transition_payment payment target actor (payload_or_empty payload)
  settle_order order payment.id target actor

abbrev pub terminal_refunds : List RefundStatus
terminal_refunds = RefundStatus.succeeded ∷ RefundStatus.failed ∷ []

-- The locked pass, on a refund that is not terminal.
unfoldable pub record_outcome :
    Refund → Payment → Option Order → RefundStatus → Option Json → String → Action (Option Refund)
unfolding RefundStatus-discrete
record_outcome refund payment order target payload actor = do
  (moved, _) ← transition_refund refund target payload
  if contains target terminal_refunds
      then (do settle_payment_after_refund payment order payload actor; pure (some moved))
      else pure (some moved)

unfoldable pub outcome_for :
    Refund → Option Payment → RefundStatus → Option Json → String → Action (Option Refund)
unfolding RefundStatus-discrete
outcome_for refund none target payload actor = pure none
outcome_for refund (some payment) target payload actor = do
  order ← gets (find_order payment.order_id)
  if contains refund.status terminal_refunds
      then pure (some refund)
      else record_outcome refund payment order target payload actor

unfoldable pub outcome_of :
    Option Refund → RefundStatus → Option Json → String → Action (Option Refund)
outcome_of none target payload actor = pure none
outcome_of (some refund) target payload actor = do
  payment ← gets (find_payment refund.payment_id)
  outcome_for refund payment target payload actor

-- The first pass locates the rows and the second reads them again under their locks; one
-- transaction sees the same rows in both.
unfoldable pub apply_refund_outcome :
    ℕ → RefundStatus → Option Json → String → Action (Option Refund)
apply_refund_outcome id target payload actor = do
  refund ← gets (find_refund id)
  outcome_of refund target payload actor
