-- ===== src/Transitions/Payments.antt =====
-- app/payment_transitions.py: the choke points for payment and refund transitions.
use coffee_cloud_mvp.Base.{true, false, Bool, Option, none, some, String, Json, if◌then◌else◌}
use coffee_cloud_mvp.PaymentState.{
  PaymentStatus, RefundStatus, decide_payment_transition, decide_refund_transition,
}
use coffee_cloud_mvp.Store.{Payment, Refund, Action, ◌>>=◌, pure, raise, http}
use coffee_cloud_mvp.PaymentRepository.{transition_payment_row, transition_refund_row}

-- `detail=decision.reason`
abbrev pub detail : Option String → String
detail none = ""
detail (some text) = text

unfoldable pub transition_payment :
    Payment → PaymentStatus → String → Json → Action (Payment × Bool)
transition_payment payment target actor payload =
    let decision = decide_payment_transition payment.status target in
    if decision.duplicate
    then pure (payment, true)
    else if decision.allowed
    then (do updated ← transition_payment_row payment target actor payload; pure (updated, false))
    else raise (http 409 (detail decision.reason))

unfoldable pub transition_refund : Refund → RefundStatus → Option Json → Action (Refund × Bool)
transition_refund refund target payload =
    let decision = decide_refund_transition refund.status target in
    if decision.duplicate
    then pure (refund, true)
    else if decision.allowed
    then (do updated ← transition_refund_row refund target payload; pure (updated, false))
    else raise (http 409 (detail decision.reason))
