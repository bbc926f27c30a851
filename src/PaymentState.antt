-- ===== src/PaymentState.antt =====
-- app/payment_state.py: the statuses of a payment and of a refund, and the decisions on them.
pub mod Laws
use coffee_cloud_mvp.Base.{
  Eq, eq_test, eq_test_iff, contains, ◌==◌, if◌then◌else◌, Bool, true, false, not, Option, none,
  some, List, [], ◌∷◌, String, ◌<>◌,
}

pub data PaymentStatus : Type 0 where
  created pending paid refunding partially_refunded refunded closed failed : PaymentStatus

pub data RefundStatus : Type 0 where
  requested processing succeeded failed unknown : RefundStatus

unfoldable pub PaymentStatus-discrete : Discrete PaymentStatus
PaymentStatus-discrete = hlevel

unfoldable pub RefundStatus-discrete : Discrete RefundStatus
RefundStatus-discrete = hlevel

instance abbrev pub payment_status_eq : Eq PaymentStatus
payment_status_eq = record {
  beq = eq_test PaymentStatus-discrete;
  beq_iff = eq_test_iff PaymentStatus-discrete;
}

instance abbrev pub refund_status_eq : Eq RefundStatus
refund_status_eq = record {
  beq = eq_test RefundStatus-discrete;
  beq_iff = eq_test_iff RefundStatus-discrete;
}

-- The strings that the constants stand for.
abbrev pub payment_text : PaymentStatus → String
payment_text PaymentStatus.created = "CREATED"
payment_text PaymentStatus.pending = "PENDING"
payment_text PaymentStatus.paid = "PAID"
payment_text PaymentStatus.refunding = "REFUNDING"
payment_text PaymentStatus.partially_refunded = "PARTIALLY_REFUNDED"
payment_text PaymentStatus.refunded = "REFUNDED"
payment_text PaymentStatus.closed = "CLOSED"
payment_text PaymentStatus.failed = "FAILED"

abbrev pub refund_text : RefundStatus → String
refund_text RefundStatus.requested = "REQUESTED"
refund_text RefundStatus.processing = "PROCESSING"
refund_text RefundStatus.succeeded = "SUCCEEDED"
refund_text RefundStatus.failed = "FAILED"
refund_text RefundStatus.unknown = "UNKNOWN"

-- `PAYMENT_TRANSITIONS.get(current, frozenset())`
payment_transitions : PaymentStatus → List PaymentStatus
payment_transitions PaymentStatus.created =
    PaymentStatus.pending ∷ PaymentStatus.paid ∷ PaymentStatus.closed ∷ PaymentStatus.failed ∷ []
payment_transitions PaymentStatus.pending =
    PaymentStatus.paid ∷ PaymentStatus.closed ∷ PaymentStatus.failed ∷ []
payment_transitions PaymentStatus.paid =
    PaymentStatus.refunding ∷ PaymentStatus.partially_refunded ∷ PaymentStatus.refunded ∷ []
payment_transitions PaymentStatus.refunding =
    PaymentStatus.paid ∷ PaymentStatus.partially_refunded ∷ PaymentStatus.refunded
    ∷ PaymentStatus.failed ∷ []
payment_transitions PaymentStatus.partially_refunded =
    PaymentStatus.refunding ∷ PaymentStatus.refunded ∷ []
payment_transitions _ = []

-- `REFUND_TRANSITIONS.get(current, frozenset())`
refund_transitions : RefundStatus → List RefundStatus
refund_transitions RefundStatus.requested =
    RefundStatus.processing ∷ RefundStatus.succeeded ∷ RefundStatus.failed ∷ RefundStatus.unknown
    ∷ []
refund_transitions RefundStatus.processing =
    RefundStatus.succeeded ∷ RefundStatus.failed ∷ RefundStatus.unknown ∷ []
refund_transitions RefundStatus.unknown =
    RefundStatus.processing ∷ RefundStatus.succeeded ∷ RefundStatus.failed ∷ []
refund_transitions _ = []

pub record StateDecision : Type 0 where
  pub allowed : Bool
  pub duplicate : Bool
  pub reason : Option String

abbrev illegal : String → String → String → StateDecision
illegal kind current target = record {
  allowed = false;
  duplicate = false;
  reason = some ("illegal " <> kind <> " transition " <> current <> " -> " <> target);
}

unfoldable pub decide_payment_transition : PaymentStatus → PaymentStatus → StateDecision
unfolding payment_transitions PaymentStatus-discrete
decide_payment_transition current target =
    if current == target
    then record { allowed = true; duplicate = true; reason = none }
    else if not (contains target (payment_transitions current))
    then illegal "payment" (payment_text current) (payment_text target)
    else record { allowed = true; duplicate = false; reason = none }

unfoldable pub decide_refund_transition : RefundStatus → RefundStatus → StateDecision
unfolding refund_transitions RefundStatus-discrete
decide_refund_transition current target =
    if current == target
    then record { allowed = true; duplicate = true; reason = none }
    else if not (contains target (refund_transitions current))
    then illegal "refund" (refund_text current) (refund_text target)
    else record { allowed = true; duplicate = false; reason = none }

-- `target.lower()`
abbrev pub payment_lower : PaymentStatus → String
payment_lower PaymentStatus.created = "created"
payment_lower PaymentStatus.pending = "pending"
payment_lower PaymentStatus.paid = "paid"
payment_lower PaymentStatus.refunding = "refunding"
payment_lower PaymentStatus.partially_refunded = "partially_refunded"
payment_lower PaymentStatus.refunded = "refunded"
payment_lower PaymentStatus.closed = "closed"
payment_lower PaymentStatus.failed = "failed"
