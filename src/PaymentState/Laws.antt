-- ===== src/PaymentState/Laws.antt =====
-- What the payment and refund graphs of app/payment_state.py allow, over whole histories.
use coffee_cloud_mvp.Base.{◌≡◌, ◌⊎◌, inl, true, arith}
use coffee_cloud_mvp.PaymentState.{
  PaymentStatus, RefundStatus, decide_payment_transition, decide_refund_transition,
}

-- A payment's history, as long as its transitions are allowed.
pub data PaymentPath (s : PaymentStatus) : PaymentStatus → Type 0 where
  here : PaymentPath s s
  move :
      {t u : PaymentStatus}
      → PaymentPath s t
      → (decide_payment_transition t u).allowed ≡ true
      → PaymentPath s u

pub data RefundPath (s : RefundStatus) : RefundStatus → Type 0 where
  here : RefundPath s s
  move :
      {t u : RefundStatus}
      → RefundPath s t
      → (decide_refund_transition t u).allowed ≡ true
      → RefundPath s u

-- Money was received: the four statuses that only a paid payment has.
abbrev pub HasMoney : PaymentStatus → Type 0
HasMoney s =
    (s ≡ PaymentStatus.paid)
    ⊎ (s ≡ PaymentStatus.refunding)
    ⊎ (s ≡ PaymentStatus.partially_refunded)
    ⊎ (s ≡ PaymentStatus.refunded)

step_money :
    (t u : PaymentStatus)
    → (decide_payment_transition t u).allowed ≡ true
    → HasMoney t ⊎ (t ≡ PaymentStatus.failed)
    → HasMoney u ⊎ (u ≡ PaymentStatus.failed)
unfolding decide_payment_transition
step_money t u p m = ground arith

-- A payment that has received money (PAID, REFUNDING, PARTIALLY_REFUNDED or REFUNDED) never
-- becomes CREATED, PENDING or CLOSED again, however many allowed transitions follow; the one
-- status without money that it can reach is FAILED.
pub PaymentPath-money :
    {s t : PaymentStatus} → PaymentPath s t → HasMoney s → HasMoney t ⊎ (t ≡ PaymentStatus.failed)
PaymentPath-money PaymentPath.here m = inl m
PaymentPath-money (PaymentPath.move {t} {u} p a) m = step_money t u a (PaymentPath-money p m)

step_ended :
    (t u : RefundStatus)
    → (decide_refund_transition t u).allowed ≡ true
    → (t ≡ RefundStatus.succeeded) ⊎ (t ≡ RefundStatus.failed)
    → u ≡ t
unfolding decide_refund_transition
step_ended t u p m = ground arith

-- A refund that has succeeded or failed keeps that status over every history of allowed
-- transitions.
pub RefundPath-ended :
    {s t : RefundStatus}
    → RefundPath s t
    → (s ≡ RefundStatus.succeeded) ⊎ (s ≡ RefundStatus.failed)
    → t ≡ s
RefundPath-ended RefundPath.here m = cc
RefundPath-ended {s} (RefundPath.move {t} {u} p a) m =
    let e : t ≡ s = RefundPath-ended p m in ground (arith, step_ended t u a)
