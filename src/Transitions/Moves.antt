-- ===== src/Transitions/Moves.antt =====
-- What one payment or refund transition does, when the decision allows it and when not.
use coffee_cloud_mvp.Base.{
  ℕ, ◌+◌, ◌≡◌, ◌≢◌, refl, true, false, Bool, Option, some, String, Json, arith, Bool-cases, ◌⊎◌,
  inl, inr,
}
use coffee_cloud_mvp.Base.Rows.{find_id-update_self, find_id-update_ne}
use coffee_cloud_mvp.PaymentState.{
  PaymentStatus, RefundStatus, decide_payment_transition, decide_refund_transition,
}
use coffee_cloud_mvp.Store.{
  Db, Payment, Refund, err, ◌>>=◌, http, Ensures, Returns, raised, returned, Ensures-Returns,
}
use coffee_cloud_mvp.PaymentRepository.{
  payment_id, find_payment, find_refund, moved_payment, moved_refund, with_transition,
  with_refund_transition,
}
use coffee_cloud_mvp.PaymentRepository.Effects.{transition_payment_row-ok, transition_refund_row-ok}
use coffee_cloud_mvp.Transitions.Payments.{transition_payment, transition_refund, detail}

-- A payment row moved to `target`; no other payment, refund or order changed.
pub record PaymentMoved (payment : Payment) (target : PaymentStatus) (db : Db) (r : Payment × Bool)
    (db' : Db) : Type 0 where
  pub status : r.0.status ≡ target
  pub same_id : r.0.id ≡ payment.id
  pub same_order : r.0.order_id ≡ payment.order_id
  pub same_amount : r.0.amount_minor ≡ payment.amount_minor
  pub found : find_payment payment.id db' ≡ some r.0
  pub others : (j : ℕ) → j ≢ payment.id → find_payment j db' ≡ find_payment j db
  pub refunds : db'.refunds ≡ db.refunds
  pub orders : db'.orders ≡ db.orders

decide_duplicate :
    (s t : PaymentStatus)
    → (decide_payment_transition s t).duplicate ≡ true
    → (s ≡ t) × ((decide_payment_transition s t).allowed ≡ true)
unfolding decide_payment_transition
decide_duplicate s t d = ground arith

module _ (payment : Payment) (target : PaymentStatus) (actor : String) (payload : Json) (db : Db)
    (found : find_payment payment.id db ≡ some payment) where
  row_moved :
      PaymentMoved payment target db
        (moved_payment (payment.revision + 1) target payment db.clock, false)
        (with_transition payment target actor payload db)
  row_moved = record {
    status = refl;
    same_id = refl;
    same_order = refl;
    same_amount = refl;
    found =
        find_id-update_self payment_id (λ p. moved_payment (payment.revision + 1) target p db.clock)
          (λ p. refl) payment.id db.payments payment found;
    others = λ j n.
        find_id-update_ne payment_id (λ p. moved_payment (payment.revision + 1) target p db.clock)
          (λ p. refl) j payment.id db.payments n;
    refunds = refl;
    orders = refl;
  }

  -- An allowed transition returns.
  pub transition_payment-Returns :
      (decide_payment_transition payment.status target).allowed ≡ true
      → Returns
          (PaymentMoved payment target db)
          (transition_payment payment target actor payload db)
  unfolding transition_payment ◌>>=◌
  transition_payment-Returns allowed =
      elim (Bool-cases (decide_payment_transition payment.status target).duplicate) [
        | inl same ↦ rw same (
            returned (record {
              status = (decide_duplicate payment.status target same).0;
              same_id = refl;
              same_order = refl;
              same_amount = refl;
              found = found;
              others = λ j n. refl;
              refunds = refl;
              orders = refl;
            }))
        | inr fresh ↦
            rw (fresh, allowed)
              (rw (transition_payment_row-ok payment target actor payload db found, ◌>>=◌)
                (returned row_moved))
      ]

  -- A forbidden one raises 409 and changes nothing.
  pub transition_payment_forbidden :
      (decide_payment_transition payment.status target).allowed ≡ false
      → transition_payment payment target actor payload db
        ≡ err (http 409 (detail (decide_payment_transition payment.status target).reason))
  unfolding transition_payment ◌>>=◌
  transition_payment_forbidden refused =
      elim (Bool-cases (decide_payment_transition payment.status target).duplicate) [
        | inl same ↦ cc (refused, (decide_duplicate payment.status target same).1)
        | inr fresh ↦ rw (fresh, refused)
      ]

  pub transition_payment-Ensures :
      Ensures (PaymentMoved payment target db) (transition_payment payment target actor payload db)
  transition_payment-Ensures =
      elim (Bool-cases (decide_payment_transition payment.status target).allowed) [
        | inl allowed ↦ Ensures-Returns (transition_payment-Returns allowed)
        | inr refused ↦ rw (transition_payment_forbidden refused) raised
      ]

-- A refund row moved to `target`; no payment or order changed.
pub record RefundMoved (refund : Refund) (target : RefundStatus) (payload : Option Json) (db : Db)
    (r : Refund × Bool) (db' : Db) : Type 0 where
  pub status : r.0.status ≡ target
  pub tables :
      ((r.1 ≡ true) × (refund.status ≡ target) × (r.0 ≡ refund) × (db' ≡ db))
      ⊎ ((r.0 ≡ moved_refund target payload refund db.clock)
          × (db' ≡ with_refund_transition refund target payload db))

decide_refund_duplicate :
    (s t : RefundStatus)
    → (decide_refund_transition s t).duplicate ≡ true
    → (s ≡ t) × ((decide_refund_transition s t).allowed ≡ true)
unfolding decide_refund_transition
decide_refund_duplicate s t d = ground arith

module _ (refund : Refund) (target : RefundStatus) (payload : Option Json) (db : Db)
    (found : find_refund refund.id db ≡ some refund) where
  pub transition_refund-Returns :
      (decide_refund_transition refund.status target).allowed ≡ true
      → Returns (RefundMoved refund target payload db) (transition_refund refund target payload db)
  unfolding transition_refund ◌>>=◌
  transition_refund-Returns allowed =
      elim (Bool-cases (decide_refund_transition refund.status target).duplicate) [
        | inl same ↦ rw same (
            returned (record {
              status = (decide_refund_duplicate refund.status target same).0;
              tables =
                  inl (refl, (decide_refund_duplicate refund.status target same).0, refl, refl);
            }))
        | inr fresh ↦
            rw (fresh, allowed)
              (rw (transition_refund_row-ok refund target payload db found, ◌>>=◌)
                (returned (record { status = refl; tables = inr (refl, refl) })))
      ]
