-- ===== src/PaymentRepository/Effects.antt =====
-- What the statements of app/repositories/payments.py do to the tables, step by step.
use coffee_cloud_mvp.Base.{
  ℕ, ◌+◌, ◌<◌, ◌≡◌, refl, false, Option, none, some, ◌∷◌, String, Json, find_id, List, [], arith,
  ◌==◌, nat_eq,
}
use coffee_cloud_mvp.Base.Rows.{find_id-update_self}
use coffee_cloud_mvp.PaymentState.{PaymentStatus, RefundStatus}
use coffee_cloud_mvp.Store.{
  Db, Payment, Refund, ok, ◌>>=◌, or_raise, Ensures, Ensures-guard, Ensures-gets, Ensures-modify,
  done,
}
use coffee_cloud_mvp.PaymentRepository.{
  payment_id, refund_id, find_payment, find_refund, moved_payment, with_transition,
  transition_payment_row, with_refund_transition, moved_refund, transition_refund_row,
  refund_conflict, insert_refund,
}

-- On a row that is there, `transition_payment` succeeds, and returns the row that it wrote.
pub transition_payment_row-ok :
    (payment : Payment) (target : PaymentStatus) (actor : String) (payload : Json) (db : Db)
    → find_payment payment.id db ≡ some payment
    → transition_payment_row payment target actor payload db
      ≡ ok (
        moved_payment (payment.revision + 1) target payment db.clock,
        with_transition payment target actor payload db,
      )
unfolding transition_payment_row ◌>>=◌ or_raise
transition_payment_row-ok payment target actor payload db found = rw (
    find_id-update_self payment_id (λ p. moved_payment (payment.revision + 1) target p db.clock)
      (λ p. refl) payment.id db.payments payment found)

pub transition_refund_row-ok :
    (refund : Refund) (target : RefundStatus) (payload : Option Json) (db : Db)
    → find_refund refund.id db ≡ some refund
    → transition_refund_row refund target payload db
      ≡ ok (
        moved_refund target payload refund db.clock,
        with_refund_transition refund target payload db,
      )
unfolding transition_refund_row ◌>>=◌ or_raise
transition_refund_row-ok refund target payload db found = rw (
    find_id-update_self refund_id (λ r. moved_refund target payload r db.clock) (λ r. refl)
      refund.id db.refunds refund found)

refund_conflict-absent :
    (new : Refund) (rs : List Refund)
    → refund_conflict new rs ≡ false
    → find_id refund_id new.id rs ≡ none
unfolding refund_conflict
refund_conflict-absent new [] e = refl
refund_conflict-absent new (r ∷ rs) e = ground (arith, refund_conflict-absent new rs)

-- A row that `insert_refund` has added: requested, of a positive amount, and under a new key.
pub record RefundInserted (payment : Payment) (amount : ℕ) (key : String) (db : Db) (r : Refund)
    (db' : Db) : Type 0 where
  pub of_payment : r.payment_id ≡ payment.id
  pub requested : r.status ≡ RefundStatus.requested
  pub amount_kept : r.amount_minor ≡ amount
  pub key_kept : r.idempotency_key ≡ key
  pub positive : 0 < amount
  pub fresh : find_id refund_id r.id db.refunds ≡ none
  pub refunds : db'.refunds ≡ r ∷ db.refunds
  pub payments : db'.payments ≡ db.payments
  pub orders : db'.orders ≡ db.orders

pub insert_refund-Ensures :
    (id : ℕ) (payment : Payment) (number key digest : String) (amount : ℕ) (reason : String)
    (db : Db)
    → Ensures
        (RefundInserted payment amount key db)
        (insert_refund id payment number key digest amount reason db)
unfolding insert_refund
insert_refund-Ensures id payment number key digest amount reason db = Ensures-gets _ _ db (
    Ensures-gets _ _ db (
      Ensures-guard _ _ _ db λ absent. Ensures-guard (amount == 0) _ _ db λ pos.
        Ensures-modify _ _ db (
          done (record {
            of_payment = refl;
            requested = refl;
            amount_kept = refl;
            key_kept = refl;
            positive = ground arith;
            fresh = refund_conflict-absent _ db.refunds absent;
            refunds = refl;
            payments = refl;
            orders = refl;
          }))))
