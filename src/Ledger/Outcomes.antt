-- ===== src/Ledger/Outcomes.antt =====
-- `apply_refund_outcome` under the money invariant: it returns, settles the payment, and keeps
-- the invariant.
use coffee_cloud_mvp.Base.{
  ℕ, ◌≡◌, ◌≢◌, refl, Bool, ◌&&◌, Option, none, some, String, Json, ◌==◌, Bool-cases, inl, inr,
}
use coffee_cloud_mvp.Base.Rows.{find_id-update_self}
use coffee_cloud_mvp.PaymentState.{PaymentStatus, payment_status_eq, refund_status_eq}
use coffee_cloud_mvp.ProductionState.Orders.{OrderStatus, order_status_eq}
use coffee_cloud_mvp.Store.{
  Db, Order, OrderPayment, Payment, Returns, returned, Returns-bind, Returns-gets, Returns-modify,
}
use coffee_cloud_mvp.PaymentRepository.{find_payment, in_flight}
use coffee_cloud_mvp.OrderRepository.{order_id, find_order, set_orders}
use coffee_cloud_mvp.Transitions.Moves.{PaymentMoved, transition_payment-Returns}
use coffee_cloud_mvp.Transitions.OrderMoves.{transition_order-Returns}
use coffee_cloud_mvp.Refunds.Intents.{is_primary}
use coffee_cloud_mvp.Refunds.Outcomes.{
  settled_status, settle_order, settle_payment_after_refund, payload_or_empty,
}
use coffee_cloud_mvp.Refunds.Totals.{succeeded_sum}
use coffee_cloud_mvp.Ledger.Creation.{SameMoney}
use coffee_cloud_mvp.Ledger.Settlement.{settle_allowed}

abbrev with_status : PaymentStatus → Db → Order → Order
with_status target db o = record o {
  payment_status = OrderPayment.as_payment target;
  updated_at = db.clock;
}

-- The order of a settled payment is there, so its part of the settlement returns.
settle_order-Returns :
    (order : Option Order) (id : ℕ) (target : PaymentStatus) (actor : String) (db : Db)
    → ((o : Order) → order ≡ some o → find_order o.id db ≡ some o)
    → Returns (SameMoney db) (settle_order order id target actor db)
unfolding settle_order
settle_order-Returns none id target actor db there = returned (refl, refl)
settle_order-Returns (some order) id target actor db there =
    elim (Bool-cases (is_primary order.paid_payment_id id)) [
      | inr extra ↦ rw extra (returned (refl, refl))
      | inl primary ↦ rw primary (
          Returns-modify _ _ db
            (elim (Bool-cases
              (target == PaymentStatus.refunded && order.status == OrderStatus.failed)) [
                | inr stays ↦ rw stays (returned (refl, refl))
                | inl moves ↦ rw moves (
                    Returns-bind _ _ _
                      (transition_order-Returns order OrderStatus.refunded actor _ none
                        (set_orders order.id (with_status target db) db)
                        (with_status target db order)
                        (find_id-update_self order_id (with_status target db) (λ o. refl) order.id
                          db.orders order (there order refl))
                        refl)
                      λ o db' m. returned (m.0.payments, m.0.refunds))
              ]))
    ]

-- What the settlement leaves: the payment has the status that its refunds ask for.
pub record Settles (payment : Payment) (db : Db) (db' : Db) : Type 0 where
  pub row : Payment
  pub found : find_payment payment.id db' ≡ some row
  pub same_amount : row.amount_minor ≡ payment.amount_minor
  pub status :
      row.status
      ≡ settled_status payment.amount_minor
          (succeeded_sum payment.id db.refunds)
          (in_flight payment.id db.refunds)
  pub others : (j : ℕ) → j ≢ payment.id → find_payment j db' ≡ find_payment j db
  pub refunds : db'.refunds ≡ db.refunds

pub settle-Returns :
    (payment : Payment) (order : Option Order) (payload : Option Json) (actor : String) (db : Db)
    → find_payment payment.id db ≡ some payment
    → payment.status ≡ PaymentStatus.refunding
    → ((o : Order) → order ≡ some o → find_order o.id db ≡ some o)
    → Returns
        (λ u db'. Settles payment db db')
        (settle_payment_after_refund payment order payload actor db)
unfolding settle_payment_after_refund
settle-Returns payment order payload actor db found flying there = Returns-gets _ _ db (
    Returns-gets _ _ db (
      Returns-bind _ _ db
        (transition_payment-Returns payment _ actor (payload_or_empty payload) db found (
          rw flying (
            settle_allowed payment.amount_minor (succeeded_sum payment.id db.refunds)
              (in_flight payment.id db.refunds))))
        λ r db1 m.
          go r db1 m
            (settle_order-Returns order payment.id _ actor db1 (λ o e. rw m.orders (there o e)))))
  where
    go :
        (r : Payment × Bool) (db1 : Db)
        → PaymentMoved payment
            (settled_status payment.amount_minor
              (succeeded_sum payment.id db.refunds)
              (in_flight payment.id db.refunds))
            db
            r
            db1
        → {x : _} → Returns (SameMoney db1) x
        → Returns (λ (u : Unit {0}) db'. Settles payment db db') x
    go r db1 m (returned same) = returned (record {
      row = r.0;
      found = rw same.0 m.found;
      same_amount = m.same_amount;
      status = m.status;
      others = λ j n. rw same.0 (m.others j n);
      refunds = rw same.1 m.refunds;
    })
