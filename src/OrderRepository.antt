-- ===== src/OrderRepository.antt =====
-- app/repositories/orders.py: the statements of `OrderRepository` on orders and their
-- transition history. A joined projection reads the order's own columns only.
pub mod Jobs
pub mod Queue
pub mod Progress
use coffee_cloud_mvp.Base.{
  ℕ, ◌+◌, max, ◌==◌, nat_eq, contains, if◌then◌else◌, Option, List, [], ◌∷◌, String, find_id,
  update_id,
}
use coffee_cloud_mvp.ProductionState.Orders.{OrderStatus, order_status_eq}
use coffee_cloud_mvp.Store.{
  Db, Order, OrderPayment, OrderTransition, Action, ◌>>=◌, ◌>>◌, gets, or_raise, modify, none_row,
}

abbrev pub order_id : Order → ℕ
order_id o = o.id

abbrev pub find_order : ℕ → Db → Option Order
find_order id db = find_id order_id id db.orders

abbrev pub set_orders : ℕ → (Order → Order) → Db → Db
set_orders id f db = record db { orders = update_id order_id id f db.orders }

abbrev pub update_payment_status : ℕ → OrderPayment → Action (Unit {0})
update_payment_status id status =
    modify λ db. set_orders id (λ o. record o { payment_status = status; updated_at = db.clock }) db

-- `update_payment_outcome`: an unpaid order is cancelled with its payment.
abbrev pub update_payment_outcome : ℕ → OrderPayment → Action (Unit {0})
update_payment_outcome id status = modify λ db.
    set_orders id
      (λ o. record o {
        payment_status = status;
        status =
            if contains o.status (OrderStatus.created ∷ OrderStatus.awaiting_payment ∷ [])
            then OrderStatus.cancelled
            else o.status;
        updated_at = db.clock;
      })
      db

abbrev pub update_failure : ℕ → Option String → Option String → Action (Unit {0})
update_failure id code message = modify λ db.
    set_orders id
      (λ o. record o { failure_code = code; failure_message = message; updated_at = db.clock }) db

-- `coalesce(max(revision), -1) + 1`
unfoldable pub next_transition_revision : ℕ → List OrderTransition → ℕ
next_transition_revision id [] = 0
next_transition_revision id (t ∷ ts) =
    let rest = next_transition_revision id ts in
    if t.order_id == id then max (t.revision + 1) rest else rest

abbrev pub moved_order : OrderStatus → Option ℕ → Option ℕ → Option ℕ → ℕ → Order → Order
moved_order target started completed cancelled at o = record o {
  status = target;
  updated_at = at;
  started_at = started;
  completed_at = completed;
  cancelled_at = cancelled;
}

-- `update_transition_state`, and the row that it returns.
unfoldable pub update_transition_state :
    ℕ → OrderStatus → Option ℕ → Option ℕ → Option ℕ → Action Order
update_transition_state id target started completed cancelled = do
  modify λ db. set_orders id (moved_order target started completed cancelled db.clock) db
  updated ← gets (find_order id)
  or_raise none_row updated

abbrev pub insert_transition : OrderTransition → Action (Unit {0})
insert_transition row = modify λ db. record db { order_transitions = row ∷ db.order_transitions }
