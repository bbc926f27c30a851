-- ===== src/Transitions/OrderMoves.antt =====
-- What `transition_order` of app/services/order_state.py does to the tables.
use coffee_cloud_mvp.Base.{
  ℕ, ◌≡◌, ◌≢◌, refl, true, Option, some, String, Json, if◌then◌else◌, ◌==◌, Bool-cases, inl, inr,
  arith,
}
use coffee_cloud_mvp.Base.Rows.{find_id-update_self, find_id-update_ne}
use coffee_cloud_mvp.ProductionState.Orders.{OrderStatus, order_status_eq, order_transition_allowed}
use coffee_cloud_mvp.Store.{
  Db, Order, ◌>>=◌, or_raise, Returns, returned, Returns-bind, Returns-gets, Returns-modify,
}
use coffee_cloud_mvp.OrderRepository.{order_id, find_order, moved_order, update_transition_state}
use coffee_cloud_mvp.Transitions.Orders.{apply_transition, transition_order}

-- Only one order and the transition history change.
pub record OrderMoved (id : ℕ) (db : Db) (o : Order) (db' : Db) : Type 0 where
  pub payments : db'.payments ≡ db.payments
  pub refunds : db'.refunds ≡ db.refunds
  pub inbox : db'.inbox ≡ db.inbox
  pub outbox : db'.outbox ≡ db.outbox
  pub others : (j : ℕ) → j ≢ id → find_order j db' ≡ find_order j db
  pub same_id : o.id ≡ id

-- A row that was found is updated and returned with the new status.
pub update_transition_state-Returns :
    (id : ℕ) (target : OrderStatus) (started completed cancelled : Option ℕ) (db : Db) (x : Order)
    → x.id ≡ id
    → find_order id db ≡ some x
    → Returns
        (λ o db'. OrderMoved id db o db' × (o.status ≡ target))
        (update_transition_state id target started completed cancelled db)
unfolding update_transition_state ◌>>=◌ or_raise
update_transition_state-Returns id target started completed cancelled db x own found =
    rw
      (find_id-update_self order_id (moved_order target started completed cancelled db.clock)
        (λ o. refl) id db.orders x found)
      (returned (
        record {
          payments = refl;
          refunds = refl;
          inbox = refl;
          outbox = refl;
          others = λ j n.
              find_id-update_ne order_id (moved_order target started completed cancelled db.clock)
                (λ o. refl) j id db.orders n;
          same_id = own;
        },
        refl,
      ))

-- The status that a request leads to: an illegal one changes nothing.
abbrev pub reached : OrderStatus → OrderStatus → OrderStatus
reached current target = if order_transition_allowed current target then target else current

same_allowed :
    (s t : OrderStatus) → (s == t) ≡ true → (s ≡ t) × (order_transition_allowed s t ≡ true)
unfolding order_transition_allowed
same_allowed s t e = ground arith

module _ (order : Order) (target : OrderStatus) (actor : String) (reason : Option String)
    (payload : Option Json) (db : Db) (x : Order) (found : find_order order.id db ≡ some x)
    (own : x.id ≡ order.id) where
  apply_transition-Returns :
      Returns
        (λ o db'. OrderMoved order.id db o db' × (o.status ≡ target))
        (apply_transition order target actor reason payload db)
  unfolding apply_transition
  apply_transition-Returns = Returns-gets _ _ db (
      Returns-gets _ _ db (
        Returns-bind _ _ db (update_transition_state-Returns order.id target _ _ _ db x own found)
          λ o db' m. Returns-modify _ _ db' (
            returned (
              record {
                payments = m.0.payments;
                refunds = m.0.refunds;
                inbox = m.0.inbox;
                outbox = m.0.outbox;
                others = m.0.others;
                same_id = m.0.same_id;
              },
              m.1,
            ))))

  untouched : OrderMoved order.id db order db
  untouched = record {
    payments = refl;
    refunds = refl;
    inbox = refl;
    outbox = refl;
    others = λ j n. refl;
    same_id = refl;
  }

  -- On an order that is there, transition_order returns the order with the target status where
  -- the order graph allows it and with its own status where not; payments, refunds, inbox,
  -- outbox and the other orders stay as they were.
  pub transition_order-Returns :
      Returns
        (λ o db'. OrderMoved order.id db o db' × (o.status ≡ reached order.status target))
        (transition_order order target actor reason payload db)
  unfolding transition_order
  transition_order-Returns = elim (Bool-cases (order.status == target)) [
    | inl same ↦
        let (e, a) = same_allowed order.status target same in rw (same, a) (returned (untouched, e))
    | inr moves ↦ elim (Bool-cases (order_transition_allowed order.status target)) [
      | inl allowed ↦ rw (moves, allowed) apply_transition-Returns
      | inr refused ↦ rw (moves, refused) (returned (untouched, refl))
    ]
  ]
