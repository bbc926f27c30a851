-- ===== src/Callbacks/First.antt =====
-- The first payment of a live order, through `apply_paid_callback` of app/payment_service.py.
use coffee_cloud_mvp.Base.{
  ℕ, ◌+◌, ◌≡◌, refl, true, false, Bool, Option, none, some, String, ◌<>◌, Json, contains,
  Bool-cases, inl, inr, ◌==◌, nat_eq, string_eq, nat_beq_iff, any, is_some, ap, arith, [], ◌∷◌,
}
use coffee_cloud_mvp.Base.Rows.{find_id-update_self}
use coffee_cloud_mvp.PaymentState.{
  PaymentStatus, PaymentStatus-discrete, payment_status_eq, decide_payment_transition,
}
use coffee_cloud_mvp.ProductionState.Orders.{OrderStatus, OrderStatus-discrete, order_status_eq}
use coffee_cloud_mvp.Store.{
  Db, Order, OrderPayment, Payment, OutboxRow, Host, ok, err, ◌>>=◌, Returns, returned,
  Returns-bind, Returns-gets, Returns-modify, Returns-known, Returns-or_raise, Returns-guard,
  raise_if,
}
use coffee_cloud_mvp.PaymentRepository.{payment_id, find_payment, moved_payment, with_transition}
use coffee_cloud_mvp.PaymentRepository.Effects.{transition_payment_row-ok}
use coffee_cloud_mvp.Transitions.Payments.{transition_payment}
use coffee_cloud_mvp.OrderRepository.{order_id, find_order, set_orders}
use coffee_cloud_mvp.Callbacks.Amounts.{Values, as_json, callback_amount_minor}
use coffee_cloud_mvp.Callbacks.Confirm.{
  find_inbox, find_merchant, paid_callback_statuses, dead_order_statuses, merchant_number,
  trade_number, adopt, adopt_primary, is_paid, mark_order_paid, enqueue_outbox, accept_live,
  project_paid, record_trade_no, mark_paid, insert_inbox, confirm, confirm_once, parse_amount,
  check_amount, apply_new, answer_known, apply_paid_callback,
}

-- The order is paid by the payment, and its `payment.paid` event is in the outbox.
pub record Accepted (host : Host) (order payment : ℕ) (db' : Db) : Type 0 where
  pub row : Order
  pub found : find_order order db' ≡ some row
  pub status : row.status ≡ OrderStatus.paid
  pub payment_status : row.payment_status ≡ OrderPayment.as_payment PaymentStatus.paid
  pub primary : row.paid_payment_id ≡ some payment
  pub queued :
      any (λ r. r.idempotency_key == ("payment:" <> host.uuid_text payment <> ":paid")) db'.outbox
      ≡ true

enqueue_outbox-Returns :
    (row : OutboxRow) (db : Db)
    → Returns
        (λ u db'.
          (db'.payments ≡ db.payments)
          × (db'.orders ≡ db.orders)
          × (any (λ r. r.idempotency_key == row.idempotency_key) db'.outbox ≡ true))
        (enqueue_outbox row db)
unfolding enqueue_outbox
enqueue_outbox-Returns row db =
    elim (Bool-cases (any (λ r. r.idempotency_key == row.idempotency_key) db.outbox)) [
      | inl known ↦ rw known (returned (refl, refl, known))
      | inr fresh ↦
          let same = (string_eq.beq_iff row.idempotency_key row.idempotency_key).1 refl in
          rw fresh (returned (refl, refl, rw same refl))
    ]

adopt-id : (id at : ℕ) (o : Order) → (adopt id at o).id ≡ o.id
adopt-id id at o = ground arith

mark_order_paid-id : (at : ℕ) (o : Order) → (mark_order_paid at o).id ≡ o.id
mark_order_paid-id at o = refl

-- The two writes, on an order that waits for its payment.
paid_row :
    (id at : ℕ) (o : Order)
    → o.paid_payment_id ≡ none
    → o.status ≡ OrderStatus.awaiting_payment
    → ((mark_order_paid at (adopt id at o)).status ≡ OrderStatus.paid)
      × ((mark_order_paid at (adopt id at o)).paid_payment_id ≡ some id)
unfolding OrderStatus-discrete
paid_row id at o primary awaiting = ground arith

module _ (host : Host) (order : Order) (payment : Payment) (db : Db)
    (found : find_order order.id db ≡ some order) (primary : order.paid_payment_id ≡ none)
    (unpaid : is_paid order.payment_status ≡ false)
    (awaiting : order.status ≡ OrderStatus.awaiting_payment) where
  abbrev adopted : Db
  adopted = set_orders order.id (adopt payment.id db.clock) db

  adopt_primary-known : adopt_primary order payment.id db ≡ ok (payment.id, adopted)
  unfolding adopt_primary ◌>>=◌
  adopt_primary-known = rw primary refl

  order_paid :
      find_order order.id (set_orders order.id (mark_order_paid db.clock) adopted)
      ≡ some (mark_order_paid db.clock (adopt payment.id db.clock order))
  order_paid =
      find_id-update_self order_id (mark_order_paid db.clock) (mark_order_paid-id db.clock) order.id
        adopted.orders (adopt payment.id db.clock order)
        (find_id-update_self order_id (adopt payment.id db.clock) (adopt-id payment.id db.clock)
          order.id db.orders order found)

  accept_live-Returns :
      Returns
        (λ p db'.
          (p ≡ payment) × (db'.payments ≡ db.payments) × Accepted host order.id payment.id db')
        (accept_live host order payment db)
  unfolding accept_live
  accept_live-Returns = Returns-known _ _ db payment.id adopted adopt_primary-known (
      rw ((nat_beq_iff payment.id payment.id).1 refl, unpaid)
        (Returns-modify _ _ adopted (
          Returns-known _ _ _ (host.uuid db.drawn) _ refl (
            Returns-bind _ _ _ (enqueue_outbox-Returns _ _) λ u db' e. returned (
              refl,
              e.0,
              record {
                row = mark_order_paid db.clock (adopt payment.id db.clock order);
                found = rw e.1 order_paid;
                status = (paid_row payment.id db.clock order primary awaiting).0;
                payment_status = refl;
                primary = (paid_row payment.id db.clock order primary awaiting).1;
                queued = e.2;
              },
            )))))

insert_inbox-Returns :
    (provider event : String) (id : ℕ) (digest : String) (db : Db)
    → find_inbox provider event db ≡ none
    → Returns
        (λ u db'. (db'.payments ≡ db.payments) × (db'.orders ≡ db.orders))
        (insert_inbox provider event id digest db)
unfolding insert_inbox
insert_inbox-Returns provider event id digest db fresh =
    Returns-gets _ _ db (Returns-guard _ _ _ db (ap is_some fresh) (returned (refl, refl)))

module _ (payment : Payment) (provider : String) (values : Json) (db : Db)
    (found : find_payment payment.id db ≡ some payment)
    (pending : payment.status ≡ PaymentStatus.pending) where
  abbrev paid_now : Payment
  paid_now = moved_payment (payment.revision + 1) PaymentStatus.paid payment db.clock

  abbrev recorded : Db
  recorded = with_transition payment PaymentStatus.paid (provider <> "-callback") values db

  recorded_row : find_payment payment.id recorded ≡ some paid_now
  recorded_row =
      find_id-update_self payment_id
        (λ p. moved_payment (payment.revision + 1) PaymentStatus.paid p db.clock) (λ p. refl)
        payment.id db.payments payment found

  pays :
      ((decide_payment_transition payment.status PaymentStatus.paid).duplicate ≡ false)
      × ((decide_payment_transition payment.status PaymentStatus.paid).allowed ≡ true)
      × (contains payment.status paid_callback_statuses ≡ false)
      × (contains payment.status (PaymentStatus.closed ∷ PaymentStatus.failed ∷ []) ≡ false)
  unfolding decide_payment_transition PaymentStatus-discrete
  pays = rw pending (refl, refl, refl, refl)

  mark_paid-known : mark_paid payment provider values db ≡ ok ((paid_now, false), recorded)
  unfolding mark_paid transition_payment ◌>>=◌
  mark_paid-known =
      rw (pays.2, pays.3, pays.0, pays.1)
        (rw
          (
            transition_payment_row-ok payment PaymentStatus.paid (provider <> "-callback") values db
                found,
            ◌>>=◌,
          )
          refl)

-- What the callback leaves: the payment and its order are paid.
abbrev pub FirstPaid : Host → ℕ → ℕ → Payment × Bool → Db → Type 0
FirstPaid host order payment r db' =
    (r.0.status ≡ PaymentStatus.paid)
    × (r.1 ≡ false)
    × (find_payment payment db' ≡ some r.0)
    × Accepted host order payment db'

-- The same, of the callback's answer: a payment and whether it was a duplicate.
abbrev pub FirstAnswer : Host → ℕ → ℕ → Option Payment × Bool → Db → Type 0
FirstAnswer host order payment (none, duplicate) db' = ⊥
FirstAnswer host order payment (some p, duplicate) db' =
    FirstPaid host order payment (p, duplicate) db'

-- A payment that waits, on an order that waits, and a new event with its amount.
module _ (host : Host) (provider event : String) (values : Values) (db : Db) (payment : Payment)
    (order : Order) (fresh : find_inbox provider event db ≡ none)
    (untraded : trade_number values ≡ none) (again : find_payment payment.id db ≡ some payment)
    (pending : payment.status ≡ PaymentStatus.pending)
    (locked : find_order order.id db ≡ some order)
    (awaiting : order.status ≡ OrderStatus.awaiting_payment)
    (primary : order.paid_payment_id ≡ none) (unpaid : is_paid order.payment_status ≡ false) where
  live : contains order.status dead_order_statuses ≡ false
  unfolding OrderStatus-discrete
  live = rw awaiting refl

  confirm-Returns :
      (digest : String)
      → Returns
          (FirstPaid host order.id payment.id)
          (confirm host provider event values digest order payment db)
  unfolding confirm record_trade_no project_paid
  confirm-Returns digest =
      let json = Json.object (as_json values) in
      let p = paid_now payment provider json db again pending in
      let db1 = recorded payment provider json db again pending in
      Returns-known _ _ db payment db (rw untraded refl) (
        Returns-known _ _ db (p, false) db1 (mark_paid-known payment provider json db again pending)
          (Returns-bind _ _ db1 (insert_inbox-Returns provider event p.id digest db1 fresh)
            λ u db2 same. rw live (
              Returns-bind _ _ db2
                (accept_live-Returns host order p db2 (rw same.1 locked) primary unpaid awaiting)
                λ q db3 h. returned (
                  rw h.0 refl,
                  refl,
                  rw (h.0, h.1, same.0) (recorded_row payment provider json db again pending),
                  h.2,
                ))))

  module _ (located : find_merchant provider (merchant_number values) db ≡ some payment)
      (amount : callback_amount_minor host values ≡ ok (some payment.amount_minor))
      (of_order : payment.order_id ≡ order.id) where
    parsed : parse_amount host values db ≡ ok (some payment.amount_minor, db)
    parsed = ap (λ r. elim r [ ok a ↦ ok (a, db) | err e ↦ err e ]) amount

    apply_new-FirstPaid :
        (digest : String)
        → Returns
            (FirstPaid host order.id payment.id)
            (apply_new host (λ d. d) provider event values digest db)
    unfolding apply_new check_amount raise_if confirm_once
    apply_new-FirstPaid digest =
        let equal = (nat_beq_iff payment.amount_minor payment.amount_minor).1 refl in
        Returns-gets _ _ db (
          Returns-or_raise _ _ _ db payment located (
            Returns-known _ _ db (some payment.amount_minor) db parsed (
              Returns-known _ _ db tt db (rw equal refl) (
                Returns-modify _ _ db (
                  Returns-gets _ _ db (
                    Returns-or_raise _ _ _ db order (rw of_order locked) (
                      Returns-gets _ _ db (
                        Returns-or_raise _ _ _ db payment again
                          (Returns-gets _ _ db (rw fresh (confirm-Returns _)))))))))))

    -- A new event without a trade number, with the amount of a PENDING payment whose order is
    -- AWAITING_PAYMENT, has no primary payment and is not marked paid, when no other transaction
    -- intervenes: the call returns the payment as PAID and not as a duplicate, its row is that
    -- payment, its order is PAID with this payment as the primary one, and the payment's `paid`
    -- event is in the outbox.
    pub apply_paid_callback-FirstPaid :
        Returns
          (FirstAnswer host order.id payment.id)
          (apply_paid_callback host (λ d. d) provider event values db)
    unfolding apply_paid_callback answer_known
    apply_paid_callback-FirstPaid =
        Returns-gets _ _ db
          (rw fresh (Returns-bind _ _ db (apply_new-FirstPaid _) λ r db' h. returned h))
