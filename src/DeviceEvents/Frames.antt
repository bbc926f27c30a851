-- ===== src/DeviceEvents/Frames.antt =====
-- The last steps of `reconcile_device_event` of app/services/production.py: jobs, commands and the
-- statuses of orders.
use coffee_cloud_mvp.Base.{
  ℕ, ◌≡◌, refl, Bool, true, false, Option, none, some, String, Json, inl, inr, Bool-cases,
  Option-cases, nat_eq, contains, is_truthy, [], ◌∷◌, ◌&&◌, nat_beq, if◌then◌else◌,
}
use coffee_cloud_mvp.Base.Rows.{find-update}
use coffee_cloud_mvp.CommandState.{command_status_eq}
use coffee_cloud_mvp.ProductionState.Orders.{OrderStatus, order_status_eq}
use coffee_cloud_mvp.ProductionState.Jobs.{JobStatus, JobEvent, job_status_eq}
use coffee_cloud_mvp.Store.{
  Db, Order, Payment, Job, Host, Ensures, done, Ensures-bind, Ensures-gets,
}
use coffee_cloud_mvp.OrderRepository.{order_id, set_orders}
use coffee_cloud_mvp.DispatchRepository.{find_request, enqueue, upsert_request}
use coffee_cloud_mvp.Refunds.Intents.{is_refundable}
use coffee_cloud_mvp.Production.Expiry.{paying}
use coffee_cloud_mvp.Production.Frames.{Kept, Kept-refl, ensure_automatic_refund_intent-Kept}
use coffee_cloud_mvp.DeviceEvents.Silent.{to_column-Silent}
use coffee_cloud_mvp.DeviceEvents.Apply.{
  is_set, refund_of, payment_of, create_automatic_refund_record, settle_failure, refund_after,
  dispatch_after, terminal_orders,
}

-- The failure columns of an order.
failure_columns :
    (id : ℕ) (code message : Option String) (db : Db)
    → Kept db tt (
        set_orders id
          (λ o. record o { failure_code = code; failure_message = message; updated_at = db.clock })
          db)
failure_columns id code message db = (
  refl,
  refl,
  λ j o found. (
    if nat_beq o.id id
        then record o { failure_code = code; failure_message = message; updated_at = db.clock }
        else o,
    find-update order_id (λ x. nat_beq x.id j) id _ (λ x. refl) db.orders o found,
    same (nat_beq o.id id) o,
  ),
)
  where
    same :
        (b : Bool) (o : Order)
        → (if b
            then record o { failure_code = code; failure_message = message; updated_at = db.clock }
            else o).status
          ≡ o.status
    same true o = refl
    same false o = refl

module _ (host : Host) where
  pub settle_failure-Kept :
      (order : Order) (status : JobStatus) (failure body : Json) (db : Db)
      → Ensures (Kept db) (settle_failure host order status failure body db)
  unfolding settle_failure
  settle_failure-Kept order status failure body db = elim (Bool-cases (is_truthy failure)) [
    | inl fails ↦ rw fails (
        Ensures-bind _ _ db (to_column-Silent host _ db) λ code db1 same1.
          Ensures-bind _ _ db1 (to_column-Silent host _ db1) λ message db2 same2.
            rw (same2, same1) (done (failure_columns order.id code message db)))
    | inr fine ↦
        elim (Bool-cases (
          contains status (JobStatus.executing ∷ JobStatus.succeeded ∷ [])
          && is_set order.failure_code)) [
            | inl clears ↦ rw (fine, clears) (done (failure_columns order.id none none db))
            | inr keeps ↦ rw (fine, keeps) (done (Kept-refl tt db))
          ]
  ]

  pub dispatch_after-Kept :
      (terminal : ℕ) (status : OrderStatus) (db : Db)
      → Ensures (Kept db) (dispatch_after host terminal status db)
  unfolding enqueue upsert_request
  dispatch_after-Kept terminal status db = elim (Bool-cases (contains status terminal_orders)) [
    | inr open' ↦ rw open' (done (Kept-refl tt db))
    | inl ended ↦ rw ended (elim (Option-cases (find_request terminal db)) [
      | inl absent ↦ rw absent (done (refl, refl, λ j o e. (o, e, refl)))
      | inr (q, found) ↦ rw found (done (refl, refl, λ j o e. (o, e, refl)))
    ])
  ]

  refund_of-Kept :
      (order : Order) (job : Job) (event : JobEvent) (payment : Option Payment) (db : Db)
      → Ensures (Kept db) (refund_of host order job event payment db)
  refund_of-Kept order job event none db = done (Kept-refl tt db)
  refund_of-Kept order job event (some payment) db =
      elim (Bool-cases (is_refundable payment.status)) [
        | inr kept ↦ rw kept (done (Kept-refl tt db))
        | inl refunds ↦ rw refunds (
            Ensures-bind _ _ db (ensure_automatic_refund_intent-Kept host payment.id _ _ _ db)
              λ i db1 k. done k)
      ]

  recorded-Kept :
      (order : Order) (job : Job) (event : JobEvent) (db : Db)
      → Ensures (Kept db) (create_automatic_refund_record host order job event db)
  unfolding create_automatic_refund_record
  recorded-Kept order job event db =
      Ensures-gets _ _ db (refund_of-Kept order job event (payment_of host (paying order db) db) db)

  pub refund_after-Kept :
      (order : Order) (job : Job) (event : JobEvent) (db : Db)
      → Ensures (Kept db) (refund_after host order job event db)
  refund_after-Kept order job JobEvent.failed db = recorded-Kept order job JobEvent.failed db
  refund_after-Kept order job JobEvent.rejected db = recorded-Kept order job JobEvent.rejected db
  refund_after-Kept order job JobEvent.cancelled db = recorded-Kept order job JobEvent.cancelled db
  refund_after-Kept order job _ db = done (Kept-refl tt db)
