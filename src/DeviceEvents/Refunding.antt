-- ===== src/DeviceEvents/Refunding.antt =====
-- The money invariant over the writes of a device event, its automatic refund included:
-- `create_automatic_refund_record` and the end of `reconcile_device_event` of
-- app/services/production.py.
use coffee_cloud_mvp.Base.{
  ℕ, ◌≡◌, refl, true, Option, none, some, Json, inl, inr, Bool-cases, Option-cases, ◌&&◌, ◌==◌,
  nat_eq, contains, is_truthy, [], ◌∷◌,
}
use coffee_cloud_mvp.CommandState.{command_status_eq}
use coffee_cloud_mvp.ProductionState.Orders.{OrderStatus, order_status_eq}
use coffee_cloud_mvp.ProductionState.Jobs.{JobStatus, JobEvent, job_status_eq, final_jobs}
use coffee_cloud_mvp.Store.{
  Db, Order, Payment, Job, Command, Host, Ensures, done, Ensures-bind, Ensures-gets, Ensures-modify,
  Ensures-weaken,
}
use coffee_cloud_mvp.DispatchRepository.{find_request, enqueue, upsert_request}
use coffee_cloud_mvp.DeviceEvents.Replies.{EventType}
use coffee_cloud_mvp.Refunds.Intents.{is_refundable}
use coffee_cloud_mvp.Ledger.Sound.{Sound}
use coffee_cloud_mvp.Ledger.Creation.{SameMoney}
use coffee_cloud_mvp.Ledger.Automatic.{ensure_automatic_refund_intent-Ensures}
use coffee_cloud_mvp.DeviceEvents.NewRefunds.{
  Refunds, Kept, Automatic-Refunds, Refunds-Kept, Kept-between,
}
use coffee_cloud_mvp.Callbacks.Sound.{same-Sound}
use coffee_cloud_mvp.Production.Expiry.{paying}
use coffee_cloud_mvp.Production.Money.{transition_order-Ensures, transition_command-Ensures}
use coffee_cloud_mvp.DeviceEvents.Silent.{
  device_progress-Silent, failure_of-Silent, to_column-Silent,
}
use coffee_cloud_mvp.DeviceEvents.Apply.{
  is_set, refund_of, payment_of, create_automatic_refund_record, settle_hold, settle_failure,
  refund_after, dispatch_after, apply_event, terminal_orders,
}

module _ (host : Host) where
  settle_hold-SameMoney :
      (id : ℕ) (status : JobStatus) (db : Db)
      → Ensures (SameMoney db) (settle_hold host id status db)
  unfolding settle_hold
  settle_hold-SameMoney id status db = elim (Bool-cases (status == JobStatus.hold)) [
    | inl held ↦ rw held (done (refl, refl))
    | inr other ↦ elim (Bool-cases (contains status final_jobs)) [
      | inl ended ↦ rw (other, ended) (done (refl, refl))
      | inr open' ↦ rw (other, open') (done (refl, refl))
    ]
  ]

  settle_failure-SameMoney :
      (order : Order) (status : JobStatus) (failure body : Json) (db : Db)
      → Ensures (SameMoney db) (settle_failure host order status failure body db)
  unfolding settle_failure
  settle_failure-SameMoney order status failure body db = elim (Bool-cases (is_truthy failure)) [
    | inl fails ↦ rw fails (
        Ensures-bind _ _ db (to_column-Silent host _ db) λ code db1 same1.
          Ensures-bind _ _ db1 (to_column-Silent host _ db1)
            λ message db2 same2. rw (same2, same1) (done (refl, refl)))
    | inr fine ↦
        elim (Bool-cases (
          contains status (JobStatus.executing ∷ JobStatus.succeeded ∷ [])
          && is_set order.failure_code)) [
            | inl clears ↦ rw (fine, clears) (done (refl, refl))
            | inr keeps ↦ rw (fine, keeps) (done (refl, refl))
          ]
  ]

  dispatch_after-SameMoney :
      (terminal : ℕ) (status : OrderStatus) (db : Db)
      → Ensures (SameMoney db) (dispatch_after host terminal status db)
  unfolding enqueue upsert_request
  dispatch_after-SameMoney terminal status db =
      elim (Bool-cases (contains status terminal_orders)) [
        | inr open' ↦ rw open' (done (refl, refl))
        | inl ended ↦ rw ended (elim (Option-cases (find_request terminal db)) [
          | inl absent ↦ rw absent (done (refl, refl))
          | inr (r, found) ↦ rw found (done (refl, refl))
        ])
      ]

  refund_of-Refunds :
      (order : Order) (job : Job) (event : JobEvent) (payment : Option Payment) (db : Db)
      → Sound db
      → Ensures (λ u db'. Sound db' × Refunds db db') (refund_of host order job event payment db)
  refund_of-Refunds order job event none db s = done (s, inl refl)
  refund_of-Refunds order job event (some payment) db s =
      elim (Bool-cases (is_refundable payment.status)) [
        | inr kept ↦ rw kept (done (s, inl refl))
        | inl refunds ↦ rw refunds (
            Ensures-bind _ _ db (ensure_automatic_refund_intent-Ensures host payment.id _ _ _ db s)
              λ i db1 a. done (Automatic-Refunds i payment.id _ db db1 a))
      ]

  create_automatic_refund_record-Refunds :
      (order : Order) (job : Job) (event : JobEvent) (db : Db)
      → Sound db
      → Ensures
          (λ u db'. Sound db' × Refunds db db')
          (create_automatic_refund_record host order job event db)
  unfolding create_automatic_refund_record
  create_automatic_refund_record-Refunds order job event db s =
      Ensures-gets _ _ db
        (refund_of-Refunds order job event (payment_of host (paying order db) db) db s)

  refund_after-Kept :
      (order : Order) (job : Job) (event : JobEvent) (db : Db)
      → Sound db
      → Ensures (Kept (EventType.task event) db) (refund_after host order job event db)
  refund_after-Kept order job JobEvent.failed db s =
      Ensures-weaken (create_automatic_refund_record-Refunds order job JobEvent.failed db s)
        λ u db' h. Refunds-Kept (EventType.task JobEvent.failed) u db db' (inl refl) h
  refund_after-Kept order job JobEvent.rejected db s =
      Ensures-weaken (create_automatic_refund_record-Refunds order job JobEvent.rejected db s)
        λ u db' h. Refunds-Kept (EventType.task JobEvent.rejected) u db db' (inr (inl refl)) h
  refund_after-Kept order job JobEvent.cancelled db s =
      Ensures-weaken (create_automatic_refund_record-Refunds order job JobEvent.cancelled db s)
        λ u db' h. Refunds-Kept (EventType.task JobEvent.cancelled) u db db' (inr (inr refl)) h
  refund_after-Kept order job _ db s = done (s, inl refl)

  pub apply_event-Kept :
      (terminal : ℕ) (body payload : Json) (revision : Option ℕ) (event : JobEvent) (order : Order)
      (job : Job) (command : Command) (db : Db)
      → Sound db
      → Ensures
          (Kept (EventType.task event) db)
          (apply_event host terminal body payload revision event order job command db)
  unfolding apply_event
  apply_event-Kept terminal body payload revision event order job command db s =
      Ensures-bind _ _ db (failure_of-Silent host event body payload db) λ failure db1 same1.
        Ensures-bind _ _ db1 (device_progress-Silent payload _ _ db1) λ progress db2 same2.
          let sames : db2 ≡ db = cc (same1, same2) in
          Ensures-gets _ _ db2 (
            Ensures-bind _ _ db2 (transition_command-Ensures command _ _ _ _ true db2)
              λ moved db3 same3. Ensures-modify _ _ db3 (
                Ensures-bind _ _ _ (settle_hold-SameMoney job.id _ _) λ u db4 same4.
                  Ensures-bind _ _ db4 (settle_failure-SameMoney order _ failure body db4)
                    λ u2 db5 same5.
                      Ensures-bind _ _ db5 (transition_order-Ensures order _ _ _ _ db5)
                        λ o db6 same6.
                          let before : SameMoney db u db6 = (
                            cc (sames, same3.0, same4.0, same5.0, same6.0),
                            cc (sames, same3.1, same4.1, same5.1, same6.1),
                          ) in
                          Ensures-bind _ _ db6
                            (refund_after-Kept o job event db6 (same-Sound u db db6 before s))
                            λ u3 db7 k.
                              Ensures-bind _ _ db7 (dispatch_after-SameMoney terminal _ db7)
                                λ u4 db8 same8. done (
                                  Kept-between (EventType.task event) u4 db db6 db7 db8 before same8
                                    k)))
