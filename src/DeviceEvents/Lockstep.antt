-- ===== src/DeviceEvents/Lockstep.antt =====
-- The writes of a device event under the row locks and the statuses of the job, its order and its
-- command: the end of `reconcile_device_event` of app/services/production.py.
use coffee_cloud_mvp.Base.{
  ℕ, ◌≡◌, refl, sym, subst, Bool, true, false, Option, none, some, String, Json, inl, inr,
  Bool-cases, not, ◌||◌, ◌&&◌, arith, get_key, or_json,
}
use coffee_cloud_mvp.Base.Rows.{some-inj}
use coffee_cloud_mvp.CommandState.{decide_transition}
use coffee_cloud_mvp.ProductionState.Orders.{order_transition_allowed}
use coffee_cloud_mvp.ProductionState.Jobs.{JobEvent, event_targets, decide_job_event}
use coffee_cloud_mvp.ProductionState.Lockstep.{IsCoherent, decide-Lockstep}
use coffee_cloud_mvp.Store.{
  Db, Order, Job, Command, Host, Action, Ensures, done, Ensures-bind, Ensures-gets, Ensures-modify,
  Ensures-guard, Ensures-weaken,
}
use coffee_cloud_mvp.OrderRepository.Progress.{progressed_job, advanced_job}
use coffee_cloud_mvp.CommandRepository.{find_command}
use coffee_cloud_mvp.Production.Coherence.{Together}
use coffee_cloud_mvp.DeviceEvents.Replies.{EventType, EventReply}
use coffee_cloud_mvp.DeviceEvents.Metrics.{attempt_of}
use coffee_cloud_mvp.DeviceEvents.Silent.{
  device_progress-Silent, failure_of-Silent, to_column-Silent,
}
use coffee_cloud_mvp.DeviceEvents.Apply.{
  apply_event, is_coordinated, task_event, metrics_of, if_truthy, if_present, times_of,
}
use coffee_cloud_mvp.DeviceEvents.Reconcile.{
  step_event, is_final, is_stale_step, is_earlier_attempt, locked_event, associated_event,
  dispatched_event, step_metrics,
}
use coffee_cloud_mvp.DeviceEvents.Frames.{
  settle_failure-Kept, dispatch_after-Kept, refund_after-Kept,
}
use coffee_cloud_mvp.DeviceEvents.Steps.{
  Rows, Rows-Together, Kept-Rows, set_jobs-Rows, transition_command-Rows, transition_order-Rows,
  settle_hold-Rows,
}

and_both : (a b : Bool) → (a && b) ≡ true → (a ≡ true) × (b ≡ true)
and_both a b e = ground arith

or_neither : (a b : Bool) → (a || b) ≡ false → (a ≡ false) × (b ≡ false)
or_neither a b e = ground arith

not-false : (a : Bool) → not a ≡ false → a ≡ true
not-false a e = ground arith

module _ (host : Host) (id : ℕ) (order : Order) (job : Job) (command : Command) where
  -- The rows are there, with statuses that belong together.
  abbrev Met : Db → Type 0
  Met db =
      Rows job.id id order.id job.status order.status command.status db
      × (command.id ≡ id)
      × (find_command id db ≡ some command)

  apply_event-Rows :
      (terminal : ℕ) (body payload : Json) (revision : Option ℕ) (event : JobEvent) (db : Db)
      → Met db
      → order_transition_allowed order.status (event_targets event).0 ≡ true
      → (decide_transition command.status (event_targets event).2).allowed ≡ true
      → Ensures
          (λ u db'.
            Rows job.id id order.id
              (event_targets event).1
              (event_targets event).0
              (event_targets event).2
              db')
          (apply_event host terminal body payload revision event order job command db)
  unfolding apply_event
  apply_event-Rows terminal body payload revision event db met legal allowed =
      let (os, js, cs) = event_targets event in
      Ensures-bind _ _ db (failure_of-Silent host event body payload db) λ failure db1 same1.
        Ensures-bind _ _ db1 (device_progress-Silent payload _ _ db1) λ progress db2 same2.
          let met2 : Met db2 = rw (same2, same1) met in
          Ensures-gets _ _ db2 (
            Ensures-bind _ _ db2
              (transition_command-Rows job.id id order.id job.status order.status command cs _ _ _
                db2 met2.1 met2.2 allowed met2.0)
              λ moved db3 r3. Ensures-modify _ _ db3 (
                let written =
                  set_jobs-Rows job.id id order.id job.status js order.status cs
                    (advanced_job js (metrics_of host event payload revision progress)
                      (if_present
                        (or_json (get_key "stepPlan" payload) (get_key "stepDurations" payload)))
                      (if_truthy failure) (times_of js job db2.clock) db3.clock)
                    db3 (λ j e. (refl, refl, refl)) (λ j. refl) r3 in
                Ensures-bind _ _ _
                  (settle_hold-Rows job.id id order.id host js order.status cs _ written)
                  λ u db4 r4.
                    Ensures-bind _ _ db4 (settle_failure-Kept host order js failure body db4)
                      λ u2 db5 kept5.
                        let r5 =
                          Kept-Rows job.id id order.id js order.status cs u2 db4 db5 kept5 r4 in
                        Ensures-bind _ _ db5
                          (transition_order-Rows job.id id order.id js cs order os _ _ _ db5 refl
                            legal r5)
                          λ o db6 r6.
                            Ensures-bind _ _ db6 (refund_after-Kept host o job event db6)
                              λ u3 db7 kept7.
                                Ensures-bind _ _ db7 (dispatch_after-Kept host terminal os db7)
                                  λ u4 db8 kept8. done (
                                    Kept-Rows job.id id order.id js os cs u4 db7 db8 kept8
                                      (Kept-Rows job.id id order.id js os cs u3 db6 db7 kept7 r6))))

  module _ (coherent : IsCoherent job.status order.status command.status) (terminal : ℕ)
      (body payload : Json) (revision : Option ℕ) where
    unmoved : (db : Db) → Met db → Together id order.id db
    unmoved db met =
        Rows-Together job.id id order.id job.status order.status command.status db coherent met.0

    task_event-Together :
        (event : JobEvent) (db : Db)
        → Met db
        → Ensures
            (λ r db'. Together id order.id db')
            (task_event host terminal body payload revision event order job command db)
    unfolding task_event
    task_event-Together event db met =
        let decision = decide_job_event job.status event revision job.last_device_revision in
        elim (Bool-cases (not decision.allowed || decision.duplicate)) [
          | inl refused ↦ rw refused (done (unmoved db met))
          | inr decided ↦ elim (Bool-cases (is_coordinated host event order command)) [
            | inr illegal ↦ rw (decided, illegal) (done (unmoved db met))
            | inl legal ↦
                let both = and_both _ _ legal in
                let lockstep =
                  decide-Lockstep job.status event revision job.last_device_revision order.status
                    command.status coherent
                    (not-false decision.allowed (or_neither (not decision.allowed) _ decided).0) in
                rw (decided, legal)
                  (Ensures-weaken
                    (apply_event-Rows terminal body payload revision event db met both.0 both.1)
                    λ r db' rows. Rows-Together job.id id order.id _ _ _ db' lockstep.2 rows)
          ]
        ]

    step_event-Together :
        (db : Db)
        → Met db
        → Ensures
            (λ r db'. Together id order.id db')
            (step_event host body payload revision order job command db)
    unfolding step_event
    step_event-Together db met = elim (Bool-cases (is_stale_step host revision order job)) [
      | inl stale ↦ rw stale (done (unmoved db met))
      | inr next ↦ rw next (
          Ensures-bind _ _ db (device_progress-Silent payload _ _ db) λ progress db1 same1.
            Ensures-bind _ _ db1 (to_column-Silent host _ db1) λ step_id db2 same2.
              Ensures-bind _ _ db2 (to_column-Silent host _ db2) λ step_name db3 same3.
                let rows3 : Rows job.id id order.id job.status order.status command.status db3 =
                  rw (same3, same2, same1) met.0 in
                Ensures-modify _ _ db3 (
                  done (
                    Rows-Together job.id id order.id job.status order.status command.status _
                      coherent
                      (set_jobs-Rows job.id id order.id job.status job.status order.status
                        command.status
                        (progressed_job (step_metrics host payload revision progress) step_id
                          step_name db3.clock)
                        db3 (λ j e. (refl, refl, e)) (λ j. refl) rows3))))
    ]

    locked_event-Together :
        (type : EventType) (db : Db)
        → Met db
        → Ensures
            (λ r db'. Together id order.id db')
            (locked_event host terminal body payload revision type order job command db)
    unfolding locked_event
    locked_event-Together type db met =
        elim (Bool-cases
          (is_earlier_attempt (attempt_of (get_key "attempt" payload)) job.execution_attempt)) [
            | inl older ↦ rw older (done (unmoved db met))
            | inr current ↦ elim (Bool-cases (is_final order job command)) [
              | inl ended ↦ rw (current, ended) (done (unmoved db met))
              | inr open' ↦ rw (current, open') (by_type type)
            ]
          ]
      where
        by_type :
            (t : EventType)
            → Ensures
                (λ r db'. Together id order.id db')
                ((elim t as (λ x. Action EventReply) [
                  | EventType.task event ↦
                      task_event host terminal body payload revision event order job command
                  | _ ↦ step_event host body payload revision order job command
                ])
                  db)
        by_type (EventType.task event) = task_event-Together event db met
        by_type _ = step_event-Together db met

    pub dispatched_event-Together :
        (task : String) (type : EventType) (db : Db) (linked : Option ℕ)
        → Met db
        → linked ≡ some id
        → Ensures
            (λ r db'. Together id order.id db')
            (dispatched_event host terminal task body payload revision type order job linked db)
    unfolding associated_event
    dispatched_event-Together task type db none met e = cc
    dispatched_event-Together task type db (some k) met e =
        let own : find_command k db ≡ some command =
          subst (λ n. find_command n db ≡ some command) (sym (some-inj e)) met.2 in
        Ensures-gets _ _ db (
          rw own (
            Ensures-guard _ _ _ db
              λ mine. Ensures-guard _ _ _ db λ same. locked_event-Together type db met))
