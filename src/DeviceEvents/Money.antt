-- ===== src/DeviceEvents/Money.antt =====
-- The money invariant and the refunds over `reconcile_device_event` of app/services/production.py.
use coffee_cloud_mvp.Base.{
  ℕ, ◌≡◌, ◌⊎◌, refl, false, Option, none, some, String, Json, inl, inr, Bool-cases, not, ◌&&◌, ◌||◌,
  ◌==◌, nat_eq, contains, get_key,
}
use coffee_cloud_mvp.CommandState.{CommandStatus, command_status_eq, terminal_states}
use coffee_cloud_mvp.ProductionState.Orders.{order_status_eq}
use coffee_cloud_mvp.ProductionState.Jobs.{JobEvent, job_status_eq, event_targets, decide_job_event}
use coffee_cloud_mvp.Store.{
  Db, Order, Job, Command, Host, Action, Ensures, done, raised, Ensures-bind, Ensures-gets,
  Ensures-modify, Ensures-guard, Ensures-or_raise, Ensures-weaken,
}
use coffee_cloud_mvp.Ledger.Sound.{Sound}
use coffee_cloud_mvp.Ledger.Creation.{SameMoney}
use coffee_cloud_mvp.Callbacks.Sound.{same-Sound}
use coffee_cloud_mvp.Production.Money.{transition_command-Ensures}
use coffee_cloud_mvp.DeviceEvents.Replies.{EventType, EventReply}
use coffee_cloud_mvp.DeviceEvents.Silent.{
  device_revision_of-Silent, validate_metrics-Silent, device_progress-Silent, to_column-Silent,
}
use coffee_cloud_mvp.DeviceEvents.Apply.{is_coordinated, task_event}
use coffee_cloud_mvp.DeviceEvents.Reconcile.{
  standalone_event, step_event, is_final, locked_event, associated_event, located_event,
  checked_event, reconcile_device_event, is_stale_step, is_earlier_attempt, dispatched_event,
  job_event, is_ignored_recovery, by_task,
}
use coffee_cloud_mvp.OrderRepository.{find_order}
use coffee_cloud_mvp.OrderRepository.Queue.{lock_job}
use coffee_cloud_mvp.OrderRepository.Progress.{job_for_task}
use coffee_cloud_mvp.CommandRepository.{find_command}
use coffee_cloud_mvp.DeviceEvents.Metrics.{event_payload_of, attempt_of}
use coffee_cloud_mvp.DeviceEvents.Refunding.{apply_event-Kept}
use coffee_cloud_mvp.DeviceEvents.NewRefunds.{IsRefunding, NewRefund, Kept}

-- Sound, and the refunds as they were.
abbrev SameRefunds : {A : Type 0} → Db → A → Db → Type 0
SameRefunds db a db' = Sound db' × (db'.refunds ≡ db.refunds)

-- What a device event leaves: the refunds found before or under the locks, or for a refunding
-- event one more than under the locks.
abbrev pub Reconciled : {A : Type 0} → (Db → Db) → EventType → Db → A → Db → Type 0
Reconciled wait type db a db' =
    Sound db'
    × ((db'.refunds ≡ db.refunds)
        ⊎ (db'.refunds ≡ (wait db).refunds)
        ⊎ (IsRefunding type × NewRefund (wait db) db'))

-- The event under the locks.
after_wait :
    {A : Type 0} (wait : Db → Db) (type : EventType) (db : Db) (a : A) (db' : Db)
    → Kept type (wait db) a db'
    → Reconciled wait type db a db'
after_wait wait type db a db' (s, inl same) = (s, inr (inl same))
after_wait wait type db a db' (s, inr new) = (s, inr (inr new))

module _ (host : Host) where
  module _ (terminal : ℕ) (body payload : Json) (revision : Option ℕ) (order : Order)
      (job : Job) where
    task_event-Kept :
        (event : JobEvent) (command : Command) (db : Db)
        → Sound db
        → Ensures
            (Kept (EventType.task event) db)
            (task_event host terminal body payload revision event order job command db)
    unfolding task_event
    task_event-Kept event command db s =
        let decision = decide_job_event job.status event revision job.last_device_revision in
        elim (Bool-cases (not decision.allowed || decision.duplicate)) [
          | inl refused ↦ rw refused (done (s, inl refl))
          | inr decided ↦ elim (Bool-cases (is_coordinated host event order command)) [
            | inr illegal ↦ rw (decided, illegal) (done (s, inl refl))
            | inl legal ↦
                rw (decided, legal)
                  (apply_event-Kept host terminal body payload revision event order job command db
                    s)
          ]
        ]

    step_event-SameMoney :
        (command : Command) (db : Db)
        → Ensures (SameMoney db) (step_event host body payload revision order job command db)
    unfolding step_event
    step_event-SameMoney command db = elim (Bool-cases (is_stale_step host revision order job)) [
      | inl stale ↦ rw stale (done (refl, refl))
      | inr next ↦ rw next (
          Ensures-bind _ _ db (device_progress-Silent payload _ _ db) λ progress db1 same1.
            Ensures-bind _ _ db1 (to_column-Silent host _ db1) λ id db2 same2.
              Ensures-bind _ _ db2 (to_column-Silent host _ db2) λ name db3 same3.
                Ensures-modify _ _ db3 (rw (same3, same2, same1) (done (refl, refl))))
    ]

    locked_event-Kept :
        (type : EventType) (command : Command) (db : Db)
        → Sound db
        → Ensures
            (Kept type db)
            (locked_event host terminal body payload revision type order job command db)
    unfolding locked_event
    locked_event-Kept type command db s =
        elim (Bool-cases
          (is_earlier_attempt (attempt_of (get_key "attempt" payload)) job.execution_attempt)) [
            | inl older ↦ rw older (done (s, inl refl))
            | inr current ↦ elim (Bool-cases (is_final order job command)) [
              | inl ended ↦ rw (current, ended) (done (s, inl refl))
              | inr open' ↦ rw (current, open') (by_type type)
            ]
          ]
      where
        by_type :
            (t : EventType)
            → Ensures (Kept t db) (
                (elim t as (λ x. Action EventReply) [
                  | EventType.task event ↦
                      task_event host terminal body payload revision event order job command
                  | _ ↦ step_event host body payload revision order job command
                ])
                  db)
        by_type (EventType.task event) = task_event-Kept event command db s
        by_type _ =
            Ensures-weaken (step_event-SameMoney command db)
              λ r db1 same. (same-Sound r db db1 same s, inl same.1)

    associated_event-Kept :
        (task : String) (type : EventType) (found : Option Command) (db : Db)
        → Sound db
        → Ensures
            (Kept type db)
            (associated_event host terminal task body payload revision type order job found db)
    unfolding associated_event
    associated_event-Kept task type none db s = raised
    associated_event-Kept task type (some command) db s =
        Ensures-guard _ _ _ db
          λ own. Ensures-guard _ _ _ db λ same. locked_event-Kept type command db s

  module _ (terminal : ℕ) (task : String) (body payload : Json) (revision : Option ℕ)
      (type : EventType) where
    dispatched_event-Kept :
        (order : Order) (job : Job) (command : Option ℕ) (db : Db)
        → Sound db
        → Ensures
            (Kept type db)
            (dispatched_event host terminal task body payload revision type order job command db)
    dispatched_event-Kept order job none db s = done (s, inl refl)
    dispatched_event-Kept order job (some id) db s = Ensures-gets _ _ db (
        associated_event-Kept terminal body payload revision order job task type
          (find_command id db) db s)

    job_event-Kept :
        (order : Option Order) (job : Option Job) (db : Db)
        → Sound db
        → Ensures
            (Kept type db)
            (job_event host terminal task body payload revision type order job db)
    job_event-Kept none job db s = done (s, inl refl)
    job_event-Kept (some order) none db s = done (s, inl refl)
    job_event-Kept (some order) (some job) db s =
        dispatched_event-Kept order job job.command_id db s

    standalone_event-SameRefunds :
        (t : EventType) (command : Option Command) (db : Db)
        → Sound db
        → Ensures (SameRefunds db) (standalone_event body payload t command db)
    unfolding standalone_event
    standalone_event-SameRefunds (EventType.task event) none db s = done (s, refl)
    standalone_event-SameRefunds (EventType.task event) (some command) db s =
        Ensures-guard _ _ _ db λ own.
          elim (Bool-cases (
            command.status == CommandStatus.unknown
            && not (contains (event_targets event).2 terminal_states))) [
              | inl held ↦ rw held (done (s, refl))
              | inr moves ↦ rw moves (
                  Ensures-bind _ _ db (transition_command-Ensures command _ _ _ _ false db)
                    λ moved db1 same. done (same-Sound moved db db1 same s, same.1))
            ]
    standalone_event-SameRefunds _ command db s = done (s, refl)

    located_event-Reconciled :
        (wait : Db → Db) (located : Option Job) (db : Db)
        → Sound db
        → ((d : Db) → Sound d → Sound (wait d))
        → Ensures
            (Reconciled wait type db)
            (located_event host wait terminal task body payload revision type located db)
    unfolding located_event
    located_event-Reconciled wait none db s others = Ensures-gets _ _ db (
        Ensures-weaken (standalone_event-SameRefunds type (by_task host terminal task db) db s)
          λ r db' h. (h.0, inl h.1))
    located_event-Reconciled wait (some job) db s others =
        let now = wait db in
        Ensures-modify _ _ db (
          Ensures-gets _ _ now (
            Ensures-gets _ _ now (
              Ensures-bind _ _ now
                (job_event-Kept (find_order job.order_id now) (lock_job job.id now) now
                  (others db s))
                λ r db1 k. done (after_wait wait type db r _ k))))

  checked_event-Reconciled :
      (wait : Db → Db) (terminal : ℕ) (body : Json) (type : EventType) (db : Db)
      → Sound db
      → ((d : Db) → Sound d → Sound (wait d))
      → Ensures (Reconciled wait type db) (checked_event host wait terminal body type db)
  unfolding checked_event
  checked_event-Reconciled wait terminal body type db s others =
      let payload = event_payload_of body in
      Ensures-bind _ _ db (device_revision_of-Silent payload db) λ revision db1 same1.
        Ensures-bind _ _ db1 (validate_metrics-Silent payload db1) λ u db2 same2.
          Ensures-or_raise _ _ _ db2 λ task e. Ensures-guard _ _ _ db2 λ agree.
            rw (same2, same1)
              (elim (Bool-cases (is_ignored_recovery host type payload)) [
                | inl ignored ↦ rw ignored (done (s, inl refl))
                | inr next ↦ rw next (
                    Ensures-gets _ _ db (
                      located_event-Reconciled terminal task body payload revision type wait
                        (job_for_task terminal task db) db s others))
              ])

  -- In a sound database and for any sound work of other transactions before the row locks: if
  -- the reconciliation of a device event returns, the money invariant holds after it, and the
  -- refunds are those before it, or those found under the locks, or, for task.failed,
  -- task.rejected and task.cancelled only, the latter and one more: a REQUESTED refund of a
  -- payment that is PAID, REFUNDING or PARTIALLY_REFUNDED, whose amount, with the refunds that
  -- have succeeded or are in flight, is exactly the amount of the payment.
  pub reconcile_device_event-Refunds :
      (wait : Db → Db) (terminal : ℕ) (body : Json) (type : EventType) (db : Db)
      → Sound db
      → ((d : Db) → Sound d → Sound (wait d))
      → Ensures (Reconciled wait type db) (reconcile_device_event host wait terminal body type db)
  unfolding reconcile_device_event
  reconcile_device_event-Refunds wait terminal body EventType.task_progress db s others =
      done (s, inl refl)
  reconcile_device_event-Refunds wait terminal body EventType.other db s others = done (s, inl refl)
  reconcile_device_event-Refunds wait terminal body EventType.step_started db s others =
      checked_event-Reconciled wait terminal body EventType.step_started db s others
  reconcile_device_event-Refunds wait terminal body EventType.step_completed db s others =
      checked_event-Reconciled wait terminal body EventType.step_completed db s others
  reconcile_device_event-Refunds wait terminal body (EventType.task event) db s others =
      checked_event-Reconciled wait terminal body (EventType.task event) db s others
