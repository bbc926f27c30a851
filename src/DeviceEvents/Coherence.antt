-- ===== src/DeviceEvents/Coherence.antt =====
-- The statuses of a job, its order and its command over `reconcile_device_event` of
-- app/services/production.py.
use coffee_cloud_mvp.Base.{
  ℕ, ◌≡◌, refl, sym, subst, ◌∙◌, Option, some, String, Json, inl, inr, ◌⊎◌, Bool-cases,
}
use coffee_cloud_mvp.Base.Rows.{find_id-key, some-inj}
use coffee_cloud_mvp.ProductionState.Lockstep.{IsCoherent}
use coffee_cloud_mvp.Store.{
  Db, Order, Job, Command, Host, Ensures, done, Ensures-bind, Ensures-gets, Ensures-modify,
  Ensures-guard, Ensures-or_raise,
}
use coffee_cloud_mvp.OrderRepository.{order_id, find_order}
use coffee_cloud_mvp.OrderRepository.Jobs.{job_for_command}
use coffee_cloud_mvp.OrderRepository.Queue.{lock_job}
use coffee_cloud_mvp.OrderRepository.Progress.{job_for_task}
use coffee_cloud_mvp.CommandRepository.{command_id, find_command}
use coffee_cloud_mvp.Production.Coherence.{Together}
use coffee_cloud_mvp.DeviceEvents.Replies.{EventType}
use coffee_cloud_mvp.DeviceEvents.Metrics.{event_payload_of, event_task_id}
use coffee_cloud_mvp.DeviceEvents.Silent.{device_revision_of-Silent, validate_metrics-Silent}
use coffee_cloud_mvp.DeviceEvents.Reconcile.{
  located_event, is_ignored_recovery, checked_event, reconcile_device_event,
}
use coffee_cloud_mvp.DeviceEvents.Steps.{Rows}
use coffee_cloud_mvp.DeviceEvents.Lockstep.{dispatched_event-Together}

-- When an event names the task of a job, and this job, its order and its command are found under
-- the row locks in statuses that belong together, after whatever other transactions did in the
-- meantime: if the reconciliation of the event returns, the tables are those before it or the
-- three rows are still found, in statuses that belong together.
pub reconcile_device_event-Together :
    (host : Host) (wait : Db → Db) (terminal : ℕ) (body : Json) (type : EventType) (db : Db)
    (task : String) (id : ℕ) (located job : Job) (order : Order) (command : Command)
    → event_task_id body ≡ some task
    → job_for_task terminal task db ≡ some located
    → find_order located.order_id (wait db) ≡ some order
    → lock_job located.id (wait db) ≡ some job
    → job.command_id ≡ some id
    → job_for_command id (wait db) ≡ some job
    → find_command id (wait db) ≡ some command
    → IsCoherent job.status order.status command.status
    → Ensures
        (λ r db'. (db' ≡ db) ⊎ Together id order.id db')
        (reconcile_device_event host wait terminal body type db)
unfolding reconcile_device_event checked_event located_event
reconcile_device_event-Together host wait terminal body type db task id located job order command
      names at found locked linked works sent coherent =
    by_type type
  where
    Kept_or : {A : Type 0} → A → Db → Type 0
    Kept_or a db' = (db' ≡ db) ⊎ Together id order.id db'

    now : Db
    now = wait db

    key : order.id ≡ located.order_id
    key = find_id-key order_id located.order_id now.orders order found

    met :
        Rows job.id id order.id job.status order.status command.status now
        × (command.id ≡ id)
        × (find_command id now ≡ some command)
    met = (
      record {
        job = job;
        job_found = works;
        job_own = refl;
        job_at = refl;
        order_row = order;
        order_found = subst (λ k. find_order k now ≡ some order) (sym key) found;
        order_at = refl;
        command = command;
        command_found = sent;
        command_at = refl;
      },
      find_id-key command_id id now.commands command sent,
      sent,
    )

    located_job :
        (t : EventType) (name : String) (revision : Option ℕ)
        → Ensures Kept_or (
            located_event host wait terminal name body
              (event_payload_of body)
              revision
              t
              (some located)
              db)
    located_job t name revision = Ensures-modify _ _ db (
        Ensures-gets _ _ now (
          Ensures-gets _ _ now (
            rw (found, locked)
              (Ensures-bind _ _ now
                (dispatched_event-Together host id order job command coherent terminal body
                  (event_payload_of body) revision name t now job.command_id met linked)
                λ r db' together. done (inr together)))))

    checked : (t : EventType) → Ensures Kept_or (checked_event host wait terminal body t db)
    checked t =
        let payload = event_payload_of body in
        Ensures-bind _ _ db (device_revision_of-Silent payload db) λ revision db1 same1.
          Ensures-bind _ _ db1 (validate_metrics-Silent payload db1) λ u db2 same2.
            rw (same2, same1)
              (Ensures-or_raise _ _ _ db λ name e. Ensures-guard _ _ _ db λ agree.
                let here =
                  subst (λ n. job_for_task terminal n db ≡ some located) (some-inj (sym names ∙ e))
                    at in
                elim (Bool-cases (is_ignored_recovery host t payload)) [
                  | inl ignored ↦ rw ignored (done (inl refl))
                  | inr next ↦ rw next (Ensures-gets _ _ db (rw here (located_job t name revision)))
                ])

    by_type :
        (t : EventType) → Ensures Kept_or (reconcile_device_event host wait terminal body t db)
    by_type EventType.task_progress = done (inl refl)
    by_type EventType.other = done (inl refl)
    by_type EventType.step_started = checked EventType.step_started
    by_type EventType.step_completed = checked EventType.step_completed
    by_type (EventType.task event) = checked (EventType.task event)
