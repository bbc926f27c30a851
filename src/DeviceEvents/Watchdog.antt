-- ===== src/DeviceEvents/Watchdog.antt =====
-- The statuses of a job, its order and its command over `hold_overdue_job` of
-- app/services/production.py.
use coffee_cloud_mvp.Base.{
  ℕ, ◌≡◌, refl, sym, ap, ◌∙◌, subst, Bool, true, false, Option, none, some, inl, inr, Bool-cases,
  not, ◌||◌, contains, arith, [], ◌∷◌,
}
use coffee_cloud_mvp.Base.Rows.{find_id-key, some-inj}
use coffee_cloud_mvp.CommandState.{
  CommandStatus, command_status_eq, terminal_states, decide_transition,
}
use coffee_cloud_mvp.ProductionState.Orders.{
  OrderStatus, order_status_eq, final_orders, order_transition_allowed,
}
use coffee_cloud_mvp.ProductionState.Jobs.{JobStatus, job_status_eq, JobStatus-discrete}
use coffee_cloud_mvp.ProductionState.Lockstep.{IsCoherent}
use coffee_cloud_mvp.Store.{
  Db, Order, Job, Command, Ensures, done, Ensures-bind, Ensures-gets, Ensures-modify,
}
use coffee_cloud_mvp.OrderRepository.{order_id, find_order}
use coffee_cloud_mvp.OrderRepository.Jobs.{job_for_command, held_job}
use coffee_cloud_mvp.OrderRepository.Queue.{lock_job}
use coffee_cloud_mvp.CommandRepository.{command_id, find_command}
use coffee_cloud_mvp.Production.Coherence.{Together}
use coffee_cloud_mvp.Production.Overdue.{
  Timeouts, is_overdue, hold_due, hold_current, find_linked, hold_locked, hold_overdue_job,
}
use coffee_cloud_mvp.DeviceEvents.Steps.{
  Rows, Rows-Together, set_jobs-Rows, transition_command-Rows, transition_order-Rows,
}

-- `job["status"] in {...}`
abbrev is_busy : JobStatus → Bool
is_busy status = contains status (
    JobStatus.dispatched ∷ JobStatus.accepted ∷ JobStatus.executing ∷ JobStatus.paused
    ∷ JobStatus.retry_wait ∷ [])

-- The statuses of a job that the device works on allow the hold.
hold_allowed :
    (j : JobStatus) (o : OrderStatus) (c : CommandStatus)
    → IsCoherent j o c
    → is_busy j ≡ true
    → (order_transition_allowed o OrderStatus.hold ≡ true)
      × ((decide_transition c CommandStatus.unknown).allowed ≡ true)
unfolding order_transition_allowed decide_transition JobStatus-discrete
hold_allowed JobStatus.queued o c h busy = ground arith
hold_allowed _ o c h busy = ground arith

not_either : (a b : Bool) → (a || not b) ≡ false → b ≡ true
not_either a b e = ground arith

module _ (timeouts : Timeouts) (id : ℕ) (order : Order) (job : Job) (command : Command) (db : Db)
    (found : find_order order.id db ≡ some order) (works : job_for_command id db ≡ some job)
    (sent : find_command id db ≡ some command)
    (coherent : IsCoherent job.status order.status command.status) where
  rows : Rows job.id id order.id job.status order.status command.status db
  rows = record {
    job = job;
    job_found = works;
    job_own = refl;
    job_at = refl;
    order_row = order;
    order_found = found;
    order_at = refl;
    command = command;
    command_found = sent;
    command_at = refl;
  }

  kept : Together id order.id db
  unfolding rows
  kept = Rows-Together job.id id order.id job.status order.status command.status db coherent rows

  hold_due-Together :
      is_busy job.status ≡ true
      → Ensures (λ u db'. Together id order.id db') (hold_due order job command db)
  unfolding hold_due rows
  hold_due-Together busy =
      let (legal, allowed) = hold_allowed job.status order.status command.status coherent busy in
      let mine = find_id-key command_id id db.commands command sent in
      Ensures-bind _ _ db
        (transition_command-Rows job.id id order.id job.status order.status command
          CommandStatus.unknown _ _ _ db mine sent allowed rows)
        λ moved db1 r1. Ensures-modify _ _ db1 (
          Ensures-bind _ _ _
            (transition_order-Rows job.id id order.id JobStatus.hold CommandStatus.unknown order
              OrderStatus.hold _ _ _ _ refl legal
              (set_jobs-Rows job.id id order.id job.status JobStatus.hold order.status
                CommandStatus.unknown (held_job "DEVICE_OUTCOME_UNKNOWN" none db1.clock) db1
                (λ j e. (refl, refl, refl)) (λ j. refl) r1))
            λ o db2 r2. done (
              Rows-Together job.id id order.id JobStatus.hold OrderStatus.hold CommandStatus.unknown
                db2 (refl, refl) r2))

  hold_current-Together :
      (current : Option Command)
      → current ≡ some command
      → is_busy job.status ≡ true
      → Ensures (λ u db'. Together id order.id db') (hold_current timeouts order job current db)
  unfolding hold_current
  hold_current-Together none e busy = cc
  hold_current-Together (some c) e busy =
      rw (some-inj e) (elim (Bool-cases (contains command.status terminal_states)) [
        | inl ended ↦ rw ended (done kept)
        | inr open' ↦ rw open' (
            Ensures-gets _ _ db (elim (Bool-cases (is_overdue timeouts job command db.clock)) [
              | inl due ↦ rw due (hold_due-Together busy)
              | inr early ↦ rw early (done kept)
            ]))
      ])

-- When a job, its order and its command are found in statuses that belong together: if the
-- watchdog's pass over the job returns, whatever the timeouts, the three are still found, in
-- statuses that belong together, held or as they were.
pub hold_overdue_job-Together :
    (timeouts : Timeouts) (order_key job_key id : ℕ) (order : Order) (job : Job) (command : Command)
    (db : Db)
    → find_order order_key db ≡ some order
    → lock_job job_key db ≡ some job
    → job.command_id ≡ some id
    → job_for_command id db ≡ some job
    → find_command id db ≡ some command
    → IsCoherent job.status order.status command.status
    → Ensures (λ u db'. Together id order.id db') (hold_overdue_job timeouts order_key job_key db)
unfolding hold_overdue_job hold_locked
hold_overdue_job-Together timeouts order_key job_key id order job command db found locked linked
      works sent coherent =
    let key = find_id-key order_id order_key db.orders order found in
    let at : find_order order.id db ≡ some order =
      subst (λ k. find_order k db ≡ some order) (sym key) found in
    Ensures-gets _ _ db (
      Ensures-gets _ _ db (
        rw (found, locked)
          (elim (Bool-cases (contains order.status final_orders || not (is_busy job.status))) [
            | inl ended ↦
                rw ended (done (kept timeouts id order job command db at works sent coherent))
            | inr busy ↦ rw busy (
                Ensures-gets _ _ db (
                  hold_current-Together timeouts id order job command db at works sent coherent
                    (find_linked job.command_id db) (ap (λ c. find_linked c db) linked ∙ sent)
                    (not_either _ (is_busy job.status) busy)))
          ])))
