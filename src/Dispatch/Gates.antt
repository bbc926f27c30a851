-- ===== src/Dispatch/Gates.antt =====
-- Every way in which `dispatch_next_order_result` of app/services/production.py returns.
use coffee_cloud_mvp.Base.{
  ℕ, ◌≡◌, ◌≢◌, refl, true, false, string_eq, not, ◌||◌, Option, none, some, ◌==◌, inl, inr, ◌⊎◌,
  arith, Bool-cases, Option-cases,
}
use coffee_cloud_mvp.ProductionState.Orders.{OrderStatus, OrderStatus-discrete, order_status_eq}
use coffee_cloud_mvp.ProductionState.Jobs.{JobStatus, job_status_eq, JobStatus-discrete}
use coffee_cloud_mvp.Store.{
  Db, Order, Job, Terminal, Host, Ensures, done, Ensures-gets, Ensures-modify, Ensures-weaken,
}
use coffee_cloud_mvp.OrderRepository.{find_order}
use coffee_cloud_mvp.OrderRepository.Queue.{
  find_terminal, next_queued_job, lock_job, active_job_exists, pickup_blocked,
}
use coffee_cloud_mvp.ProductionState.Busy.{device_is_busy}
use coffee_cloud_mvp.Dispatch.Next.{
  DispatchReason, DispatchResult, terminal_is_online, blocked_by, dispatch_locked, dispatch_queued,
  dispatch_next_order_result,
}
use coffee_cloud_mvp.Dispatch.Placed.{Placed, dispatch_job-Placed}

module _ (wait : Db → Db) (threshold id : ℕ) (db : Db) where
  -- A job of the terminal was dispatched: no gate was closed, and the job and its order were
  -- queued under their locks.
  pub record Dispatched (db' : Db) : Type 0 where
    pub terminal : Terminal
    pub terminal_found : find_terminal id db ≡ some terminal
    pub ready : blocked_by threshold id terminal db ≡ none
    pub active : terminal.lifecycle_status ≡ "ACTIVE"
    pub online : terminal_is_online terminal threshold db.clock ≡ true
    pub idle : active_job_exists id db ≡ false
    pub unblocked : pickup_blocked id db ≡ false
    pub free : device_is_busy terminal.reported_status ≡ false
    pub job : Job
    pub picked : next_queued_job id db ≡ some job
    pub order : Order
    pub order_locked : find_order job.order_id (wait db) ≡ some order
    pub order_queued : order.status ≡ OrderStatus.queued
    pub current : Job
    pub job_locked : lock_job job.id (wait db) ≡ some current
    pub job_queued : current.status ≡ JobStatus.queued
    pub placed : Placed job.id job.order_id (wait db) db'

  -- A refusal writes nothing.
  pub data Outcome (r : DispatchResult) (db' : Db) : Type 0 where
    sent : r.reason ≡ DispatchReason.dispatched → Dispatched db' → Outcome r db'
    kept : r.reason ≢ DispatchReason.dispatched → (db' ≡ db) ⊎ (db' ≡ wait db) → Outcome r db'

  module _ (host : Host) (terminal : Terminal) (at : find_terminal id db ≡ some terminal)
      (ready : blocked_by threshold id terminal db ≡ none) where
    gates_open :
        ((terminal.lifecycle_status == "ACTIVE") ≡ true)
        × (terminal_is_online terminal threshold db.clock ≡ true)
        × (active_job_exists id db ≡ false)
        × (pickup_blocked id db ≡ false)
        × (device_is_busy terminal.reported_status ≡ false)
    unfolding blocked_by
    gates_open = ground arith

    still_queued :
        (order : Order) (current : Job)
        → (not (order.status == OrderStatus.queued) || not (current.status == JobStatus.queued))
          ≡ false
        → (order.status ≡ OrderStatus.queued) × (current.status ≡ JobStatus.queued)
    still_queued order current e = ground arith

    dispatch_locked-Outcome :
        (job : Job) (order : Option Order) (current : Option Job)
        → next_queued_job id db ≡ some job
        → find_order job.order_id (wait db) ≡ order
        → lock_job job.id (wait db) ≡ current
        → Ensures Outcome (dispatch_locked host id terminal job order current (wait db))
    unfolding dispatch_locked OrderStatus-discrete JobStatus-discrete
    dispatch_locked-Outcome job none none picked o j = done (kept (λ e. ground arith) (inr refl))
    dispatch_locked-Outcome job none (some current) picked o j =
        done (kept (λ e. ground arith) (inr refl))
    dispatch_locked-Outcome job (some order) none picked o j =
        done (kept (λ e. ground arith) (inr refl))
    dispatch_locked-Outcome job (some order) (some current) picked o j =
        elim (Bool-cases
          (not (order.status == OrderStatus.queued) || not (current.status == JobStatus.queued))) [
            | inl changed ↦ rw changed (done (kept (λ e. ground arith) (inr refl)))
            | inr still ↦ rw still (
                let queued = still_queued order current still in
                Ensures-weaken (dispatch_job-Placed host id terminal job order (wait db) o queued.0)
                  λ r db' h. sent h.0 (record {
                    terminal = terminal;
                    terminal_found = at;
                    ready = ready;
                    active = (string_eq.beq_iff terminal.lifecycle_status "ACTIVE").0 gates_open.0;
                    online = gates_open.1;
                    idle = gates_open.2;
                    unblocked = gates_open.3;
                    free = gates_open.4;
                    job = job;
                    picked = picked;
                    order = order;
                    order_locked = o;
                    order_queued = queued.0;
                    current = current;
                    job_locked = j;
                    job_queued = queued.1;
                    placed = h.1;
                  }))
          ]

    dispatch_queued-Outcome :
        (job : Option Job)
        → next_queued_job id db ≡ job
        → Ensures Outcome (dispatch_queued host wait id terminal job db)
    unfolding dispatch_queued
    dispatch_queued-Outcome none picked = done (kept (λ e. ground arith) (inl refl))
    dispatch_queued-Outcome (some job) picked = Ensures-modify _ _ db (
        Ensures-gets _ _ (wait db) (
          Ensures-gets _ _ (wait db) (
            dispatch_locked-Outcome job (find_order job.order_id (wait db))
              (lock_job job.id (wait db)) picked refl refl)))

  gated :
      (reason : DispatchReason) (terminal : Terminal)
      → blocked_by threshold id terminal db ≡ some reason
      → reason ≢ DispatchReason.dispatched
  unfolding blocked_by
  gated reason terminal e same = ground arith

  -- If the dispatch of the next order returns, then either its reason is DISPATCHED, the
  -- terminal is ACTIVE and online, has no active job and no blocked pickup and does not report
  -- itself busy, the job and the order were QUEUED under their locks, the job is linked to a
  -- command that is there as CREATED with an outbox row, and the order is DISPATCHED; or the
  -- reason is another one and it wrote nothing.
  pub dispatch_next_order_result-Outcome :
      (host : Host) → Ensures Outcome (dispatch_next_order_result host wait threshold id db)
  unfolding dispatch_next_order_result
  dispatch_next_order_result-Outcome host =
      Ensures-gets _ _ db (elim (Option-cases (find_terminal id db)) [
        | inl missing ↦ rw missing (done (kept (λ e. ground arith) (inl refl)))
        | inr (terminal, found) ↦ rw found (
            Ensures-gets _ _ db (elim (Option-cases (blocked_by threshold id terminal db)) [
              | inl ready ↦ rw ready (
                  Ensures-gets _ _ db (
                    dispatch_queued-Outcome host terminal found ready (next_queued_job id db) refl))
              | inr (reason, closed) ↦
                  rw closed (done (kept (gated reason terminal closed) (inl refl)))
            ]))
      ])
