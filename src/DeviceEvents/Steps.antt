-- ===== src/DeviceEvents/Steps.antt =====
-- What each step of `reconcile_device_event` of app/services/production.py does to the statuses
-- of one job, its order and its command.
use coffee_cloud_mvp.Base.{
  ℕ, arith, ◌≡◌, refl, sym, ap, subst, ◌∙◌, true, Option, none, some, String, Json, inl, inr,
  Bool-cases, ◌==◌, nat_eq, contains,
}
use coffee_cloud_mvp.Base.Rows.{find-update_self}
use coffee_cloud_mvp.CommandState.{CommandStatus, command_status_eq, decide_transition}
use coffee_cloud_mvp.ProductionState.Orders.{OrderStatus, order_status_eq, order_transition_allowed}
use coffee_cloud_mvp.ProductionState.Jobs.{JobStatus, job_status_eq, final_jobs}
use coffee_cloud_mvp.Store.{Db, Order, Job, Command, Host, Ensures, done, Ensures-weaken}
use coffee_cloud_mvp.OrderRepository.{find_order}
use coffee_cloud_mvp.OrderRepository.Jobs.{
  job_id, is_of_command, job_for_command, set_jobs, held_job,
}
use coffee_cloud_mvp.OrderRepository.Progress.{cleared_job}
use coffee_cloud_mvp.CommandRepository.{find_command}
use coffee_cloud_mvp.Transitions.Orders.{transition_order}
use coffee_cloud_mvp.Production.Commands.{transition_command}
use coffee_cloud_mvp.Production.Coherence.{Together}
use coffee_cloud_mvp.ProductionState.Lockstep.{IsCoherent}
use coffee_cloud_mvp.Production.Frames.{Kept}
use coffee_cloud_mvp.Production.Endings.{transition_command-Commanded, transition_order-Reached}
use coffee_cloud_mvp.DeviceEvents.Apply.{settle_hold}

duplicate_same : (c t : CommandStatus) → (decide_transition c t).duplicate ≡ true → c ≡ t
unfolding decide_transition
duplicate_same c t e = ground arith

-- The three rows of one command, with their statuses.
pub record Rows (own id order : ℕ) (js : JobStatus) (os : OrderStatus) (cs : CommandStatus)
    (db : Db) : Type 0 where
  pub job : Job
  pub job_found : job_for_command id db ≡ some job
  pub job_own : job.id ≡ own
  pub job_at : job.status ≡ js
  pub order_row : Order
  pub order_found : find_order order db ≡ some order_row
  pub order_at : order_row.status ≡ os
  pub command : Command
  pub command_found : find_command id db ≡ some command
  pub command_at : command.status ≡ cs

pub Rows-Together :
    (own id order : ℕ) (js : JobStatus) (os : OrderStatus) (cs : CommandStatus) (db : Db)
    → IsCoherent js os cs
    → Rows own id order js os cs db
    → Together id order db
Rows-Together own id order js os cs db coherent r = record {
  job = r.job;
  order_row = r.order_row;
  command = r.command;
  job_found = r.job_found;
  order_found = r.order_found;
  command_found = r.command_found;
  coherent = rw (r.job_at, r.order_at, r.command_at) coherent;
}

module _ (own id order : ℕ) where
  pub Kept-Rows :
      {A : Type 0} (js : JobStatus) (os : OrderStatus) (cs : CommandStatus) (a : A) (db db' : Db)
      → Kept db a db'
      → Rows own id order js os cs db
      → Rows own id order js os cs db'
  Kept-Rows js os cs a db db' kept r =
      let (o, found, same) = kept.2 order r.order_row r.order_found in
      record {
        job = r.job;
        job_found = rw kept.0 r.job_found;
        job_own = r.job_own;
        job_at = r.job_at;
        order_row = o;
        order_found = found;
        order_at = same ∙ r.order_at;
        command = r.command;
        command_found = rw kept.1 r.command_found;
        command_at = r.command_at;
      }

  -- A write to the job's row.
  pub set_jobs-Rows :
      (js js' : JobStatus) (os : OrderStatus) (cs : CommandStatus) (f : Job → Job) (db : Db)
      → ((j : Job)
          → (j.status ≡ js)
          → ((f j).id ≡ j.id) × ((f j).command_id ≡ j.command_id) × ((f j).status ≡ js'))
      → ((j : Job) → (f j).command_id ≡ j.command_id)
      → Rows own id order js os cs db
      → Rows own id order js' os cs (set_jobs own f db)
  set_jobs-Rows js js' os cs f db writes keeps r =
      let w = writes r.job r.job_at in
      record {
        job = f r.job;
        job_found =
            subst (λ k. job_for_command id (set_jobs k f db) ≡ some (f r.job)) r.job_own
              (find-update_self job_id (λ j. is_of_command id j.command_id) f
                (λ j. ap (is_of_command id) (keeps j)) db.jobs r.job r.job_found);
        job_own = w.0 ∙ r.job_own;
        job_at = w.2;
        order_row = r.order_row;
        order_found = r.order_found;
        order_at = r.order_at;
        command = r.command;
        command_found = r.command_found;
        command_at = r.command_at;
      }

  -- An allowed transition of the command.
  pub transition_command-Rows :
      (js : JobStatus) (os : OrderStatus) (command : Command) (target : CommandStatus)
      (actor : String) (reason : Option String) (payload : Option Json) (db : Db)
      → command.id ≡ id
      → find_command id db ≡ some command
      → (decide_transition command.status target).allowed ≡ true
      → Rows own id order js os command.status db
      → Ensures
          (λ u db'. Rows own id order js os target db')
          (transition_command command target actor reason payload true db)
  unfolding transition_command
  transition_command-Rows js os command target actor reason payload db mine sent allowed r =
      elim (Bool-cases (decide_transition command.status target).duplicate) [
        | inl same ↦ rw same (
            done (
              subst (λ c. Rows own id order js os c db) (duplicate_same command.status target same)
                r))
        | inr fresh ↦
            Ensures-weaken
              (transition_command-Commanded command target actor reason payload true db
                (subst (λ k. find_command k db ≡ some command) (sym mine) sent) fresh allowed)
              λ u db' h. record {
                job = r.job;
                job_found = rw h.0 r.job_found;
                job_own = r.job_own;
                job_at = r.job_at;
                order_row = r.order_row;
                order_found = rw h.1 r.order_found;
                order_at = r.order_at;
                command = h.2;
                command_found = subst (λ k. find_command k db' ≡ some h.2) mine h.3;
                command_at = h.4;
              }
      ]

  -- An allowed transition of the order, from the status that its row has.
  pub transition_order-Rows :
      (js : JobStatus) (cs : CommandStatus) (o : Order) (target : OrderStatus) (actor : String)
      (reason : Option String) (payload : Option Json) (db : Db)
      → o.id ≡ order
      → order_transition_allowed o.status target ≡ true
      → Rows own id order js o.status cs db
      → Ensures
          (λ u db'. Rows own id order js target cs db')
          (transition_order o target actor reason payload db)
  unfolding transition_order
  transition_order-Rows js cs o target actor reason payload db mine allowed r =
      elim (Bool-cases (o.status == target)) [
        | inl same ↦ rw same (
            done (
              subst (λ s. Rows own id order js s cs db)
                ((order_status_eq.beq_iff o.status target).0 same) r))
        | inr moves ↦
            Ensures-weaken
              (transition_order-Reached o target actor reason payload db r.order_row
                (subst (λ k. find_order k db ≡ some r.order_row) (sym mine) r.order_found) moves
                allowed)
              λ u db' h. record {
                job = r.job;
                job_found = rw h.0 r.job_found;
                job_own = r.job_own;
                job_at = r.job_at;
                order_row = h.2;
                order_found = subst (λ k. find_order k db' ≡ some h.2) mine h.3;
                order_at = h.4;
                command = r.command;
                command_found = rw h.1 r.command_found;
                command_at = r.command_at;
              }
      ]

  -- The hold of the job.
  pub settle_hold-Rows :
      (host : Host) (js : JobStatus) (os : OrderStatus) (cs : CommandStatus) (db : Db)
      → Rows own id order js os cs db
      → Ensures (λ u db'. Rows own id order js os cs db') (settle_hold host own js db)
  unfolding settle_hold
  settle_hold-Rows host js os cs db r = elim (Bool-cases (js == JobStatus.hold)) [
    | inl held ↦
        let at = (job_status_eq.beq_iff js JobStatus.hold).0 held in
        rw held (
          done (
            set_jobs-Rows js js os cs (held_job "DEVICE_RESTARTED_OUTCOME_UNKNOWN" none db.clock) db
              (λ j e. (refl, refl, sym at)) (λ j. refl) r))
    | inr other ↦ elim (Bool-cases (contains js final_jobs)) [
      | inl ended ↦
          rw (other, ended)
            (done (set_jobs-Rows js js os cs cleared_job db (λ j e. (refl, refl, e)) (λ j. refl) r))
      | inr open' ↦ rw (other, open') (done r)
    ]
  ]
