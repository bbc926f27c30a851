-- ===== src/Production/Coherence.antt =====
-- A job, its order and its command stay coherent over `expire_order_for_command` of
-- app/services/production.py.
use coffee_cloud_mvp.Base.{
  ℕ, ◌≡◌, refl, true, false, Bool, none, some, contains, Bool-cases, inl, inr, ◌==◌, nat_eq, [],
  ◌∷◌, subst, sym, arith, if◌then◌else◌,
}
use coffee_cloud_mvp.Base.Rows.{find_id-key}
use coffee_cloud_mvp.CommandState.{
  CommandStatus, CommandStatus-discrete, command_status_eq, decide_transition,
}
use coffee_cloud_mvp.ProductionState.Orders.{OrderStatus, order_status_eq}
use coffee_cloud_mvp.ProductionState.Jobs.{JobStatus, JobStatus-discrete, job_status_eq}
use coffee_cloud_mvp.ProductionState.Lockstep.{IsCoherent}
use coffee_cloud_mvp.Store.{
  Db, Order, Job, Command, Host, Ensures, done, Ensures-bind, Ensures-gets, Ensures-modify,
  Ensures-weaken,
}
use coffee_cloud_mvp.OrderRepository.{order_id, find_order}
use coffee_cloud_mvp.OrderRepository.Jobs.{job_for_command}
use coffee_cloud_mvp.CommandRepository.{command_id, find_command, outbox_for_command}
use coffee_cloud_mvp.Production.Commands.{transition_command}
use coffee_cloud_mvp.Production.Expiry.{
  may_be_sent, verdict_of, not_due, expire_job, expire_due, expire_current,
  expire_order_for_command,
}
use coffee_cloud_mvp.Production.Endings.{
  Ended, transition_command-Commanded, withdraw-Same, hold_sent-Ended, expire_unsent-Ended,
}

-- The three rows of one command, in statuses that belong together.
pub record Together (id order : ℕ) (db : Db) : Type 0 where
  pub job : Job
  pub order_row : Order
  pub command : Command
  pub job_found : job_for_command id db ≡ some job
  pub order_found : find_order order db ≡ some order_row
  pub command_found : find_command id db ≡ some command
  pub coherent : IsCoherent job.status order_row.status command.status

created_dispatched :
    (j : JobStatus) (o : OrderStatus) (c : CommandStatus)
    → IsCoherent j o c
    → c ≡ CommandStatus.created
    → (j ≡ JobStatus.dispatched) × (o ≡ OrderStatus.dispatched)
created_dispatched j o c h e = ground arith

module _ (host : Host) (id : ℕ) (order : Order) (job : Job) (command : Command) (db : Db)
    (found : find_order order.id db ≡ some order) (works : job_for_command id db ≡ some job)
    (sent : find_command id db ≡ some command) (own : command.id ≡ id) where
  -- The command's verdict, after the rows of its job and its order.
  verdict-Together :
      (js : JobStatus) (os : OrderStatus) (verdict : CommandStatus) (db1 : Db)
      → command.status ≡ CommandStatus.created
      → IsCoherent js os verdict
      → (decide_transition CommandStatus.created verdict).duplicate ≡ false
      → (decide_transition CommandStatus.created verdict).allowed ≡ true
      → Ended id order.id js os db db1
      → Ensures
          (λ r db'. Together id order.id db')
          (transition_command command verdict "timeout-monitor"
            (some "command delivery deadline exceeded")
            none
            true
            db1)
  verdict-Together js os verdict db1 created coherent fresh allowed ended =
      let (cs, (j, jf, jst), o, of, ost) = ended in
      Ensures-weaken
        (transition_command-Commanded command verdict _ _ _ true db1
          (subst (λ k. find_command k db1 ≡ some command) (sym own) (rw cs sent)) (rw created fresh)
          (rw created allowed))
        λ r db' h. record {
          job = j;
          order_row = o;
          command = h.2;
          job_found = rw h.0 jf;
          order_found = rw h.1 of;
          command_found = subst (λ k. find_command k db' ≡ some h.2) own h.3;
          coherent = rw (jst, ost, h.4) coherent;
        }

  is_waiting :
      job.status ≡ JobStatus.dispatched
      → contains job.status (JobStatus.dispatched ∷ JobStatus.queued ∷ []) ≡ true
  unfolding JobStatus-discrete
  is_waiting waits = rw waits refl

  expire_job-Ended :
      (evidence : Bool)
      → order.status ≡ OrderStatus.dispatched
      → job.status ≡ JobStatus.dispatched
      → Ensures
          (λ u db'.
            Ended id order.id
              (if evidence then JobStatus.hold else JobStatus.expired)
              (if evidence then OrderStatus.hold else OrderStatus.expired)
              db
              db')
          (expire_job host (some order) (some job) evidence command db)
  unfolding expire_job
  expire_job-Ended true dispatched waits =
      rw (is_waiting waits) (hold_sent-Ended id order job command db found works dispatched)
  expire_job-Ended false dispatched waits =
      rw (is_waiting waits)
        (expire_unsent-Ended id order job command db found works dispatched host)

  either_verdict-Together :
      (evidence : Bool) (db1 : Db)
      → command.status ≡ CommandStatus.created
      → Ended id order.id
          (if evidence then JobStatus.hold else JobStatus.expired)
          (if evidence then OrderStatus.hold else OrderStatus.expired)
          db
          db1
      → Ensures
          (λ r db'. Together id order.id db')
          (transition_command command
            (verdict_of evidence)
            "timeout-monitor"
            (some "command delivery deadline exceeded")
            none
            true
            db1)
  unfolding decide_transition CommandStatus-discrete
  either_verdict-Together true db1 created ended =
      verdict-Together JobStatus.hold OrderStatus.hold CommandStatus.unknown db1 created
        (refl, refl) refl refl ended
  either_verdict-Together false db1 created ended =
      verdict-Together JobStatus.expired OrderStatus.expired CommandStatus.expired db1 created
        (refl, refl) refl refl ended

module _ (host : Host) (id : ℕ) (order : Order) (job : Job) (command : Command) (db : Db)
    (found : find_order order.id db ≡ some order) (works : job_for_command id db ≡ some job)
    (sent : find_command id db ≡ some command) (own : command.id ≡ id)
    (coherent : IsCoherent job.status order.status command.status) where
  due-Together :
      command.status ≡ CommandStatus.created
      → Ensures
          (λ v db'. Together id order.id db')
          (expire_due host (some order) (some job) command db)
  unfolding expire_due
  due-Together created =
      let evidence = may_be_sent (outbox_for_command command.id db) command in
      let (waits, dispatched) =
        created_dispatched job.status order.status command.status coherent created in
      Ensures-gets _ _ db (
        Ensures-bind _ _ db (withdraw-Same (outbox_for_command command.id db) db) λ u db1 same.
          let found1 : find_order order.id db1 ≡ some order = rw same.1 found in
          let works1 : job_for_command id db1 ≡ some job = rw same.0 works in
          let sent1 : find_command id db1 ≡ some command = rw same.2 sent in
          Ensures-bind _ _ db1
            (expire_job-Ended host id order job command db1 found1 works1 sent1 own evidence
              dispatched waits)
            λ u2 db2 ended.
              Ensures-bind _ _ db2
                (either_verdict-Together host id order job command db1 found1 works1 sent1 own
                  evidence db2 created ended)
                λ r db3 together. done together)

  unchanged : Together id order.id db
  unchanged = record {
    job = job;
    order_row = order;
    command = command;
    job_found = works;
    order_found = found;
    command_found = sent;
    coherent = coherent;
  }

  current-Together :
      Ensures
        (λ v db'. Together id order.id db')
        (expire_current host (some order) (some job) (some command) db)
  unfolding expire_current
  current-Together = elim (Bool-cases (command.status == CommandStatus.created)) [
    | inr moved ↦ rw moved (done unchanged)
    | inl waiting ↦ rw waiting (
        Ensures-gets _ _ db (elim (Bool-cases (not_due command.expires_at db.clock)) [
          | inl early ↦ rw early (done unchanged)
          | inr due ↦ rw due (
              due-Together
                ((command_status_eq.beq_iff command.status CommandStatus.created).0 waiting))
        ]))
  ]

-- When a command's job, its order and the command are found under the row locks in statuses that
-- belong together, after whatever other transactions did in the meantime: if the expiry returns,
-- the three are still found, in statuses that belong together.
pub expire_order_for_command-Together :
    (host : Host) (wait : Db → Db) (id : ℕ) (db : Db) (located job : Job) (order : Order)
    (command : Command)
    → job_for_command id db ≡ some located
    → find_order located.order_id (wait db) ≡ some order
    → job_for_command id (wait db) ≡ some job
    → find_command id (wait db) ≡ some command
    → IsCoherent job.status order.status command.status
    → Ensures (λ v db'. Together id order.id db') (expire_order_for_command host wait id db)
unfolding expire_order_for_command
expire_order_for_command-Together host wait id db located job order command at found works sent c =
    let k = find_id-key order_id located.order_id (wait db).orders order found in
    Ensures-gets _ _ db (
      rw at (
        Ensures-modify _ _ db (
          Ensures-gets _ _ (wait db) (
            rw found (
              Ensures-gets _ _ (wait db) (
                rw works (
                  Ensures-gets _ _ (wait db) (
                    rw sent (
                      current-Together host id order job command (wait db)
                        (subst (λ k. find_order k (wait db) ≡ some order) (sym k) found) works sent
                        (find_id-key command_id id (wait db).commands command sent) c)))))))))
