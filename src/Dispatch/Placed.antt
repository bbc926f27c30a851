-- ===== src/Dispatch/Placed.antt =====
-- What `dispatch_next_order_result` of app/services/production.py writes for the job that it
-- dispatches.
use coffee_cloud_mvp.Base.{
  ℕ, ◌≡◌, refl, sym, ap, subst, find_id, ◌∷◌, ◌∙◌, true, Option, some, String, Json, ◌==◌, nat_eq,
  nat_beq_iff, Bool-cases, inl, inr, suc, update_id, is_some, is_truthy, get_key, Fields,
}
use coffee_cloud_mvp.CommandState.{CommandStatus}
use coffee_cloud_mvp.ProductionState.Orders.{
  OrderStatus, OrderStatus-discrete, order_status_eq, order_transition_allowed,
}
use coffee_cloud_mvp.ProductionState.Jobs.{job_status_eq}
use coffee_cloud_mvp.Store.{
  Db, Order, Job, Command, Terminal, Host, Action, ◌>>=◌, Ensures, done, Ensures-bind, Ensures-gets,
  Ensures-modify, Ensures-guard, Ensures-or_raise, Ensures-both, or_raise-Ensures,
}
use coffee_cloud_mvp.OrderRepository.{find_order, order_id, update_transition_state}
use coffee_cloud_mvp.Transitions.Orders.{transition_order, apply_transition}
use coffee_cloud_mvp.Base.Rows.{find_id-key}
use coffee_cloud_mvp.OrderRepository.Jobs.{job_id}
use coffee_cloud_mvp.OrderRepository.Queue.{linked_job}
use coffee_cloud_mvp.CommandRepository.{find_command, outbox_for_command}
use coffee_cloud_mvp.CommandRepository.Creation.{
  insert_command, new_command, insert_outbox, draw_serial,
}
use coffee_cloud_mvp.Ledger.Creation.{Ensures-draw}
use coffee_cloud_mvp.Production.Endings.{transition_order-Reached}
use coffee_cloud_mvp.Dispatch.Next.{
  DispatchReason, dispatch_job, with_options, customized, dispatch_reread,
}

-- The rows of one dispatched job: its link, its new command with the outbox row, and the order.
pub record Placed (job order : ℕ) (db db' : Db) : Type 0 where
  pub command : ℕ
  pub jobs : db'.jobs ≡ update_id job_id job (linked_job command db.clock) db.jobs
  pub command_row : Command
  pub command_found : find_command command db' ≡ some command_row
  pub command_fresh : command_row.status ≡ CommandStatus.created
  pub order_row : Order
  pub order_found : find_order order db' ≡ some order_row
  pub order_moved : order_row.status ≡ OrderStatus.dispatched
  pub outbox_found : is_some (outbox_for_command command db') ≡ true

-- Jobs, orders and time are the same.
abbrev SameWork : {A : Type 0} → Db → A → Db → Type 0
SameWork db a db' = (db'.jobs ≡ db.jobs) × (db'.orders ≡ db.orders) × (db'.clock ≡ db.clock)

transition_order-SameOutbox :
    (order : Order) (target : OrderStatus) (actor : String) (reason : Option String)
    (payload : Option Json) (db : Db)
    → Ensures
        (λ o db'. db'.command_outbox ≡ db.command_outbox)
        (transition_order order target actor reason payload db)
unfolding transition_order apply_transition update_transition_state
transition_order-SameOutbox order target actor reason payload db =
    elim (Bool-cases (order.status == target)) [
      | inl same ↦ rw same (done refl)
      | inr moves ↦ elim (Bool-cases (order_transition_allowed order.status target)) [
        | inr refused ↦ rw (moves, refused) (done refl)
        | inl allowed ↦
            rw (moves, allowed)
              (Ensures-gets _ _ db (
                Ensures-gets _ _ db (
                  Ensures-bind {R = λ o db'. db'.command_outbox ≡ db.command_outbox} _ _ db
                    (Ensures-modify _ _ db
                      (Ensures-gets _ _ _ (or_raise-Ensures _ _ _ λ o e. refl)))
                    λ o db1 same. Ensures-modify _ _ db1 (done same))))
      ]
    ]

with_options-Same :
    (snapshot : Json) (base : Fields) (db : Db)
    → Ensures (λ f db'. db' ≡ db) (with_options snapshot base db)
unfolding customized
with_options-Same snapshot base db =
    elim (Bool-cases (is_truthy (get_key "compiledRecipeDigest" snapshot))) [
      | inl custom ↦ rw custom (
          Ensures-or_raise _ _ _ db
            λ c e1. Ensures-or_raise _ _ _ db λ r e2. Ensures-or_raise _ _ _ db λ v e3. done refl)
      | inr plain ↦ rw plain (done refl)
    ]

module _ (host : Host) where
  Ensures-draw_serial :
      {B : Type 0} {Q : B → Db → Type 0} (k : ℕ → Action B) (db : Db)
      → Ensures Q (k (host.serial db.drawn) (record db { drawn = suc db.drawn }))
      → Ensures Q ((draw_serial host >>= k) db)
  unfolding ◌>>=◌
  Ensures-draw_serial k db h = h

  insert_command-Created :
      (terminal : ℕ) (message type : String) (payload : Json) (digest : String)
      (expires_at : Option ℕ) (key : Option String) (db : Db)
      → Ensures
          (λ c db'.
            SameWork db c db'
            × (find_command c.id db' ≡ some c)
            × (c.status ≡ CommandStatus.created))
          (insert_command host terminal message type payload digest expires_at key db)
  unfolding insert_command
  insert_command-Created terminal message type payload digest expires_at key db =
      Ensures-gets _ _ db (
        Ensures-guard _ _ _ db λ fresh. Ensures-draw_serial _ db (
          Ensures-gets _ _ _
            (Ensures-modify _ _ _ (done ((refl, refl, refl), own (host.serial db.drawn), refl)))))
    where
      own :
          (id : ℕ)
          → find_command id (record db {
            commands =
                new_command host id terminal message type payload digest expires_at key db.clock
                ∷ db.commands;
          })
            ≡ some
                (new_command host id terminal message type payload digest expires_at key db.clock)
      own id = rw ((nat_beq_iff id id).1 refl) refl

  insert_outbox-Queued :
      (command terminal : ℕ) (topic : String) (envelope : Json) (db : Db)
      → Ensures
          (λ u db'.
            SameWork db u db'
            × (db'.commands ≡ db.commands)
            × (is_some (outbox_for_command command db') ≡ true))
          (insert_outbox host command terminal topic envelope db)
  unfolding insert_outbox ◌>>=◌
  insert_outbox-Queued command terminal topic envelope db =
      elim (Bool-cases (is_some (outbox_for_command command db))) [
        | inl there ↦ rw there (done ((refl, refl, refl), refl, there))
        | inr absent ↦
            rw absent
              (done ((refl, refl, refl), refl, rw ((nat_beq_iff command command).1 refl) refl))
      ]

  module _ (id : ℕ) (terminal : Terminal) (job : Job) (order : Order) (db : Db)
      (found : find_order job.order_id db ≡ some order)
      (queued : order.status ≡ OrderStatus.queued) where
    own : order.id ≡ job.order_id
    own = find_id-key order_id job.order_id db.orders order found

    at_own : find_order order.id db ≡ some order
    at_own = subst (λ k. find_order k db ≡ some order) (sym own) found

    -- The order's transition, the last statement.
    reread-Placed :
        (message : String) (command : ℕ) (row : Command) (db1 : Db)
        → db1.jobs ≡ update_id job_id job.id (linked_job command db.clock) db.jobs
        → db1.orders ≡ db.orders
        → find_command command db1 ≡ some row
        → row.status ≡ CommandStatus.created
        → is_some (outbox_for_command command db1) ≡ true
        → Ensures
            (λ u db'. Placed job.id job.order_id db db')
            (dispatch_reread host message (find_order job.order_id db1) db1)
    unfolding order_transition_allowed OrderStatus-discrete
    reread-Placed message command row db1 jobs orders sent created boxed =
        rw (ap (find_id order_id job.order_id) orders ∙ found) (
          Ensures-bind _ _ db1
            (Ensures-both
              (transition_order-Reached order OrderStatus.dispatched _ _ _ db1 order
                (ap (find_id order_id order.id) orders ∙ at_own) (rw queued refl) (rw queued refl))
              (transition_order-SameOutbox order OrderStatus.dispatched _ _ _ db1))
            λ o db2 h. done (record {
              command = command;
              jobs = h.0.0 ∙ jobs;
              command_row = row;
              command_found = rw h.0.1 sent;
              command_fresh = created;
              order_row = h.0.2;
              order_found = subst (λ k. find_order k db2 ≡ some h.0.2) own h.0.3;
              order_moved = h.0.4;
              outbox_found = rw h.1 boxed;
            }))

    pub dispatch_job-Placed :
        Ensures
          (λ r db'. (r.reason ≡ DispatchReason.dispatched) × Placed job.id job.order_id db db')
          (dispatch_job host id terminal job order db)
    unfolding dispatch_job
    dispatch_job-Placed = Ensures-gets _ _ db (
        Ensures-draw host _ db (
          Ensures-bind _ _ _ (with_options-Same order.product_snapshot _ _) λ fields db1 same.
            Ensures-bind _ _ db1 (insert_command-Created id _ _ _ _ _ _ db1) λ row db2 made.
              Ensures-modify _ _ db2 (
                Ensures-bind _ _ _ (insert_outbox-Queued row.id id _ _ _) λ u db3 boxed.
                  Ensures-modify _ _ db3 (
                    Ensures-gets _ _ _ (
                      Ensures-bind _ _ _
                        (reread-Placed _ row.id row _
                          (linked db1 db2 db3 row.id same made.0 boxed.0)
                          (boxed.0.1 ∙ made.0.1 ∙ ap (λ (d : Db). d.orders) same)
                          (rw boxed.1 made.1) made.2 boxed.2)
                        λ u2 db4 placed. done (refl, placed))))))
      where
        linked :
            (db1 db2 db3 : Db) (command : ℕ)
            → db1 ≡ record db { drawn = suc db.drawn }
            → SameWork db1 tt db2
            → SameWork db2 tt db3
            → update_id job_id job.id (linked_job command db3.clock) db3.jobs
              ≡ update_id job_id job.id (linked_job command db.clock) db.jobs
        linked db1 db2 db3 command same made boxed =
            let clock : db3.clock ≡ db.clock = boxed.2 ∙ made.2 ∙ ap (λ (d : Db). d.clock) same in
            let jobs : db3.jobs ≡ db.jobs = boxed.0 ∙ made.0 ∙ ap (λ (d : Db). d.jobs) same in
            rw (clock, jobs) refl
