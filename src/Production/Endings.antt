-- ===== src/Production/Endings.antt =====
-- What the writes of `expire_order_for_command` of app/services/production.py do to the rows of
-- a job, its order and its command.
use coffee_cloud_mvp.Base.{
  ℕ, ◌≡◌, refl, true, false, Bool, Option, none, some, String, Json, Bool-cases, inl, inr, ◌==◌,
  nat_eq, ap, ◌∙◌, if◌then◌else◌,
}
use coffee_cloud_mvp.Base.Rows.{find_id-update_self, find-update_self}
use coffee_cloud_mvp.CommandState.{CommandStatus, command_status_eq, decide_transition}
use coffee_cloud_mvp.ProductionState.Orders.{
  OrderStatus, OrderStatus-discrete, order_status_eq, order_transition_allowed,
}
use coffee_cloud_mvp.ProductionState.Jobs.{JobStatus, job_status_eq}
use coffee_cloud_mvp.Store.{
  Db, Order, Job, Command, CommandOutbox, Host, ◌>>=◌, pure, gets, Ensures, done, Ensures-bind,
  Ensures-gets, Ensures-modify, Ensures-weaken, or_raise-Ensures,
}
use coffee_cloud_mvp.OrderRepository.{
  order_id, find_order, moved_order, update_transition_state, set_orders,
}
use coffee_cloud_mvp.OrderRepository.Jobs.{
  job_id, is_of_command, job_for_command, set_jobs, expired_job, held_job,
}
use coffee_cloud_mvp.CommandRepository.{
  command_id, find_command, moved_command, transition_command_row, terminalize_outbox,
}
use coffee_cloud_mvp.Transitions.Orders.{apply_transition, transition_order}
use coffee_cloud_mvp.Production.Commands.{transition_command}
use coffee_cloud_mvp.Production.Frames.{Kept, ensure_automatic_refund_intent-Kept}
use coffee_cloud_mvp.Production.Expiry.{
  is_claimed, withdraw, hold_sent, paying, has_refundable, refund_paying, expire_unsent,
  expiry_failure,
}

-- The order's row moved to the target; jobs and commands are the same.
abbrev pub Reached : ℕ → OrderStatus → Db → Db → Type 0
Reached id target db db' =
    (db'.jobs ≡ db.jobs)
    × (db'.commands ≡ db.commands)
    × (o : Order) × (find_order id db' ≡ some o)
    × (o.status ≡ target)

update_transition_state-Reached :
    (id : ℕ) (target : OrderStatus) (started completed cancelled : Option ℕ) (db : Db) (x : Order)
    → find_order id db ≡ some x
    → Ensures
        (λ o db'. Reached id target db db')
        (update_transition_state id target started completed cancelled db)
unfolding update_transition_state
update_transition_state-Reached id target started completed cancelled db x found =
    let here =
      find_id-update_self order_id (moved_order target started completed cancelled db.clock)
        (λ o. refl) id db.orders x found in
    Ensures-modify _ _ db
      (Ensures-gets _ _ _ (or_raise-Ensures _ _ _ λ o e. (refl, refl, _, here, refl)))

pub transition_order-Reached :
    (order : Order) (target : OrderStatus) (actor : String) (reason : Option String)
    (payload : Option Json) (db : Db) (x : Order)
    → find_order order.id db ≡ some x
    → (order.status == target) ≡ false
    → order_transition_allowed order.status target ≡ true
    → Ensures
        (λ o db'. Reached order.id target db db')
        (transition_order order target actor reason payload db)
unfolding transition_order apply_transition
transition_order-Reached order target actor reason payload db x found moves allowed =
    rw (moves, allowed)
      (Ensures-gets _ _ db (
        Ensures-gets _ _ db (
          Ensures-bind _ _ db (update_transition_state-Reached order.id target _ _ _ db x found)
            λ o db' reached. Ensures-modify _ _ db' (done reached))))

-- The command's row moved to the target; jobs and orders are the same.
abbrev pub Commanded : ℕ → CommandStatus → Db → Db → Type 0
Commanded id target db db' =
    (db'.jobs ≡ db.jobs)
    × (db'.orders ≡ db.orders)
    × (c : Command) × (find_command id db' ≡ some c)
    × (c.status ≡ target)

pub transition_command-Commanded :
    (command : Command) (target : CommandStatus) (actor : String) (reason : Option String)
    (payload : Option Json) (strict : Bool) (db : Db)
    → find_command command.id db ≡ some command
    → (decide_transition command.status target).duplicate ≡ false
    → (decide_transition command.status target).allowed ≡ true
    → Ensures
        (λ r db'. Commanded command.id target db db')
        (transition_command command target actor reason payload strict db)
unfolding transition_command transition_command_row
transition_command-Commanded command target actor reason payload strict db found fresh allowed =
    let here =
      find_id-update_self command_id (moved_command command target payload db.clock) (λ c. refl)
        command.id db.commands command found in
    rw (fresh, allowed)
      (Ensures-bind {R = λ c db'. Commanded command.id target db db'} _ _ db
        (Ensures-modify _ _ db
          (Ensures-gets _ _ _ (or_raise-Ensures _ _ _ λ c e. (refl, refl, _, here, refl))))
        λ c db' h. done h)

-- The job's row and the order's row have the given statuses; commands are the same.
abbrev pub Ended : ℕ → ℕ → JobStatus → OrderStatus → Db → Db → Type 0
Ended id order js os db db' =
    (db'.commands ≡ db.commands)
    × ((j : Job) × (job_for_command id db' ≡ some j) × (j.status ≡ js))
    × (o : Order) × (find_order order db' ≡ some o)
    × (o.status ≡ os)

Ended-Kept :
    {A : Type 0} (id order : ℕ) (js : JobStatus) (os : OrderStatus) (db db1 db2 : Db) (a : A)
    → Ended id order js os db db1
    → Kept db1 a db2
    → Ended id order js os db db2
Ended-Kept id order js os db db1 db2 a ended kept =
    let (c, (j, jf, jst), o, of, ost) = ended in
    let (o', of', ost') = kept.2 order o of in
    (kept.1 ∙ c, (j, rw kept.0 jf, jst), o', of', ost' ∙ ost)

pub withdraw-Same :
    (outbox : Option CommandOutbox) (db : Db)
    → Ensures
        (λ u db'. (db'.jobs ≡ db.jobs) × (db'.orders ≡ db.orders) × (db'.commands ≡ db.commands))
        (withdraw outbox db)
unfolding withdraw terminalize_outbox
withdraw-Same none db = done (refl, refl, refl)
withdraw-Same (some outbox) db = elim (Bool-cases (is_claimed (some outbox))) [
  | inl claimed ↦ rw claimed (done (refl, refl, refl))
  | inr fresh ↦ rw fresh (done (refl, refl, refl))
]

-- A dispatched job with its order.
module _ (id : ℕ) (order : Order) (job : Job) (command : Command) (db : Db)
    (found : find_order order.id db ≡ some order) (works : job_for_command id db ≡ some job)
    (dispatched : order.status ≡ OrderStatus.dispatched) where
  job_updated :
      (f : Job → Job)
      → ((j : Job) → (f j).command_id ≡ j.command_id)
      → job_for_command id (set_jobs job.id f db) ≡ some (f job)
  job_updated f keeps =
      find-update_self job_id (λ j. is_of_command id j.command_id) f
        (λ j. ap (is_of_command id) (keeps j)) db.jobs job works

  order_updated :
      (f : Order → Order)
      → ((o : Order) → (f o).id ≡ o.id)
      → find_order order.id (set_orders order.id f db) ≡ some (f order)
  order_updated f keeps = find_id-update_self order_id f keeps order.id db.orders order found

  -- The tables after the job and the failure columns of the order are written.
  abbrev ending : (Job → Job) → String → Db
  ending f message =
      set_orders order.id
        (λ o. record o {
          failure_code = some "COMMAND_EXPIRED";
          failure_message = some message;
          updated_at = db.clock;
        })
        (set_jobs job.id f db)

  -- The order's transition after these writes.
  ending-Ended :
      (f : Job → Job) (message : String) (target : OrderStatus) (actor : String)
      (reason : Option String) (payload : Option Json)
      → ((j : Job) → (f j).command_id ≡ j.command_id)
      → (order.status == target) ≡ false
      → order_transition_allowed order.status target ≡ true
      → Ensures
          (λ o db'. Ended id order.id (f job).status target db db')
          (transition_order order target actor reason payload (ending f message))
  ending-Ended f message target actor reason payload keeps moves allowed =
      Ensures-weaken
        (transition_order-Reached order target actor reason payload (ending f message) _
          (order_updated _ (λ o. refl)) moves allowed)
        λ o db' r. (r.1, (f job, rw r.0 (job_updated f keeps), refl), r.2, r.3, r.4)

  pub hold_sent-Ended :
      Ensures
        (λ u db'. Ended id order.id JobStatus.hold OrderStatus.hold db db')
        (hold_sent order job command db)
  unfolding hold_sent order_transition_allowed OrderStatus-discrete
  hold_sent-Ended = Ensures-modify _ _ db (
      Ensures-modify _ _ _ (
        Ensures-bind _ _ _
          (ending-Ended
            (held_job "COMMAND_EXPIRED_AFTER_DELIVERY" (some (expiry_failure command)) db.clock) _
            OrderStatus.hold _ _ _ (λ j. refl) (rw dispatched refl) (rw dispatched refl))
          λ o db' ended. done ended))

  pub expire_unsent-Ended :
      (host : Host)
      → Ensures
          (λ u db'. Ended id order.id JobStatus.expired OrderStatus.expired db db')
          (expire_unsent host order job command db)
  unfolding expire_unsent refund_paying order_transition_allowed OrderStatus-discrete
  expire_unsent-Ended host = Ensures-modify _ _ db (
      Ensures-modify _ _ _ (
        Ensures-bind _ _ _
          (ending-Ended (expired_job (expiry_failure command) db.clock) _ OrderStatus.expired _ _ _
            (λ j. refl) (rw dispatched refl) (rw dispatched refl))
          λ o db1 ended. refund db1 ended))
    where
      Done : Unit {0} → Db → Type 0
      Done u db' = Ended id order.id JobStatus.expired OrderStatus.expired db db'

      pay :
          (primary : Option ℕ) (db1 : Db)
          → Done tt db1
          → Ensures Done (refund_paying host order primary db1)
      pay none db1 e = done e
      pay (some primary) db1 e =
          Ensures-bind _ _ db1 (ensure_automatic_refund_intent-Kept host primary _ _ _ db1)
            λ i db2 kept.
              done
                (Ended-Kept id order.id JobStatus.expired OrderStatus.expired db db1 db2 i e kept)

      refund :
          (db1 : Db)
          → Done tt db1
          → Ensures Done (
              (if has_refundable order.payment_status
                  then (gets (paying order) >>= λ primary. refund_paying host order primary)
                  else pure tt)
                db1)
      refund db1 e = elim (Bool-cases (has_refundable order.payment_status)) [
        | inl paid ↦ rw paid (Ensures-gets _ _ db1 (pay (paying order db1) db1 e))
        | inr free ↦ rw free (done e)
      ]
