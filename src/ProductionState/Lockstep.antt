-- ===== src/ProductionState/Lockstep.antt =====
-- A job, its order and its command move together: whatever `decide_job_event` allows for the
-- job, the graphs of the order and of the command allow too.
use coffee_cloud_mvp.Base.{ℕ, Option, ◌≡◌, ◌⊎◌, true, false, arith}
use coffee_cloud_mvp.CommandState.{CommandStatus, decide_transition}
use coffee_cloud_mvp.ProductionState.Orders.{OrderStatus, order_transition_allowed}
use coffee_cloud_mvp.ProductionState.Jobs.{
  JobStatus, JobEvent, job_status_eq, event_targets, is_older, is_same, decide_job_event,
}

-- The order and command statuses that belong to a job status, once the job was dispatched.
abbrev pub IsCoherent : JobStatus → OrderStatus → CommandStatus → Type 0
IsCoherent JobStatus.queued o c = ⊥
IsCoherent JobStatus.dispatched o c =
    (o ≡ OrderStatus.dispatched)
    × ((c ≡ CommandStatus.created) ⊎ (c ≡ CommandStatus.delivering) ⊎ (c ≡ CommandStatus.published))
IsCoherent JobStatus.accepted o c = (o ≡ OrderStatus.accepted) × (c ≡ CommandStatus.acked)
IsCoherent JobStatus.executing o c = (o ≡ OrderStatus.making) × (c ≡ CommandStatus.executing)
IsCoherent JobStatus.paused o c = (o ≡ OrderStatus.making) × (c ≡ CommandStatus.executing)
IsCoherent JobStatus.retry_wait o c = (o ≡ OrderStatus.making) × (c ≡ CommandStatus.executing)
IsCoherent JobStatus.hold o c = (o ≡ OrderStatus.hold) × (c ≡ CommandStatus.unknown)
IsCoherent JobStatus.unknown o c = (o ≡ OrderStatus.hold) × (c ≡ CommandStatus.unknown)
IsCoherent JobStatus.succeeded o c = (o ≡ OrderStatus.ready) × (c ≡ CommandStatus.succeeded)
IsCoherent JobStatus.failed o c =
    ((o ≡ OrderStatus.failed) ⊎ (o ≡ OrderStatus.refunded)) × (c ≡ CommandStatus.failed)
IsCoherent JobStatus.rejected o c =
    ((o ≡ OrderStatus.failed) ⊎ (o ≡ OrderStatus.refunded)) × (c ≡ CommandStatus.rejected)
IsCoherent JobStatus.cancelled o c = (o ≡ OrderStatus.cancelled) × (c ≡ CommandStatus.cancelled)
IsCoherent JobStatus.expired o c = (o ≡ OrderStatus.expired) × (c ≡ CommandStatus.expired)

abbrev pub Lockstep : OrderStatus → CommandStatus → OrderStatus × JobStatus × CommandStatus → Type 0
Lockstep o c (o', j', c') =
    (order_transition_allowed o o' ≡ true)
    × ((decide_transition c c').allowed ≡ true)
    × IsCoherent j' o' c'

-- If the job, its order and its command have statuses that belong together and the job event is
-- allowed, then the order graph and the command graph allow the event's targets too, and the
-- three targets belong together again.
pub decide-Lockstep :
    (j : JobStatus) (e : JobEvent) (rev : Option ℕ) (last : ℕ) (o : OrderStatus) (c : CommandStatus)
    → IsCoherent j o c
    → (decide_job_event j e rev last).allowed ≡ true
    → Lockstep o c (event_targets e)
unfolding decide_job_event decide_transition order_transition_allowed
decide-Lockstep JobStatus.queued e rev last o c h a = ground arith
decide-Lockstep _ e rev last o c h a = ground arith

-- A job event whose revision is at or below the last one is not allowed, in any job status.
pub decide-stale :
    (j : JobStatus) (e : JobEvent) (rev : Option ℕ) (last : ℕ)
    → (is_older rev last ≡ true) ⊎ (is_same rev last ≡ true)
    → (decide_job_event j e rev last).allowed ≡ false
unfolding decide_job_event
decide-stale j e rev last h = ground arith
