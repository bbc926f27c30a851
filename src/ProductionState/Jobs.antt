-- ===== src/ProductionState/Jobs.antt =====
-- app/production_state.py: the statuses of a production job, `EVENT_TARGETS` and
-- `decide_job_event`.
use coffee_cloud_mvp.Base.{
  Eq, eq_test, eq_test_iff, contains, ◌==◌, ltb, if◌then◌else◌, Bool, true, false, ◌&&◌, Option,
  none, some, ℕ, nat_eq, List, [], ◌∷◌,
}
use coffee_cloud_mvp.CommandState.{CommandStatus}
use coffee_cloud_mvp.ProductionState.Orders.{OrderStatus}

pub data JobStatus : Type 0 where
  queued dispatched accepted executing paused retry_wait hold unknown : JobStatus
  succeeded failed rejected cancelled expired : JobStatus

-- The keys of `EVENT_TARGETS`, without the prefix `task.`.
pub data JobEvent : Type 0 where
  acknowledged started paused resumed retry_wait retry : JobEvent
  recovered succeeded failed rejected cancelled : JobEvent

unfoldable pub JobStatus-discrete : Discrete JobStatus
JobStatus-discrete = hlevel

unfoldable pub JobEvent-discrete : Discrete JobEvent
JobEvent-discrete = hlevel

instance abbrev pub job_status_eq : Eq JobStatus
job_status_eq = record {
  beq = eq_test JobStatus-discrete;
  beq_iff = eq_test_iff JobStatus-discrete;
}

instance abbrev pub job_event_eq : Eq JobEvent
job_event_eq = record { beq = eq_test JobEvent-discrete; beq_iff = eq_test_iff JobEvent-discrete }

abbrev pub final_jobs : List JobStatus
final_jobs =
    JobStatus.succeeded ∷ JobStatus.failed ∷ JobStatus.rejected ∷ JobStatus.cancelled
    ∷ JobStatus.expired ∷ []

abbrev pub active_jobs : List JobStatus
active_jobs =
    JobStatus.dispatched ∷ JobStatus.accepted ∷ JobStatus.executing ∷ JobStatus.paused
    ∷ JobStatus.retry_wait ∷ JobStatus.hold ∷ JobStatus.unknown ∷ []

-- The order, job and command status that an event leads to.
abbrev pub event_targets : JobEvent → OrderStatus × JobStatus × CommandStatus
event_targets JobEvent.acknowledged =
    (OrderStatus.accepted, JobStatus.accepted, CommandStatus.acked)
event_targets JobEvent.started = (OrderStatus.making, JobStatus.executing, CommandStatus.executing)
event_targets JobEvent.paused = (OrderStatus.making, JobStatus.paused, CommandStatus.executing)
event_targets JobEvent.resumed = (OrderStatus.making, JobStatus.executing, CommandStatus.executing)
event_targets JobEvent.retry_wait =
    (OrderStatus.making, JobStatus.retry_wait, CommandStatus.executing)
event_targets JobEvent.retry = (OrderStatus.making, JobStatus.executing, CommandStatus.executing)
event_targets JobEvent.recovered = (OrderStatus.hold, JobStatus.hold, CommandStatus.unknown)
event_targets JobEvent.succeeded = (OrderStatus.ready, JobStatus.succeeded, CommandStatus.succeeded)
event_targets JobEvent.failed = (OrderStatus.failed, JobStatus.failed, CommandStatus.failed)
event_targets JobEvent.rejected = (OrderStatus.failed, JobStatus.rejected, CommandStatus.rejected)
event_targets JobEvent.cancelled =
    (OrderStatus.cancelled, JobStatus.cancelled, CommandStatus.cancelled)

pub data JobReason : Type 0 where
  stale_revision duplicate_revision revision_conflict final_job : JobReason
  manual_review_required not_dispatched illegal_job_transition : JobReason

pub record EventDecision : Type 0 where
  pub allowed : Bool
  pub duplicate : Bool
  pub reason : Option JobReason

abbrev is_none : Option ℕ → Bool
is_none none = true
is_none (some r) = false

-- `revision is not None and revision < last_revision`
abbrev pub is_older : Option ℕ → ℕ → Bool
is_older none last = false
is_older (some r) last = ltb r last

-- `revision is not None and revision == last_revision`
abbrev pub is_same : Option ℕ → ℕ → Bool
is_same none last = false
is_same (some r) last = r == last

-- The if-chain that sets `allowed`, for a job that is not final, held or queued.
event_allowed : JobStatus → JobEvent → JobStatus → Bool
unfolding JobStatus-discrete JobEvent-discrete
event_allowed current event target =
    if contains event (JobEvent.acknowledged ∷ JobEvent.rejected ∷ [])
    then contains current (JobStatus.dispatched ∷ JobStatus.accepted ∷ [])
    else if event == JobEvent.started
    then contains current (JobStatus.dispatched ∷ JobStatus.accepted ∷ JobStatus.executing ∷ [])
    else if event == JobEvent.resumed
    then contains current (JobStatus.paused ∷ JobStatus.executing ∷ [])
    else if event == JobEvent.retry
    then contains current (JobStatus.retry_wait ∷ JobStatus.executing ∷ [])
    else if contains event (JobEvent.paused ∷ JobEvent.retry_wait ∷ [])
    then contains current
        (JobStatus.dispatched ∷ JobStatus.accepted ∷ JobStatus.executing ∷ target ∷ [])
    else contains current active_jobs

unfoldable pub decide_job_event : JobStatus → JobEvent → Option ℕ → ℕ → EventDecision
unfolding event_allowed JobStatus-discrete
decide_job_event current event revision last_revision =
    let target = (event_targets event).1 in
    if is_older revision last_revision
    then record { allowed = false; duplicate = true; reason = some JobReason.stale_revision }
    else if is_same revision last_revision
    then record {
      allowed = false;
      duplicate = current == target;
      reason =
          some (
            if current == target
            then JobReason.duplicate_revision
            else JobReason.revision_conflict);
    }
    else if contains current final_jobs
    then record {
      allowed = false;
      duplicate = current == target;
      reason = some JobReason.final_job;
    }
    else if contains current (JobStatus.hold ∷ JobStatus.unknown ∷ [])
    then record {
      allowed = contains target final_jobs;
      duplicate = false;
      reason = some JobReason.manual_review_required;
    }
    else if current == JobStatus.queued
    then record { allowed = false; duplicate = false; reason = some JobReason.not_dispatched }
    else let allowed = event_allowed current event target in
      record {
        allowed = allowed;
        duplicate = current == target && is_none revision;
        reason = if allowed then none else some JobReason.illegal_job_transition;
      }
