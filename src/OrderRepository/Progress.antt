-- ===== src/OrderRepository/Progress.antt =====
-- app/repositories/orders.py: what the events of a device write to a production job.
use coffee_cloud_mvp.Base.{
  ℕ, ◌+◌, max, false, ◌&&◌, Option, none, some, [], ◌∷◌, String, Json, Decimal, if◌then◌else◌, ◌==◌,
  nat_eq, string_eq, contains, coalesce, find,
}
use coffee_cloud_mvp.ProductionState.Jobs.{JobStatus, job_status_eq, JobStatus-discrete}
use coffee_cloud_mvp.Store.{Db, Job, Action, modify}
use coffee_cloud_mvp.OrderRepository.Jobs.{set_jobs}

-- `job_for_task`: the task's column is unique.
abbrev pub job_for_task : ℕ → String → Db → Option Job
job_for_task terminal task db = find (λ j. j.terminal_id == terminal && j.task_id == task) db.jobs

abbrev or_value : Decimal → Option Decimal → Decimal
or_value old none = old
or_value old (some d) = d

-- `greatest(column, coalesce(%s, column))`
abbrev pub greatest : ℕ → Option ℕ → ℕ
greatest old none = old
greatest old (some n) = max old n

-- The values that an event reports, `none` for null.
pub record Metrics : Type 0 where
  pub progress : Decimal
  pub step_progress : Decimal
  pub planned : Option Decimal
  pub elapsed : Option Decimal
  pub remaining : Option Decimal
  pub device_revision : Option ℕ
  pub attempt : Option ℕ

-- `update_job_progress`
abbrev pub progressed_job : Metrics → Option String → Option String → ℕ → Job → Job
progressed_job m step_id step_name at j = record j {
  progress = m.progress;
  step_progress = m.step_progress;
  current_step_id = coalesce step_id j.current_step_id;
  current_step_name = coalesce step_name j.current_step_name;
  elapsed_seconds = or_value j.elapsed_seconds m.elapsed;
  remaining_seconds = coalesce m.remaining j.remaining_seconds;
  last_device_revision = greatest j.last_device_revision m.device_revision;
  execution_attempt = greatest j.execution_attempt m.attempt;
  revision = j.revision + 1;
  updated_at = at;
}

abbrev pub update_job_progress : ℕ → Metrics → Option String → Option String → Action (Unit {0})
update_job_progress id m step_id step_name =
    modify λ db. set_jobs id (progressed_job m step_id step_name db.clock) db

abbrev or_steps : Json → Option Json → Json
or_steps old none = old
or_steps old (some steps) = steps

-- `case when %s in ('EXECUTING','SUCCEEDED') then null else coalesce(%s, failure_json) end`
unfoldable pub kept_failure : JobStatus → Option Json → Option Json → Option Json
unfolding JobStatus-discrete
kept_failure status failure old =
    if contains status (JobStatus.executing ∷ JobStatus.succeeded ∷ [])
    then none
    else coalesce failure old

-- `update_job_terminal`; the three times are accepted, started and completed.
abbrev pub advanced_job :
    JobStatus → Metrics → Option Json → Option Json → Option ℕ × Option ℕ × Option ℕ → ℕ → Job → Job
advanced_job status m steps failure times at j = record j {
  status = status;
  progress = m.progress;
  step_progress = m.step_progress;
  planned_duration_seconds = coalesce m.planned j.planned_duration_seconds;
  step_durations = or_steps j.step_durations steps;
  failure_json = kept_failure status failure j.failure_json;
  elapsed_seconds = or_value j.elapsed_seconds m.elapsed;
  remaining_seconds = coalesce m.remaining j.remaining_seconds;
  last_device_revision = greatest j.last_device_revision m.device_revision;
  execution_attempt = greatest j.execution_attempt m.attempt;
  revision = j.revision + 1;
  accepted_at = times.0;
  started_at = times.1;
  completed_at = times.2;
  updated_at = at;
}

abbrev pub update_job_terminal :
    ℕ
    → JobStatus
    → Metrics
    → Option Json
    → Option Json
    → Option ℕ × Option ℕ × Option ℕ
    → Action (Unit {0})
update_job_terminal id status m steps failure times =
    modify λ db. set_jobs id (advanced_job status m steps failure times db.clock) db

abbrev pub cleared_job : Job → Job
cleared_job j = record j { hold_reason = none; manual_review_required = false }

abbrev pub clear_job_hold : ℕ → Action (Unit {0})
clear_job_hold id = modify λ db. set_jobs id cleared_job db
