-- ===== src/OrderRepository/Jobs.antt =====
-- app/repositories/orders.py: the statements of `OrderRepository` on production jobs.
use coffee_cloud_mvp.Base.{
  ℕ, ◌+◌, true, false, Bool, Option, none, some, String, Json, ◌==◌, nat_eq, coalesce, find,
  update_id,
}
use coffee_cloud_mvp.ProductionState.Jobs.{JobStatus}
use coffee_cloud_mvp.Store.{Db, Job, Action, modify}

abbrev pub job_id : Job → ℕ
job_id j = j.id

-- `command_id=%s`, which no row without a command meets.
abbrev pub is_of_command : ℕ → Option ℕ → Bool
is_of_command id none = false
is_of_command id (some c) = c == id

-- The column is unique.
abbrev pub job_for_command : ℕ → Db → Option Job
job_for_command id db = find (λ j. is_of_command id j.command_id) db.jobs

abbrev pub set_jobs : ℕ → (Job → Job) → Db → Db
set_jobs id f db = record db { jobs = update_id job_id id f db.jobs }

abbrev pub expired_job : Json → ℕ → Job → Job
expired_job failure at j = record j {
  status = JobStatus.expired;
  revision = j.revision + 1;
  failure_json = some failure;
  completed_at = some at;
  updated_at = at;
}

abbrev pub update_job_expired : ℕ → Json → Action (Unit {0})
update_job_expired id failure = modify λ db. set_jobs id (expired_job failure db.clock) db

abbrev pub held_job : String → Option Json → ℕ → Job → Job
held_job hold_reason failure at j = record j {
  status = JobStatus.hold;
  hold_reason = some hold_reason;
  manual_review_required = true;
  failure_json = coalesce failure j.failure_json;
  revision = j.revision + 1;
  updated_at = at;
}

abbrev pub update_job_hold : ℕ → String → Option Json → Action (Unit {0})
update_job_hold id hold_reason failure =
    modify λ db. set_jobs id (held_job hold_reason failure db.clock) db
