-- ===== src/Store/Production.antt =====
-- The rows of app/database.py for production jobs and device commands. A double is the decimal
-- that it stands for.
use coffee_cloud_mvp.Base.{ℕ, Bool, Option, String, Json, Decimal}
use coffee_cloud_mvp.CommandState.{CommandStatus}
use coffee_cloud_mvp.ProductionState.Jobs.{JobStatus}

pub record Job : Type 0 where
  pub id : ℕ
  pub task_id : String
  pub order_id : ℕ
  pub terminal_id : ℕ
  pub command_id : Option ℕ
  pub status : JobStatus
  pub revision : ℕ
  pub progress : Decimal
  pub step_progress : Decimal
  pub current_step_id : Option String
  pub current_step_name : Option String
  pub planned_duration_seconds : Option Decimal
  pub step_durations : Json
  pub elapsed_seconds : Decimal
  pub remaining_seconds : Option Decimal
  pub last_device_revision : ℕ
  pub execution_attempt : ℕ
  pub failure_json : Option Json
  pub hold_reason : Option String
  pub manual_review_required : Bool
  pub created_at : ℕ
  pub updated_at : ℕ
  pub accepted_at : Option ℕ
  pub started_at : Option ℕ
  pub completed_at : Option ℕ

pub record Command : Type 0 where
  pub id : ℕ
  pub terminal_id : ℕ
  pub message_id : String
  pub command_type : String
  pub payload_json : Json
  pub idempotency_key : Option String
  pub payload_digest : Option String
  pub status : CommandStatus
  pub revision : ℕ
  pub created_at : ℕ
  pub expires_at : Option ℕ
  pub published_at : Option ℕ
  pub delivered_at : Option ℕ
  pub acked_at : Option ℕ
  pub executing_at : Option ℕ
  pub completed_at : Option ℕ
  pub last_transition_at : ℕ
  pub result_json : Option Json

-- `command_outbox.status`
pub data OutboxStatus : Type 0 where
  pending publishing retry published expired cancelled : OutboxStatus

pub record CommandOutbox : Type 0 where
  pub id : ℕ
  pub command_id : ℕ
  pub terminal_id : ℕ
  pub topic : String
  pub envelope_json : Json
  pub status : OutboxStatus
  pub attempt_count : ℕ
  pub next_attempt_at : ℕ
  pub locked_by : Option String
  pub locked_until : Option ℕ
  pub published_at : Option ℕ
  pub last_error : Option String
  pub created_at : ℕ

pub record CommandTransition : Type 0 where
  pub command_id : ℕ
  pub revision : ℕ
  pub from_status : Option CommandStatus
  pub to_status : CommandStatus
  pub actor : String
  pub reason : Option String
  pub payload_json : Option Json
