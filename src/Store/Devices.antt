-- ===== src/Store/Devices.antt =====
-- The rows of app/database.py for a terminal, its pickup slot and its request to dispatch.
-- The columns of a terminal that no modelled service reads are left out.
use coffee_cloud_mvp.Base.{ℕ, Option, String, Json}

pub record Terminal : Type 0 where
  pub id : ℕ
  pub device_id : String
  pub lifecycle_status : String
  pub connection_status : String
  pub last_heartbeat_at : Option ℕ
  pub reported_status : Json

-- `terminal_dispatch_request.status`
pub data RequestStatus : Type 0 where
  pending processing retry : RequestStatus

pub record DispatchRequest : Type 0 where
  pub terminal_id : ℕ
  pub reason : String
  pub status : RequestStatus
  pub requested_at : ℕ
  pub revision : ℕ
  pub attempt_count : ℕ
  pub next_attempt_at : ℕ
  pub locked_by : Option String
  pub locked_until : Option ℕ
  pub last_error : Option String

-- `terminal_pickup_slot.state`
pub data PickupState : Type 0 where
  empty occupied needs_check : PickupState

pub record PickupSlot : Type 0 where
  pub terminal_id : ℕ
  pub revision : ℕ
  pub state : PickupState
  pub task_id : String
