-- ===== src/DeviceEvents/Replies.antt =====
-- app/services/production.py: the types of events, and the answers of `reconcile_device_event`.
use coffee_cloud_mvp.Base.{ℕ, Bool, Option, String}
use coffee_cloud_mvp.CommandState.{CommandStatus}
use coffee_cloud_mvp.ProductionState.Orders.{OrderStatus}
use coffee_cloud_mvp.ProductionState.Jobs.{JobEvent, JobReason}
use coffee_cloud_mvp.Store.{Command}

-- `event_type`, with the keys of `EVENT_TARGETS` as job events.
pub data EventType : Type 0 where
  task : JobEvent → EventType
  step_started step_completed task_progress other : EventType

abbrev pub event_text : JobEvent → String
event_text JobEvent.acknowledged = "task.acknowledged"
event_text JobEvent.started = "task.started"
event_text JobEvent.paused = "task.paused"
event_text JobEvent.resumed = "task.resumed"
event_text JobEvent.retry_wait = "task.retry_wait"
event_text JobEvent.retry = "task.retry"
event_text JobEvent.recovered = "task.recovered"
event_text JobEvent.succeeded = "task.succeeded"
event_text JobEvent.failed = "task.failed"
event_text JobEvent.rejected = "task.rejected"
event_text JobEvent.cancelled = "task.cancelled"

-- `f"order-{order_status.lower()}"` of a terminal order status.
abbrev pub dispatch_reason : OrderStatus → String
dispatch_reason OrderStatus.ready = "order-ready"
dispatch_reason OrderStatus.failed = "order-failed"
dispatch_reason OrderStatus.cancelled = "order-cancelled"
dispatch_reason OrderStatus.expired = "order-expired"
dispatch_reason OrderStatus.refunded = "order-refunded"
dispatch_reason _ = "order"

-- `commandTransition`
pub record CommandReply : Type 0 where
  pub message_id : String
  pub status : CommandStatus
  pub revision : ℕ
  pub duplicate : Bool

pub data IgnoredReason : Type 0 where
  stale_attempt final_state stale_step illegal_coordinated_transition : IgnoredReason
  decided : Option JobReason → IgnoredReason  -- `none` is DUPLICATE

pub data EventReply : Type 0 where
  ephemeral_progress ignored_recovery not_dispatched held : EventReply
  standalone : CommandReply → EventReply
  ignored : ℕ → OrderStatus → IgnoredReason → CommandReply → EventReply
  progressed : ℕ → EventReply
  applied : ℕ → OrderStatus → CommandReply → EventReply

abbrev pub reply_of : Command → Bool → CommandReply
reply_of command duplicate = record {
  message_id = command.message_id;
  status = command.status;
  revision = command.revision;
  duplicate = duplicate;
}
