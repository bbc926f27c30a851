-- ===== src/OrderRepository/Queue.antt =====
-- app/repositories/orders.py and app/repositories/pickup.py: what the dispatch of the next
-- queued job reads and writes.
use coffee_cloud_mvp.Base.{
  ℕ, ◌+◌, true, false, Bool, ◌&&◌, ◌||◌, Option, none, some, ◌==◌, nat_eq, ltb, leb, contains, any,
  find_id, select, sort_by, first,
}
use coffee_cloud_mvp.ProductionState.Orders.{OrderStatus, order_status_eq}
use coffee_cloud_mvp.ProductionState.Jobs.{
  JobStatus, job_status_eq, JobStatus-discrete, active_jobs,
}
use coffee_cloud_mvp.Store.{Db, Job, Order, Terminal, PickupSlot, PickupState, Action, modify}
use coffee_cloud_mvp.OrderRepository.{find_order}
use coffee_cloud_mvp.OrderRepository.Jobs.{job_id, set_jobs}

abbrev terminal_key : Terminal → ℕ
terminal_key t = t.id

-- `terminal_for_update`
abbrev pub find_terminal : ℕ → Db → Option Terminal
find_terminal id db = find_id terminal_key id db.terminals

unfoldable pub is_active : JobStatus → Bool
unfolding JobStatus-discrete
is_active status = contains status active_jobs

abbrev pub active_job_exists : ℕ → Db → Bool
active_job_exists terminal db = any (λ j. j.terminal_id == terminal && is_active j.status) db.jobs

abbrev pub has_status : OrderStatus → Option Order → Bool
has_status status none = false
has_status status (some order) = order.status == status

-- `order by j.created_at, j.id`
abbrev pub is_earlier_job : Job → Job → Bool
is_earlier_job a b =
    ltb a.created_at b.created_at || (a.created_at == b.created_at && leb a.id b.id)

abbrev pub next_queued_job : ℕ → Db → Option Job
next_queued_job terminal db = first (
    sort_by is_earlier_job (
      select
        (λ j.
          j.terminal_id == terminal
          && j.status == JobStatus.queued
          && has_status OrderStatus.queued (find_order j.order_id db))
        db.jobs))

abbrev pub lock_job : ℕ → Db → Option Job
lock_job id db = find_id job_id id db.jobs

abbrev pub linked_job : ℕ → ℕ → Job → Job
linked_job command at j = record j {
  command_id = some command;
  status = JobStatus.dispatched;
  revision = j.revision + 1;
  updated_at = at;
}

abbrev pub link_command : ℕ → ℕ → Action (Unit {0})
link_command id command = modify λ db. set_jobs id (linked_job command db.clock) db

abbrev slot_key : PickupSlot → ℕ
slot_key s = s.terminal_id

abbrev is_taken : Option PickupSlot → Bool
is_taken none = false
is_taken (some slot) = elim slot.state [ PickupState.empty ↦ false | _ ↦ true ]

-- `PickupRepository.blocked`
unfoldable pub pickup_blocked : ℕ → Db → Bool
pickup_blocked terminal db = is_taken (find_id slot_key terminal db.pickup_slots)
