-- ===== src/Dispatch/Next.antt =====
-- app/services/production.py: `dispatch_next_order_result`, and `terminal_is_online` of
-- app/order_logic.py. The argument `wait` is what other transactions commit before the lock of
-- the order.
use coffee_cloud_mvp.Base.{
  ℕ, ◌+◌, Bool, true, false, not, ◌||◌, Option, none, some, [], ◌∷◌, ◌<>◌, String, Json, Fields,
  if◌then◌else◌, ◌==◌, nat_eq, string_eq, leb, key_of, get_key, is_truthy, texts,
}
use coffee_cloud_mvp.ProductionState.Orders.{OrderStatus, order_status_eq, OrderStatus-discrete}
use coffee_cloud_mvp.ProductionState.Jobs.{JobStatus, job_status_eq, JobStatus-discrete}
use coffee_cloud_mvp.ProductionState.Busy.{device_is_busy}
use coffee_cloud_mvp.Store.{
  Db, Order, Job, Terminal, Host, Action, ◌>>=◌, ◌>>◌, pure, gets, or_raise, modify, now, exception,
}
use coffee_cloud_mvp.OrderRepository.{find_order}
use coffee_cloud_mvp.OrderRepository.Queue.{
  find_terminal, active_job_exists, next_queued_job, lock_job, link_command, pickup_blocked,
}
use coffee_cloud_mvp.CommandRepository.Creation.{
  insert_command, insert_initial_transition, insert_outbox,
}
use coffee_cloud_mvp.Refunds.Intents.{draw}
use coffee_cloud_mvp.Transitions.Orders.{transition_order}

pub data DispatchReason : Type 0 where
  device_missing device_disabled waiting_heartbeat active_job pickup_blocked_by : DispatchReason
  device_busy no_orders queue_changed dispatched : DispatchReason

pub record DispatchResult : Type 0 where
  pub reason : DispatchReason
  pub command : Option Json

-- `DispatchResult.retryable`
abbrev pub is_retryable : DispatchReason → Bool
is_retryable DispatchReason.device_missing = false
is_retryable DispatchReason.no_orders = false
is_retryable DispatchReason.dispatched = false
is_retryable _ = true

abbrev pub refused : DispatchReason → DispatchResult
refused reason = record { reason = reason; command = none }

abbrev seen_since : Option ℕ → ℕ → ℕ → Bool
seen_since none threshold at = false
seen_since (some heartbeat) threshold at = leb at (heartbeat + threshold)

abbrev pub terminal_is_online : Terminal → ℕ → ℕ → Bool
terminal_is_online terminal threshold at =
    if terminal.connection_status == "offline"
    then false
    else seen_since terminal.last_heartbeat_at threshold at

-- The early returns that look at the terminal, in their order.
unfoldable pub blocked_by : ℕ → ℕ → Terminal → Db → Option DispatchReason
blocked_by threshold id terminal db =
    if not (terminal.lifecycle_status == "ACTIVE")
    then some DispatchReason.device_disabled
    else if not (terminal_is_online terminal threshold db.clock)
    then some DispatchReason.waiting_heartbeat
    else if active_job_exists id db
    then some DispatchReason.active_job
    else if pickup_blocked id db
    then some DispatchReason.pickup_blocked_by
    else if device_is_busy terminal.reported_status
    then some DispatchReason.device_busy
    else none

-- `snapshot[key]` for the three keys
unfoldable pub customized : Json → Fields → Action Fields
customized snapshot base = do
  customization ← or_raise (exception "KeyError") (key_of "customization" snapshot)
  recipe ← or_raise (exception "KeyError") (key_of "compiledRecipeDigest" snapshot)
  version ← or_raise (exception "KeyError") (key_of "optionSchemaVersion" snapshot)
  pure (
      Fields.field "customization" customization (
        Fields.field "compiledRecipeDigest" recipe
          (Fields.field "optionSchemaVersion" version base)))

abbrev pub with_options : Json → Fields → Action Fields
with_options snapshot base =
    if is_truthy (get_key "compiledRecipeDigest" snapshot)
    then customized snapshot base
    else pure base

module _ (host : Host) where
  -- The columns of the recipe are read from the locked row: no statement updates them.
  abbrev pub make_drink : String → Job → Order → ℕ → Fields
  make_drink message job order expires_at =
      texts
        (("messageId", message)
          ∷ ("type", "MAKE_DRINK")
          ∷ ("taskId", job.task_id)
          ∷ ("orderId", host.uuid_text job.order_id)
          ∷ ("orderNo", order.order_no)
          ∷ ("recipeId", order.recipe_id)
          ∷ ("recipeVersion", order.recipe_version)
          ∷ ("expiresAt", host.iso expires_at)
          ∷ [])
        Fields.end

  abbrev envelope_of : String → Terminal → ℕ → Json → Json
  envelope_of message terminal at command = Json.object (
      texts
        (("schema", "coffee.mqtt-envelope.v1")
          ∷ ("messageId", message)
          ∷ ("deviceId", terminal.device_id)
          ∷ ("type", "command")
          ∷ ("sentAt", host.iso at)
          ∷ [])
        (Fields.field "payload" command Fields.end))

  abbrev pub dispatch_reread : String → Option Order → Action (Unit {0})
  dispatch_reread message none = pure tt
  dispatch_reread message (some order) = do
    transition_order order OrderStatus.dispatched "order-service" (some "device command created")
        (some (Json.object (Fields.field "messageId" (Json.text message) Fields.end)))
    pure tt

  -- The statements after the last early return.
  unfoldable pub dispatch_job : ℕ → Terminal → Job → Order → Action DispatchResult
  dispatch_job id terminal job order = do
    at ← now
    nonce ← draw host
    let message = "cmd-" <> host.uuid_text nonce
    fields ← with_options order.product_snapshot (make_drink message job order (at + 600))
    let command = Json.object fields
    row ←
        insert_command host id message "MAKE_DRINK" command (host.digest command) (some (at + 600))
          (some ("order:" <> host.uuid_text job.order_id <> ":make"))
    insert_initial_transition host row.id "order-service" "dispatch queued order" command
    insert_outbox host row.id id ("v1/devices/" <> terminal.device_id <> "/down")
        (envelope_of message terminal at command)
    link_command job.id row.id
    reread ← gets (find_order job.order_id)
    dispatch_reread message reread
    pure (record { reason = DispatchReason.dispatched; command = some command })

  -- The order and the job under their locks.
  unfoldable pub dispatch_locked :
      ℕ → Terminal → Job → Option Order → Option Job → Action DispatchResult
  unfolding OrderStatus-discrete JobStatus-discrete
  dispatch_locked id terminal job (some order) (some current) =
      if not (order.status == OrderStatus.queued) || not (current.status == JobStatus.queued)
      then pure (refused DispatchReason.queue_changed)
      else dispatch_job id terminal job order
  dispatch_locked id terminal job _ _ = pure (refused DispatchReason.queue_changed)

  unfoldable pub dispatch_queued : (Db → Db) → ℕ → Terminal → Option Job → Action DispatchResult
  dispatch_queued wait id terminal none = pure (refused DispatchReason.no_orders)
  dispatch_queued wait id terminal (some job) = do
    modify wait
    order ← gets (find_order job.order_id)
    current ← gets (lock_job job.id)
    dispatch_locked id terminal job order current

  abbrev dispatch_unless : (Db → Db) → ℕ → Terminal → Option DispatchReason → Action DispatchResult
  dispatch_unless wait id terminal (some reason) = pure (refused reason)
  dispatch_unless wait id terminal none = do
    job ← gets (next_queued_job id)
    dispatch_queued wait id terminal job

  abbrev dispatch_to : (Db → Db) → ℕ → ℕ → Option Terminal → Action DispatchResult
  dispatch_to wait threshold id none = pure (refused DispatchReason.device_missing)
  dispatch_to wait threshold id (some terminal) = do
    blocked ← gets (blocked_by threshold id terminal)
    dispatch_unless wait id terminal blocked

  unfoldable pub dispatch_next_order_result : (Db → Db) → ℕ → ℕ → Action DispatchResult
  dispatch_next_order_result wait threshold id = do
    terminal ← gets (find_terminal id)
    dispatch_to wait threshold id terminal
