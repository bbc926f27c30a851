-- ===== src/Dispatch/Batch.antt =====
-- app/services/background_worker.py: `process_dispatch_batch`. `text e` is `str(exc)`, `wait`
-- what other transactions commit while a dispatch waits for its row locks, and `later` what they
-- commit between the rollback of a dispatch and the transaction that defers its request.
use coffee_cloud_mvp.Base.{
  ℕ, ◌+◌, zero, suc, max, min, Bool, ◌&&◌, Option, none, some, String, if◌then◌else◌, is_some,
}
use coffee_cloud_mvp.Store.{Db, DispatchRequest, Host, Error, Action, Result, ok, err, ◌>>=◌, gets}
use coffee_cloud_mvp.OrderRepository.Queue.{next_queued_job}
use coffee_cloud_mvp.DispatchRepository.{claim_request, complete_request, retry_request}
use coffee_cloud_mvp.Dispatch.Queue.{after}
use coffee_cloud_mvp.Dispatch.Next.{
  DispatchReason, DispatchResult, is_retryable, dispatch_next_order_result,
}

-- `outcome.reason`
abbrev pub reason_text : DispatchReason → String
reason_text DispatchReason.device_missing = "DEVICE_MISSING"
reason_text DispatchReason.device_disabled = "DEVICE_DISABLED"
reason_text DispatchReason.waiting_heartbeat = "WAITING_HEARTBEAT"
reason_text DispatchReason.active_job = "ACTIVE_JOB"
reason_text DispatchReason.pickup_blocked_by = "PICKUP_BLOCKED"
reason_text DispatchReason.device_busy = "DEVICE_BUSY"
reason_text DispatchReason.no_orders = "NO_ORDERS"
reason_text DispatchReason.queue_changed = "QUEUE_CHANGED"
reason_text DispatchReason.dispatched = "DISPATCHED"

-- `outcome.retryable and ...next_queued_job(...)`
abbrev pub must_retry : ℕ → DispatchResult → Db → Bool
must_retry terminal outcome db =
    is_retryable outcome.reason && is_some (next_queued_job terminal db)

module _ (host : Host) (wait later : Db → Db) (threshold : ℕ) (text : Error → String) where
  unfoldable pub settle_request : DispatchRequest → DispatchResult → Action (Unit {0})
  settle_request request outcome = do
    deferred ← gets (must_retry request.terminal_id outcome)
    if deferred
        then retry_request host request.terminal_id request.revision (reason_text outcome.reason)
        else complete_request request.terminal_id request.revision

  -- The transaction of one request, and the one that follows an exception: the rollback drops the
  -- dispatch's own writes and keeps what the others committed. The number is what `processed`
  -- counts.
  unfoldable pub process_request : DispatchRequest → Db → ℕ × Db
  process_request request db =
      elim ((dispatch_next_order_result host wait threshold request.terminal_id
          >>= settle_request request)
        db) [
          | ok r ↦ (1, r.1)
          | err e ↦ (
            0,
            after (retry_request host request.terminal_id request.revision (text e))
                (later (wait db)),
          )
        ]

  abbrev claimed_and_after : Result (Option DispatchRequest × Db) → Option (DispatchRequest × Db)
  claimed_and_after (ok (some request, db)) = some (request, db)
  claimed_and_after _ = none

  -- The passes of the loop: the number of processed requests, and the tables.
  unfoldable pub process_passes : (ℕ → Bool) → String → ℕ → Db → ℕ × Db
  process_passes free worker zero db = (0, db)
  process_passes free worker (suc passes) db =
      elim (claimed_and_after (claim_request free worker db)) [
        | none ↦ (0, db)
        | some (request, claimed) ↦
            let pass = process_request request claimed in
            let rest = process_passes free worker passes pass.1 in (pass.0 + rest.0, rest.1)
      ]

  abbrev pub process_dispatch_batch : (ℕ → Bool) → String → ℕ → Db → ℕ × Db
  process_dispatch_batch free worker limit db =
      process_passes free worker (max 1 (min limit 200)) db
