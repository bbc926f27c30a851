-- ===== src/Tests/Dispatching.antt =====
-- The theorems on the dispatch queue and on the dispatch of the next order, in a shop with one
-- queued order.
use coffee_cloud_mvp.Base.{
  ◌≡◌, refl, true, Option, none, some, [], ◌∷◌, List, inl, inr, ◌==◌, nat_eq, Bool-cases, ◌++◌, ◌⊎◌,
  arith,
}
use coffee_cloud_mvp.ProductionState.Orders.{
  OrderStatus, OrderStatus-discrete, order_transition_allowed,
}
use coffee_cloud_mvp.ProductionState.Jobs.{JobStatus, JobStatus-discrete}
use coffee_cloud_mvp.ProductionState.Busy.{device_is_busy}
use coffee_cloud_mvp.Store.{
  Db, Order, Job, DispatchRequest, Result, ok, err, Ensures, ◌>>=◌, or_raise, raise_if,
}
use coffee_cloud_mvp.OrderRepository.{update_transition_state}
use coffee_cloud_mvp.OrderRepository.Queue.{is_active, pickup_blocked}
use coffee_cloud_mvp.CommandRepository.Creation.{insert_command, insert_outbox}
use coffee_cloud_mvp.Transitions.Orders.{transition_order, apply_transition}
use coffee_cloud_mvp.DispatchRepository.{find_request, claimed_request, new_request}
use coffee_cloud_mvp.Dispatch.Queue.{Op, perform_all, wish_all, revision_of}
use coffee_cloud_mvp.Dispatch.Refinement.{perform_all-wish_all}
use coffee_cloud_mvp.Dispatch.Rows.{Queued}
use coffee_cloud_mvp.Dispatch.Retries.{Served, Deferred, process_request-Held}
use coffee_cloud_mvp.Dispatch.Wakeups.{Held, Reopened, raise-Reopened}
use coffee_cloud_mvp.Dispatch.Next.{
  DispatchReason, DispatchResult, blocked_by, dispatch_job, dispatch_locked, dispatch_queued,
  dispatch_next_order_result,
}
use coffee_cloud_mvp.Dispatch.Gates.{Outcome, dispatch_next_order_result-Outcome}
use coffee_cloud_mvp.Dispatch.Single.{OneActive, dispatch_next_order_result-OneActive}
use coffee_cloud_mvp.Tests.Data.{host, db, job, waiting}

abbrev queued_order : Order
queued_order = record waiting { id = 6; order_no = "C6"; status = OrderStatus.queued }

abbrev queued_job : Job
queued_job = record job {
  id = 21;
  task_id = "task6";
  order_id = 6;
  command_id = none;
  status = JobStatus.queued;
}

abbrev shop : Db
shop = record db {
  orders = queued_order ∷ [];
  jobs = queued_job ∷ [];
  commands = [];
  command_outbox = [];
}

shop-OneActive : OneActive shop
unfolding is_active JobStatus-discrete
shop-OneActive terminal = elim (Bool-cases (1 == terminal)) [
  | inl own ↦ rw own (ground arith)
  | inr other ↦ rw other (ground arith)
]

dispatch_next_order_result-Outcome_example :
    Ensures (Outcome (λ d. d) 60 1 shop) (dispatch_next_order_result host (λ d. d) 60 1 shop)
dispatch_next_order_result-Outcome_example =
    dispatch_next_order_result-Outcome (λ d. d) 60 1 shop host

dispatch_next_order_result-OneActive_example :
    Ensures (λ r db'. OneActive db') (dispatch_next_order_result host (λ d. d) 60 1 shop)
dispatch_next_order_result-OneActive_example =
    dispatch_next_order_result-OneActive (λ d. d) 60 1 shop
      (record { one = λ x. x; keys = λ x. x; idle = λ x. x; homes = λ k j j' a b. cc }) (refl, tt)
      shop-OneActive host

-- The run of this example.
reason_of : Result (DispatchResult × Db) → Option DispatchReason
reason_of (ok r) = some (r.0).reason
reason_of (err e) = none

dispatches :
    reason_of (dispatch_next_order_result host (λ d. d) 60 1 shop) ≡ some DispatchReason.dispatched
unfolding reason_of dispatch_next_order_result blocked_by dispatch_queued dispatch_locked
    dispatch_job insert_command insert_outbox ◌>>=◌ or_raise raise_if is_active pickup_blocked
    device_is_busy transition_order apply_transition update_transition_state
    order_transition_allowed OrderStatus-discrete JobStatus-discrete
dispatches = refl

-- Two requests, a claim, and the completion of the first one.
abbrev requests : List Op
requests =
    Op.raise 1 "paid" ∷ Op.claim (λ k. true) "W" ∷ Op.raise 1 "paid" ∷ Op.complete_at 1 1 ∷ []

perform_all-wish_all_example :
    revision_of (find_request 1 (perform_all host requests db)) ≡ wish_all requests 1 none
perform_all-wish_all_example = perform_all-wish_all host requests 1 db tt

abbrev request : DispatchRequest
request = claimed_request "W" 50 (new_request 1 "paid" 50)

abbrev working : Db
working = record db { dispatch_requests = request ∷ [] }

raise-Reopened_example : Reopened 1 1 (
    perform_all host
      ((Op.tick 3 ∷ [])
        ++ (Op.raise 1 "paid" ∷ ((Op.retry_at 2 1 "busy" ∷ []) ++ (Op.complete_at 1 1 ∷ []))))
      working)
raise-Reopened_example =
    raise-Reopened host (Op.tick 3 ∷ []) (Op.retry_at 2 1 "busy" ∷ []) 1 "paid" request working
      (refl, tt) refl (ground arith) (tt, tt) (tt, tt)

-- A second order waits while the first one is made.
abbrev busy_shop : Db
busy_shop = record db {
  orders = waiting ∷ queued_order ∷ [];
  jobs = job ∷ queued_job ∷ [];
  dispatch_requests = request ∷ [];
}

busy_shop-Queued : Queued busy_shop
busy_shop-Queued = (refl, tt)

busy_shop-Held : Held 1 1 busy_shop
busy_shop-Held = record { row = request; found = refl; newer = ground arith; soon = ground arith }

process_request-Held_example :
    Deferred host
      (λ d. d)
      (λ d. d)
      60
      (λ e. "error")
      request
      1
      busy_shop
      busy_shop-Queued
      busy_shop-Held
      (busy_shop-Queued, busy_shop-Held)
      (busy_shop-Queued, busy_shop-Held)
    ⊎ Served host
        (λ d. d)
        (λ d. d)
        60
        (λ e. "error")
        request
        1
        busy_shop
        busy_shop-Queued
        busy_shop-Held
        (busy_shop-Queued, busy_shop-Held)
        (busy_shop-Queued, busy_shop-Held)
process_request-Held_example =
    process_request-Held host (λ d. d) (λ d. d) 60 (λ e. "error") request 1 busy_shop
      busy_shop-Queued busy_shop-Held (busy_shop-Queued, busy_shop-Held)
      (busy_shop-Queued, busy_shop-Held)
