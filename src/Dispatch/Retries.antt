-- ===== src/Dispatch/Retries.antt =====
-- One pass of `process_dispatch_batch` of app/services/background_worker.py and the request that it
-- works on.
use coffee_cloud_mvp.Base.{
  ℕ, ◌≡◌, ◌≢◌, refl, sym, ◌∙◌, subst, Bool, true, false, ◌&&◌, String, inl, inr, ◌⊎◌, Bool-cases,
  arith, Option, none, some, is_some,
}
use coffee_cloud_mvp.Store.{
  Db, Job, DispatchRequest, Host, Error, Result, ok, err, ◌>>=◌, Ensures-ok, bind_ok, bind_err,
}
use coffee_cloud_mvp.DispatchRepository.{retry_request, complete_request}
use coffee_cloud_mvp.OrderRepository.Queue.{next_queued_job}
use coffee_cloud_mvp.Dispatch.Queue.{Op, perform, after}
use coffee_cloud_mvp.Dispatch.Rows.{Queued}
use coffee_cloud_mvp.Dispatch.Wakeups.{Held, perform-Held}
use coffee_cloud_mvp.Dispatch.Next.{
  DispatchReason, DispatchResult, is_retryable, dispatch_next_order_result,
}
use coffee_cloud_mvp.Dispatch.Gates.{Outcome, sent, kept, dispatch_next_order_result-Outcome}
use coffee_cloud_mvp.Dispatch.Batch.{must_retry, reason_text, settle_request, process_request}

-- No retry is due: `DispatchResult.retryable` written out, or no queued job.
abbrev pub IsOver : DispatchReason → Option Job → Type 0
IsOver reason queued =
    (reason ≡ DispatchReason.device_missing)
    ⊎ (reason ≡ DispatchReason.no_orders)
    ⊎ (reason ≡ DispatchReason.dispatched)
    ⊎ (queued ≡ none)

is_retryable-IsOver :
    (r : DispatchReason) (queued : Option Job)
    → (is_retryable r && is_some queued) ≡ false
    → IsOver r queued
is_retryable-IsOver r none e = inr (inr (inr refl))
is_retryable-IsOver r (some job) e = ground arith

module _ (host : Host) (wait later : Db → Db) (threshold : ℕ) (text : Error → String)
    (request : DispatchRequest) (revision : ℕ) (db : Db) (unique : Queued db)
    (held : Held request.terminal_id revision db)
    (others : Queued (wait db) × Held request.terminal_id revision (wait db))
    (others_later : Queued (later (wait db))
      × Held request.terminal_id revision (later (wait db))) where
  -- The dispatch returned and no retry was due; the revision that the worker had is completed.

  pub record Served : Type 0 where
    pub outcome : DispatchResult
    pub tables : Db
    pub ran :
        dispatch_next_order_result host wait threshold request.terminal_id db ≡ ok (outcome, tables)
    pub ended : Outcome wait threshold request.terminal_id db outcome tables
    pub over : IsOver outcome.reason (next_queued_job request.terminal_id tables)
    pub pass :
        process_request host wait later threshold text request db
        ≡ (1, after (complete_request request.terminal_id request.revision) tables)

  retryable-kept :
      (r : DispatchReason) (b : Bool) → (is_retryable r && b) ≡ true → r ≢ DispatchReason.dispatched
  retryable-kept r b e same = ground arith

  -- The tables that a refusal leaves hold the request.
  refused_tables :
      (db1 : Db) → (db1 ≡ db) ⊎ (db1 ≡ wait db) → Queued db1 × Held request.terminal_id revision db1
  refused_tables db1 (inl same) =
      subst (λ d. Queued d × Held request.terminal_id revision d) (sym same) (unique, held)
  refused_tables db1 (inr same) =
      subst (λ d. Queued d × Held request.terminal_id revision d) (sym same) others

  outcome_tables :
      (r : DispatchResult) (db1 : Db)
      → r.reason ≢ DispatchReason.dispatched
      → Outcome wait threshold request.terminal_id db r db1
      → (db1 ≡ db) ⊎ (db1 ≡ wait db)
  outcome_tables r db1 other (sent e d) = elim (other e) [ ]
  outcome_tables r db1 other (kept e same) = same

  retried :
      (error : String) (db1 : Db)
      → Queued db1
      → Held request.terminal_id revision db1
      → Held request.terminal_id revision
          (after (retry_request host request.terminal_id request.revision error) db1)
  unfolding perform
  retried error db1 u h =
      perform-Held host (Op.retry_at request.terminal_id request.revision error) request.terminal_id
        revision db1 u tt h

  retry_returns :
      (error : String) (db1 : Db)
      → retry_request host request.terminal_id request.revision error db1
        ≡ ok (tt, after (retry_request host request.terminal_id request.revision error) db1)
  unfolding retry_request
  retry_returns error db1 = refl

  end :
      (outcome : DispatchResult) (tables : Db)
      → dispatch_next_order_result host wait threshold request.terminal_id db ≡ ok (outcome, tables)
      → Outcome wait threshold request.terminal_id db outcome tables
  end outcome tables ran =
      Ensures-ok outcome tables
        (dispatch_next_order_result-Outcome wait threshold request.terminal_id db host) ran

  settle_deferred :
      (outcome : DispatchResult) (db1 : Db)
      → must_retry request.terminal_id outcome db1 ≡ true
      → settle_request host wait later threshold text request outcome db1
        ≡ retry_request host request.terminal_id request.revision (reason_text outcome.reason) db1
  unfolding settle_request ◌>>=◌
  settle_deferred outcome db1 deferred = rw deferred refl

  settle_completed :
      (outcome : DispatchResult) (db1 : Db)
      → must_retry request.terminal_id outcome db1 ≡ false
      → settle_request host wait later threshold text request outcome db1
        ≡ complete_request request.terminal_id request.revision db1
  unfolding settle_request ◌>>=◌
  settle_completed outcome db1 settled = rw settled refl

  complete_returns :
      (db1 : Db)
      → complete_request request.terminal_id request.revision db1
        ≡ ok (tt, after (complete_request request.terminal_id request.revision) db1)
  unfolding complete_request
  complete_returns db1 = refl

  -- The terminal has the request after the pass.
  abbrev pub Deferred : Type 0
  Deferred =
      Held request.terminal_id revision
        (process_request host wait later threshold text request db).1

  -- The pass, by the result of the dispatch.
  run :
      (result : Result (DispatchResult × Db))
      → dispatch_next_order_result host wait threshold request.terminal_id db ≡ result
      → Deferred ⊎ Served
  unfolding process_request
  run (err e) ran =
      rw (process_request, bind_err _ _ db e ran)
        (inl (retried (text e) (later (wait db)) others_later.0 others_later.1))
  run (ok (outcome, tables)) ran =
      elim (Bool-cases (must_retry request.terminal_id outcome tables)) [
        | inr settled ↦ inr (record {
          outcome = outcome;
          tables = tables;
          ran = ran;
          ended = end outcome tables ran;
          over =
              is_retryable-IsOver outcome.reason (next_queued_job request.terminal_id tables)
                settled;
          pass =
              rw
                (
                  process_request,
                  bind_ok (dispatch_next_order_result host wait threshold request.terminal_id)
                        (settle_request host wait later threshold text request) db outcome tables
                        ran
                      ∙ settle_completed outcome tables settled
                      ∙ complete_returns tables,
                )
                refl;
        })
        | inl deferred ↦
            let other = retryable-kept outcome.reason _ deferred in
            let (u, h) =
              refused_tables tables
                (outcome_tables outcome tables other (end outcome tables ran)) in
            let both =
              bind_ok (dispatch_next_order_result host wait threshold request.terminal_id)
                (settle_request host wait later threshold text request) db outcome tables ran
              ∙ settle_deferred outcome tables deferred
              ∙ retry_returns (reason_text outcome.reason) tables in
            rw (process_request, both) (inl (retried (reason_text outcome.reason) tables u h))
      ]

  -- A worker passes over a terminal's request, where the queue has one row for a terminal at
  -- most and the terminal has a request from some revision on that falls due within 30 seconds,
  -- before the pass, after what other transactions commit while it waits, and after what they
  -- commit between an exception and the retry. Then either the terminal still has such a request
  -- after the pass, an exception of the dispatch included; or the dispatch returned, its reason
  -- is DEVICE_MISSING, NO_ORDERS or DISPATCHED or the terminal has no queued job that can be
  -- dispatched, and the pass counts as processed and completes no revision but the one that the
  -- worker had.
  pub process_request-Held : Deferred ⊎ Served
  process_request-Held =
      run (dispatch_next_order_result host wait threshold request.terminal_id db) refl
