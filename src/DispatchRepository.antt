-- ===== src/DispatchRepository.antt =====
-- app/repositories/dispatch.py: the durable requests to dispatch a terminal's next job. `free`
-- tells which rows no other transaction has locked (`for update skip locked`).
use coffee_cloud_mvp.Base.{
  ℕ, ◌+◌, ◌^◌, min, false, Bool, ◌&&◌, not, Option, none, some, List, [], ◌∷◌, String,
  if◌then◌else◌, ◌==◌, nat_eq, ltb, leb, is_some, find_id, update_id, select, any, sort_by, take,
  length, first, distinct, map,
}
use coffee_cloud_mvp.ProductionState.Orders.{OrderStatus, order_status_eq}
use coffee_cloud_mvp.ProductionState.Jobs.{JobStatus, job_status_eq}
use coffee_cloud_mvp.Store.{
  Db, Job, DispatchRequest, RequestStatus, Host, Action, ◌>>=◌, ◌>>◌, pure, gets, modify,
}

abbrev pub request_id : DispatchRequest → ℕ
request_id r = r.terminal_id

abbrev pub find_request : ℕ → Db → Option DispatchRequest
find_request id db = find_id request_id id db.dispatch_requests

abbrev pub set_request : ℕ → (DispatchRequest → DispatchRequest) → Db → Db
set_request id f db = record db {
  dispatch_requests = update_id request_id id f db.dispatch_requests;
}

-- A row with the defaults of its columns.
abbrev pub new_request : ℕ → String → ℕ → DispatchRequest
new_request terminal reason at = record {
  terminal_id = terminal;
  reason = reason;
  status = RequestStatus.pending;
  requested_at = at;
  revision = 1;
  attempt_count = 0;
  next_attempt_at = at;
  locked_by = none;
  locked_until = none;
  last_error = none;
}

abbrev pub insert_request : DispatchRequest → Db → Db
insert_request r db = record db { dispatch_requests = r ∷ db.dispatch_requests }

-- `case when status='PROCESSING' then 'PROCESSING' else 'PENDING' end`
abbrev raised_status : RequestStatus → RequestStatus
raised_status RequestStatus.processing = RequestStatus.processing
raised_status _ = RequestStatus.pending

-- `on conflict (terminal_id) do update`
abbrev pub raised_request : String → ℕ → DispatchRequest → DispatchRequest
raised_request reason at r = record r {
  reason = reason;
  requested_at = at;
  revision = r.revision + 1;
  status = raised_status r.status;
  next_attempt_at = at;
  last_error = none;
}

unfoldable pub upsert_request : ℕ → String → Option DispatchRequest → Db → Db
upsert_request terminal reason none db = insert_request (new_request terminal reason db.clock) db
upsert_request terminal reason (some row) db =
    set_request terminal (raised_request reason db.clock) db

unfoldable pub enqueue : Host → ℕ → String → Action (Unit {0})
enqueue host terminal reason =
    modify λ db. upsert_request terminal (host.clip 120 reason) (find_request terminal db) db

-- A queued job of a queued order.
unfoldable pub is_queued_work : Db → Job → Bool
is_queued_work db job =
    job.status == JobStatus.queued
    && any (λ o. o.id == job.order_id && o.status == OrderStatus.queued) db.orders

-- `select distinct j.terminal_id ... order by j.terminal_id limit n`
abbrev pub missing_terminals : ℕ → Db → List ℕ
missing_terminals limit db = take limit (
    sort_by leb (
      distinct (
        map (λ (j : Job). j.terminal_id)
          (select (λ j. is_queued_work db j && not (is_some (find_request j.terminal_id db)))
            db.jobs))))

abbrev pub insert_missing : List ℕ → Db → Db
insert_missing [] db = db
insert_missing (terminal ∷ rest) db =
    insert_missing rest (insert_request (new_request terminal "queued-order-recovery" db.clock) db)

unfoldable pub repair_missing : ℕ → Action ℕ
repair_missing limit = do
  missing ← gets (missing_terminals limit)
  modify (insert_missing missing)
  pure (length missing)

abbrev expired_lease : Option ℕ → ℕ → Bool
expired_lease none at = false
expired_lease (some t) at = ltb t at

-- The condition of `claim`.
abbrev pub is_due : DispatchRequest → ℕ → Bool
is_due r at = elim r.status [
  | RequestStatus.processing ↦ expired_lease r.locked_until at
  | _ ↦ leb r.next_attempt_at at
]

abbrev pub next_request : (ℕ → Bool) → Db → Option DispatchRequest
next_request free db = first (
    sort_by (λ a b. leb a.requested_at b.requested_at)
      (select (λ r. is_due r db.clock && free r.terminal_id) db.dispatch_requests))

abbrev pub claimed_request : String → ℕ → DispatchRequest → DispatchRequest
claimed_request worker at r = record r {
  status = RequestStatus.processing;
  locked_by = some worker;
  locked_until = some (at + 30);
}

unfoldable pub claim_found : String → Option DispatchRequest → Action (Option DispatchRequest)
claim_found worker none = pure none
claim_found worker (some request) = do
  modify λ db. set_request request.terminal_id (claimed_request worker db.clock) db
  gets (find_request request.terminal_id)

unfoldable pub claim_request : (ℕ → Bool) → String → Action (Option DispatchRequest)
claim_request free worker = do request ← gets (next_request free); claim_found worker request

-- `where terminal_id=%s and revision=%s`
abbrev pub is_at : ℕ → ℕ → DispatchRequest → Bool
is_at terminal revision r = r.terminal_id == terminal && r.revision == revision

abbrev pub delete_request : ℕ → ℕ → Db → Db
delete_request terminal revision db = record db {
  dispatch_requests = select (λ r. not (is_at terminal revision r)) db.dispatch_requests;
}

-- `update ... where terminal_id=%s and status='PROCESSING'`
abbrev pub released : ℕ → DispatchRequest → DispatchRequest
released at r = elim r.status [
  | RequestStatus.processing ↦ record r {
    status = RequestStatus.pending;
    next_attempt_at = at;
    locked_by = none;
    locked_until = none;
  }
  | _ ↦ r
]

unfoldable pub complete_request : ℕ → ℕ → Action (Unit {0})
complete_request terminal revision = modify λ db.
    if any (is_at terminal revision) db.dispatch_requests
    then delete_request terminal revision db
    else set_request terminal (released db.clock) db

-- `least(30, power(2, least(attempt_count + 1, 5)))`
abbrev pub dispatch_delay : ℕ → ℕ
dispatch_delay attempts = min 30 (2 ^ min (attempts + 1) 5)

abbrev pub retried_request : String → ℕ → DispatchRequest → DispatchRequest
retried_request error at r = record r {
  status = RequestStatus.retry;
  attempt_count = r.attempt_count + 1;
  next_attempt_at = at + dispatch_delay r.attempt_count;
  last_error = some error;
  locked_by = none;
  locked_until = none;
}

abbrev pub released_error : String → ℕ → DispatchRequest → DispatchRequest
released_error error at r = elim r.status [
  | RequestStatus.processing ↦ record r {
    status = RequestStatus.pending;
    next_attempt_at = at;
    last_error = some error;
    locked_by = none;
    locked_until = none;
  }
  | _ ↦ r
]

unfoldable pub retry_request : Host → ℕ → ℕ → String → Action (Unit {0})
retry_request host terminal revision error = modify λ db.
    if any (is_at terminal revision) db.dispatch_requests
    then set_request terminal (retried_request (host.clip 1000 error) db.clock) db
    else set_request terminal (released_error (host.clip 1000 error) db.clock) db
