-- ===== src/Dispatch/Refinement.antt =====
-- The dispatch queue of app/repositories/dispatch.py and the abstract queue of Queue.
use coffee_cloud_mvp.Base.{
  ℕ, ◌≡◌, refl, ◌∙◌, ap, true, false, Bool, not, Option, none, some, List, [], ◌∷◌, String,
  if◌then◌else◌, ◌==◌, nat_eq, nat_beq_iff, arith, Bool-cases, inl, inr,
}
use coffee_cloud_mvp.Base.Rows.{find_id-key, keep_if}
use coffee_cloud_mvp.Store.{Db, DispatchRequest, Host}
use coffee_cloud_mvp.DispatchRepository.{
  request_id, find_request, claimed_request, is_at, released, released_error,
}
use coffee_cloud_mvp.Dispatch.Queue.{
  Op, perform, perform_all, wish, wish_all, revision_of, drop_at, bump,
}
use coffee_cloud_mvp.Dispatch.Rows.{
  Queued, perform-Queued, write_row, is_revision, raised_row, raise-find, complete-find, retry-find,
  claim-find,
}

write_row-revision :
    (f : DispatchRequest → DispatchRequest)
    → ((r : DispatchRequest) → (f r).revision ≡ r.revision)
    → (own : Bool) (o : Option DispatchRequest) → revision_of (write_row f own o) ≡ revision_of o
write_row-revision f keeps false o = refl
write_row-revision f keeps true none = refl
write_row-revision f keeps true (some r) = ap some (keeps r)

released-revision : (at : ℕ) (r : DispatchRequest) → (released at r).revision ≡ r.revision
released-revision at r = ground arith

released_error-revision :
    (error : String) (at : ℕ) (r : DispatchRequest)
    → (released_error error at r).revision ≡ r.revision
released_error-revision error at r = ground arith

raised_row-revision :
    (reason : String) (terminal at : ℕ) (o : Option DispatchRequest)
    → (raised_row reason terminal at o).revision ≡ bump (revision_of o)
raised_row-revision reason terminal at none = refl
raised_row-revision reason terminal at (some r) = refl

-- The completion of the terminal's own request, and of another one.
completed_own :
    (id revision at : ℕ) (o : Option DispatchRequest)
    → ((r : DispatchRequest) → o ≡ some r → r.terminal_id ≡ id)
    → revision_of (
        if is_revision revision o
        then keep_if request_id (λ r. not (is_at id revision r)) o
        else write_row (released at) true o)
      ≡ drop_at revision (revision_of o)
completed_own id revision at none keyed = refl
completed_own id revision at (some r) keyed = elim (Bool-cases (r.revision == revision)) [
  | inl current ↦
      let own : (r.terminal_id == id) ≡ true = (nat_beq_iff r.terminal_id id).1 (keyed r refl) in
      rw (current, own) refl
  | inr newer ↦ rw newer (ap some (released-revision at r))
]

pub completed_other :
    (terminal id revision : ℕ) (current : Bool) (f : DispatchRequest → DispatchRequest)
    (o : Option DispatchRequest)
    → (terminal == id) ≡ false
    → ((r : DispatchRequest) → o ≡ some r → r.terminal_id ≡ id)
    → (if current
        then keep_if request_id (λ r. not (is_at terminal revision r)) o
        else write_row f false o)
      ≡ o
completed_other terminal id revision true f none other keyed = refl
completed_other terminal id revision false f o other keyed = refl
completed_other terminal id revision true f (some r) other keyed =
    let own = keyed r refl in ground arith

-- One transaction of the queue is one step of the abstract queue.
perform-wish :
    (host : Host) (op : Op) (id : ℕ) (db : Db)
    → Queued db
    → revision_of (find_request id (perform host op db))
      ≡ wish op id (revision_of (find_request id db))
unfolding perform
perform-wish host (Op.raise terminal reason) id db u =
    rw (raise-find host id db u terminal reason) (elim (Bool-cases (terminal == id)) [
      | inl own ↦
          rw (own, (nat_beq_iff terminal id).0 own)
            (ap some (raised_row-revision (host.clip 120 reason) id db.clock (find_request id db)))
      | inr other ↦ rw other refl
    ])
perform-wish host (Op.claim free worker) id db u =
    let claimed = claim-find host id db u free worker in
    rw claimed.1 (
      write_row-revision (claimed_request worker db.clock) (λ r. refl) claimed.0
        (find_request id db))
perform-wish host (Op.complete_at terminal revision) id db u =
    let keyed = find_id-key request_id id db.dispatch_requests in
    rw (complete-find host id db u terminal revision) (elim (Bool-cases (terminal == id)) [
      | inl own ↦
          rw (own, (nat_beq_iff terminal id).0 own)
            (completed_own id revision db.clock (find_request id db) keyed)
      | inr other ↦
          rw
            (
              other,
              completed_other terminal id revision (is_revision revision (find_request terminal db))
                  (released db.clock) (find_request id db) other keyed,
            )
            refl
    ])
perform-wish host (Op.retry_at terminal revision error) id db u =
    rw (retry-find host id db u terminal revision error)
      (elim (Bool-cases (is_revision revision (find_request terminal db))) [
        | inl current ↦ rw current (write_row-revision _ (λ r. refl) _ (find_request id db))
        | inr newer ↦ rw newer (
            write_row-revision _ (released_error-revision (host.clip 1000 error) db.clock) _
              (find_request id db))
      ])
perform-wish host (Op.tick seconds) id db u = refl

-- Where the queue has one row for a terminal at most, every sequence of enqueue, claim,
-- complete, retry and waiting acts on a terminal's revision as the abstract queue does: enqueue
-- counts up from nothing or from the last number, complete drops the number that it names, and
-- claims, retries and time change nothing.
pub perform_all-wish_all :
    (host : Host) (ops : List Op) (id : ℕ) (db : Db)
    → Queued db
    → revision_of (find_request id (perform_all host ops db))
      ≡ wish_all ops id (revision_of (find_request id db))
perform_all-wish_all host [] id db u = refl
perform_all-wish_all host (op ∷ ops) id db u =
    perform_all-wish_all host ops id (perform host op db) (perform-Queued host op db u)
    ∙ ap (wish_all ops id) (perform-wish host op id db u)
