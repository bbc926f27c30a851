-- ===== src/Dispatch/Wakeups.antt =====
-- The dispatch queue of app/repositories/dispatch.py and the requests that arrive while a worker
-- has the claim.
use coffee_cloud_mvp.Base.{
  ℕ, ◌+◌, ◌≤◌, ◌≡◌, ◌≢◌, refl, sym, ◌∙◌, ap, subst, true, false, Bool, some, List, [], ◌∷◌, ◌++◌,
  String, ◌==◌, nat_eq, nat_beq_iff, arith, Bool-cases, inl, inr, All,
}
use coffee_cloud_mvp.Base.Rows.{find_id-key}
use coffee_cloud_mvp.Store.{Db, DispatchRequest, RequestStatus, Host}
use coffee_cloud_mvp.DispatchRepository.{
  request_id, find_request, raised_request, claimed_request, released, retried_request,
  released_error,
}
use coffee_cloud_mvp.Dispatch.Queue.{Op, perform, perform_all}
use coffee_cloud_mvp.Dispatch.Rows.{
  Queued, perform-Queued, write_row, is_revision, raise-find, complete-find, retry-find, claim-find,
  perform-clock,
}
use coffee_cloud_mvp.Dispatch.Refinement.{completed_other}

-- A transaction that does not complete the terminal's request.
abbrev pub Leaves : ℕ → Op → Type 0
Leaves id (Op.complete_at terminal revision) = terminal ≢ id
Leaves id (Op.raise terminal reason) = Unit
Leaves id (Op.claim free worker) = Unit
Leaves id (Op.retry_at terminal revision error) = Unit
Leaves id (Op.tick seconds) = Unit

-- The terminal has a request from `revision` on, which falls due within 30 seconds.
pub record Held (id revision : ℕ) (db : Db) : Type 0 where
  pub row : DispatchRequest
  pub found : find_request id db ≡ some row
  pub newer : revision ≤ row.revision
  pub soon : row.next_attempt_at ≤ db.clock + 30

nat_neq : (a b : ℕ) → a ≢ b → (a == b) ≡ false
nat_neq a b n = ground arith

-- A write keeps the request, its revision and the time that it falls due.
abbrev IsWrite : ℕ → (DispatchRequest → DispatchRequest) → Type 0
IsWrite at f =
    (r : DispatchRequest)
    → r.next_attempt_at ≤ at + 30
    → (r.revision ≤ (f r).revision) × ((f r).next_attempt_at ≤ at + 30)

write_row-Held :
    (id revision : ℕ) (db db' : Db) (own : Bool) (f : DispatchRequest → DispatchRequest)
    → IsWrite db.clock f
    → db.clock ≤ db'.clock
    → Held id revision db
    → find_request id db' ≡ write_row f own (find_request id db)
    → Held id revision db'
write_row-Held id revision db db' false f write later h e = record {
  row = h.row;
  found = e ∙ h.found;
  newer = h.newer;
  soon = let s = h.soon in ground arith;
}
write_row-Held id revision db db' true f write later h e =
    let kept = write h.row h.soon in
    record {
      row = f h.row;
      found = e ∙ ap (write_row f true) h.found;
      newer = let n = h.newer in ground arith;
      soon = ground arith;
    }

retried-IsWrite : (error : String) (at : ℕ) → IsWrite at (retried_request error at)
retried-IsWrite error at r s = (ground arith, ground arith)

released_error-IsWrite : (error : String) (at : ℕ) → IsWrite at (released_error error at)
released_error-IsWrite error at r s = ground arith

-- A request that is raised again gets a new revision.
raise_again :
    (host : Host) (reason : String) (id revision : ℕ) (db : Db)
    → Queued db
    → Held id revision db
    → Held id (revision + 1) (perform host (Op.raise id reason) db)
raise_again host reason id revision db u h =
    let later = perform-clock host (Op.raise id reason) db in
    record {
      row = raised_request (host.clip 120 reason) db.clock h.row;
      found = raise-find host id db u id reason ∙ rw ((nat_beq_iff id id).1 refl, h.found) refl;
      newer = let n = h.newer in ground arith;
      soon = ground arith;
    }

weaken : (id n : ℕ) (db : Db) → Held id (n + 1) db → Held id n db
weaken id n db h = record {
  row = h.row;
  found = h.found;
  newer = let m = h.newer in ground arith;
  soon = h.soon;
}

pub perform-Held :
    (host : Host) (op : Op) (id revision : ℕ) (db : Db)
    → Queued db
    → Leaves id op
    → Held id revision db
    → Held id revision (perform host op db)
unfolding perform
perform-Held host (Op.raise terminal reason) id revision db u leaves h =
    elim (Bool-cases (terminal == id)) [
      | inl own ↦ weaken id revision _ (
          subst (λ n. Held id (revision + 1) (perform host (Op.raise n reason) db))
            (sym ((nat_beq_iff terminal id).0 own)) (raise_again host reason id revision db u h))
      | inr other ↦
          write_row-Held id revision db _ false (λ r. r) (λ r s. (ground arith, s))
            (perform-clock host (Op.raise terminal reason) db) h
            (raise-find host id db u terminal reason ∙ rw other refl)
    ]
perform-Held host (Op.claim free worker) id revision db u leaves h =
    let claimed = claim-find host id db u free worker in
    write_row-Held id revision db _ claimed.0 (claimed_request worker db.clock)
      (λ r s. (ground arith, s)) (perform-clock host (Op.claim free worker) db) h claimed.1
perform-Held host (Op.complete_at terminal at) id revision db u leaves h =
    let keyed = find_id-key request_id id db.dispatch_requests in
    write_row-Held id revision db _ false (λ r. r) (λ r s. (ground arith, s))
      (perform-clock host (Op.complete_at terminal at) db) h
      (complete-find host id db u terminal at
        ∙ rw (nat_neq terminal id leaves) (
            completed_other terminal id at (is_revision at (find_request terminal db))
              (released db.clock) (find_request id db) (nat_neq terminal id leaves) keyed))
perform-Held host (Op.retry_at terminal at error) id revision db u leaves h =
    let later = perform-clock host (Op.retry_at terminal at error) db in
    elim (Bool-cases (is_revision at (find_request terminal db))) [
      | inl current ↦
          write_row-Held id revision db _ (terminal == id)
            (retried_request (host.clip 1000 error) db.clock)
            (retried-IsWrite (host.clip 1000 error) db.clock) later h
            (retry-find host id db u terminal at error ∙ rw current refl)
      | inr newer ↦
          write_row-Held id revision db _ (terminal == id)
            (released_error (host.clip 1000 error) db.clock)
            (released_error-IsWrite (host.clip 1000 error) db.clock) later h
            (retry-find host id db u terminal at error ∙ rw newer refl)
    ]
perform-Held host (Op.tick seconds) id revision db u leaves h = record {
  row = h.row;
  found = h.found;
  newer = h.newer;
  soon = let s = h.soon in ground arith;
}

perform_all-Held :
    (host : Host) (ops : List Op) (id revision : ℕ) (db : Db)
    → Queued db
    → All (Leaves id) ops
    → Held id revision db
    → Held id revision (perform_all host ops db) × Queued (perform_all host ops db)
perform_all-Held host [] id revision db u leaves h = (h, u)
perform_all-Held host (op ∷ ops) id revision db u leaves h =
    perform_all-Held host ops id revision (perform host op db) (perform-Queued host op db u)
      leaves.1 (perform-Held host op id revision db u leaves.0 h)

-- What a completion leaves of a newer request.
pub record Reopened (id revision : ℕ) (db : Db) : Type 0 where
  pub kept : Held id (revision + 1) db
  pub idle : kept.row.status ≢ RequestStatus.processing

released-idle : (at : ℕ) (r : DispatchRequest) → (released at r).status ≢ RequestStatus.processing
released-idle at r = ground arith

released_soon :
    (at later : ℕ) (r : DispatchRequest)
    → r.next_attempt_at ≤ at + 30
    → at ≤ later
    → (released at r).next_attempt_at ≤ later + 30
released_soon at later r soon on = ground arith

complete_older :
    (host : Host) (id revision : ℕ) (db : Db)
    → Queued db
    → Held id (revision + 1) db
    → Reopened id revision (perform host (Op.complete_at id revision) db)
complete_older host id revision db u h =
    let at : Db = perform host (Op.complete_at id revision) db in
    let older : is_revision revision (find_request id db) ≡ false =
      let n = h.newer in rw h.found (nat_neq h.row.revision revision (λ e. ground arith)) in
    let gone =
      complete-find host id db u id revision
      ∙ rw (older, (nat_beq_iff id id).1 refl, h.found) refl in
    record {
      kept = record {
        row = released db.clock h.row;
        found = gone;
        newer = let n = h.newer in ground arith;
        soon =
            released_soon db.clock at.clock h.row h.soon
              (perform-clock host (Op.complete_at id revision) db);
      };
      idle = released-idle db.clock h.row;
    }

perform_all-join :
    (host : Host) (xs ys : List Op) (db : Db)
    → perform_all host (xs ++ ys) db ≡ perform_all host ys (perform_all host xs db)
perform_all-join host [] ys db = refl
perform_all-join host (x ∷ xs) ys db = perform_all-join host xs ys (perform host x db)

-- A worker has a terminal's request, due at most 30 seconds from now; the terminal is raised
-- again, and before and after that any transactions of the queue happen that do not complete
-- this terminal's request: when the worker then completes the revision that it had, the request
-- is still there with a newer revision, no worker has it, and it falls due within 30 seconds.
pub raise-Reopened :
    (host : Host) (before later : List Op) (id : ℕ) (reason : String) (claimed : DispatchRequest)
    (db : Db)
    → Queued db
    → find_request id db ≡ some claimed
    → claimed.next_attempt_at ≤ db.clock + 30
    → All (Leaves id) before
    → All (Leaves id) later
    → Reopened id claimed.revision (
        perform_all host
          (before ++ (Op.raise id reason ∷ (later ++ (Op.complete_at id claimed.revision ∷ []))))
          db)
raise-Reopened host before later id reason claimed db u found soon leaves1 leaves2 =
    let n = claimed.revision in
    let start : Held id n db = record {
      row = claimed;
      found = found;
      newer = ground arith;
      soon = soon;
    } in
    let held1 = perform_all-Held host before id n db u leaves1 start in
    let db1 = perform_all host before db in
    let held2 = raise_again host reason id n db1 held1.1 held1.0 in
    let db2 = perform host (Op.raise id reason) db1 in
    let held3 =
      perform_all-Held host later id (n + 1) db2
        (perform-Queued host (Op.raise id reason) db1 held1.1) leaves2 held2 in
    subst (Reopened id n)
      (sym (
        perform_all-join host before (Op.raise id reason ∷ (later ++ (Op.complete_at id n ∷ []))) db
        ∙ perform_all-join host later (Op.complete_at id n ∷ []) db2))
      (complete_older host id n (perform_all host later db2) held3.1 held3.0)
