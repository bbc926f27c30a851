-- ===== src/Dispatch/Rows.antt =====
-- app/repositories/dispatch.py: what each statement does to the request of one terminal.
use coffee_cloud_mvp.Base.{
  ℕ, ◌≤◌, ◌≡◌, refl, sym, ◌∙◌, ap, subst, true, false, Bool, not, Option, none, some, List, [], ◌∷◌,
  String, if◌then◌else◌, ◌==◌, nat_eq, nat_beq, nat_beq_iff, arith, Bool-cases, Option-cases, inl,
  inr, any, find_id,
}
use coffee_cloud_mvp.Base.Rows.{
  find_id-update_absent, IsUnique, update_id-IsUnique, find-update, keep_if, find_id-select,
  select-IsUnique, find_id-key,
}
use coffee_cloud_mvp.Store.{Db, DispatchRequest, Host, ◌>>=◌}
use coffee_cloud_mvp.DispatchRepository.{
  request_id, find_request, set_request, new_request, raised_request, upsert_request, enqueue,
  next_request, claimed_request, claim_found, claim_request, is_at, released, complete_request,
  retried_request, released_error, retry_request,
}
use coffee_cloud_mvp.Dispatch.Queue.{Op, perform, after}

-- The table has one row for a terminal.
abbrev pub Queued : Db → Type 0
Queued db = IsUnique request_id db.dispatch_requests

-- The row has the revision.
abbrev pub is_revision : ℕ → Option DispatchRequest → Bool
is_revision revision none = false
is_revision revision (some r) = r.revision == revision

-- A write to a row, where the terminal is the row's own.
abbrev pub write_row :
    (DispatchRequest → DispatchRequest) → Bool → Option DispatchRequest → Option DispatchRequest
write_row f false o = o
write_row f true none = none
write_row f true (some r) = some (f r)

-- What `enqueue` leaves for the terminal.
abbrev pub raised_row : String → ℕ → ℕ → Option DispatchRequest → DispatchRequest
raised_row reason terminal at none = new_request terminal reason at
raised_row reason terminal at (some r) = raised_request reason at r

set_request-find :
    (f : DispatchRequest → DispatchRequest)
    → ((r : DispatchRequest) → (f r).terminal_id ≡ r.terminal_id)
    → (id terminal : ℕ) (db : Db)
    → find_request id (set_request terminal f db)
      ≡ write_row f (terminal == id) (find_request id db)
set_request-find f keeps id terminal db = elim (Option-cases (find_request id db)) [
  | inl absent ↦
      rw (absent, find_id-update_absent request_id f keeps id terminal db.dispatch_requests absent)
        (ground arith)
  | inr (r, found) ↦
      let own = find_id-key request_id id db.dispatch_requests r found in
      let written =
        find-update request_id (λ x. x.terminal_id == id) terminal f
          (λ x. ap (λ n. n == id) (keeps x)) db.dispatch_requests r found in
      rw found (written ∙ same_row r own)
]
  where
    same_row :
        (r : DispatchRequest)
        → r.terminal_id ≡ id
        → some (if nat_beq r.terminal_id terminal then f r else r)
          ≡ write_row f (terminal == id) (some r)
    same_row r own = ground arith

set_request-Queued :
    (f : DispatchRequest → DispatchRequest)
    → ((r : DispatchRequest) → (f r).terminal_id ≡ r.terminal_id)
    → (terminal : ℕ) (db : Db) → Queued db
    → Queued (set_request terminal f db)
set_request-Queued f keeps terminal db u =
    update_id-IsUnique request_id f keeps terminal db.dispatch_requests u

-- Whether a row stands at a revision is whether the terminal's row does.
any-at :
    (terminal revision : ℕ) (xs : List DispatchRequest)
    → IsUnique request_id xs
    → any (is_at terminal revision) xs ≡ is_revision revision (find_id request_id terminal xs)
any-at terminal revision [] u = refl
any-at terminal revision (x ∷ xs) u =
    let rest = any-at terminal revision xs u.1 in
    let gone : x.terminal_id ≡ terminal → find_id request_id terminal xs ≡ none =
      λ own. subst (λ n. find_id request_id n xs ≡ none) own u.0 in
    ground (arith, rest, gone)

released-terminal : (at : ℕ) (r : DispatchRequest) → (released at r).terminal_id ≡ r.terminal_id
released-terminal at r = ground arith

released_error-terminal :
    (error : String) (at : ℕ) (r : DispatchRequest)
    → (released_error error at r).terminal_id ≡ r.terminal_id
released_error-terminal error at r = ground arith

module _ (host : Host) (id : ℕ) (db : Db) (unique : Queued db) where
  -- `enqueue`
  pub raise-find :
      (terminal : ℕ) (reason : String)
      → find_request id (perform host (Op.raise terminal reason) db) ≡ (
          if terminal == id
          then some (raised_row (host.clip 120 reason) terminal db.clock (find_request terminal db))
          else find_request id db)
  unfolding perform enqueue upsert_request
  raise-find terminal reason = elim (Option-cases (find_request terminal db)) [
    | inl absent ↦ rw absent refl
    | inr (r, found) ↦ rw found (
        set_request-find (raised_request (host.clip 120 reason) db.clock) (λ r. refl) id terminal db
        ∙ own r found)
  ]
    where
      own :
          (r : DispatchRequest)
          → find_request terminal db ≡ some r
          → write_row
              (raised_request (host.clip 120 reason) db.clock)
              (terminal == id)
              (find_request id db)
            ≡ (if terminal == id
                then some (raised_request (host.clip 120 reason) db.clock r)
                else find_request id db)
      own r found = elim (Bool-cases (terminal == id)) [
        | inl same ↦ rw (same, sym ((nat_beq_iff terminal id).0 same), found) refl
        | inr other ↦ rw other refl
      ]

  -- `complete`
  pub complete-find :
      (terminal revision : ℕ)
      → find_request id (perform host (Op.complete_at terminal revision) db) ≡ (
          if is_revision revision (find_request terminal db)
          then keep_if request_id (λ r. not (is_at terminal revision r)) (find_request id db)
          else write_row (released db.clock) (terminal == id) (find_request id db))
  unfolding perform complete_request
  complete-find terminal revision =
      rw (any-at terminal revision db.dispatch_requests unique)
        (elim (Bool-cases (is_revision revision (find_request terminal db))) [
          | inl current ↦ rw current (
              find_id-select request_id (λ r. not (is_at terminal revision r)) id
                db.dispatch_requests unique)
          | inr newer ↦
              rw newer
                (set_request-find (released db.clock) (released-terminal db.clock) id terminal db)
        ])

  -- `retry`
  pub retry-find :
      (terminal revision : ℕ) (error : String)
      → find_request id (perform host (Op.retry_at terminal revision error) db) ≡ (
          if is_revision revision (find_request terminal db)
          then write_row
              (retried_request (host.clip 1000 error) db.clock)
              (terminal == id)
              (find_request id db)
          else write_row
              (released_error (host.clip 1000 error) db.clock)
              (terminal == id)
              (find_request id db))
  unfolding perform retry_request
  retry-find terminal revision error =
      rw (any-at terminal revision db.dispatch_requests unique)
        (elim (Bool-cases (is_revision revision (find_request terminal db))) [
          | inl current ↦ rw current (
              set_request-find (retried_request (host.clip 1000 error) db.clock) (λ r. refl) id
                terminal db)
          | inr newer ↦ rw newer (
              set_request-find (released_error (host.clip 1000 error) db.clock)
                (released_error-terminal (host.clip 1000 error) db.clock) id terminal db)
        ])

  -- `claim`
  pub claim-find :
      (free : ℕ → Bool) (worker : String)
      → (own : Bool) × (find_request id (perform host (Op.claim free worker) db)
          ≡ write_row (claimed_request worker db.clock) own (find_request id db))
  unfolding perform claim_request claim_found ◌>>=◌
  claim-find free worker = go (next_request free db)
    where
      go :
          (request : Option DispatchRequest)
          → (own : Bool) × (find_request id (after (claim_found worker request) db)
              ≡ write_row (claimed_request worker db.clock) own (find_request id db))
      go none = (false, refl)
      go (some r) = (
        r.terminal_id == id,
        set_request-find (claimed_request worker db.clock) (λ x. refl) id r.terminal_id db,
      )

-- Every statement leaves at most one row for a terminal.
pub perform-Queued : (host : Host) (op : Op) (db : Db) → Queued db → Queued (perform host op db)
unfolding perform enqueue upsert_request complete_request retry_request claim_request claim_found
    ◌>>=◌
perform-Queued host (Op.raise terminal reason) db u =
    elim (Option-cases (find_request terminal db)) [
      | inl absent ↦ rw absent (absent, u)
      | inr (r, found) ↦ rw found (
          set_request-Queued (raised_request (host.clip 120 reason) db.clock) (λ x. refl) terminal
            db u)
    ]
perform-Queued host (Op.claim free worker) db u = go (next_request free db)
  where
    go : (request : Option DispatchRequest) → Queued (after (claim_found worker request) db)
    go none = u
    go (some r) =
        set_request-Queued (claimed_request worker db.clock) (λ x. refl) r.terminal_id db u
perform-Queued host (Op.complete_at terminal revision) db u =
    elim (Bool-cases (any (is_at terminal revision) db.dispatch_requests)) [
      | inl current ↦
          rw current (
            select-IsUnique request_id (λ r. not (is_at terminal revision r)) db.dispatch_requests
              u)
      | inr newer ↦
          rw newer
            (set_request-Queued (released db.clock) (released-terminal db.clock) terminal db u)
    ]
perform-Queued host (Op.retry_at terminal revision error) db u =
    elim (Bool-cases (any (is_at terminal revision) db.dispatch_requests)) [
      | inl current ↦ rw current (
          set_request-Queued (retried_request (host.clip 1000 error) db.clock) (λ x. refl) terminal
            db u)
      | inr newer ↦ rw newer (
          set_request-Queued (released_error (host.clip 1000 error) db.clock)
            (released_error-terminal (host.clip 1000 error) db.clock) terminal db u)
    ]
perform-Queued host (Op.tick seconds) db u = u

-- The clock goes on.
pub perform-clock : (host : Host) (op : Op) (db : Db) → db.clock ≤ (perform host op db).clock
unfolding perform enqueue upsert_request complete_request retry_request claim_request claim_found
    ◌>>=◌
perform-clock host (Op.raise terminal reason) db = elim (Option-cases (find_request terminal db)) [
  | inl absent ↦ rw absent (ground arith)
  | inr (r, found) ↦ rw found (ground arith)
]
perform-clock host (Op.claim free worker) db = go (next_request free db)
  where
    go :
        (request : Option DispatchRequest)
        → db.clock ≤ (after (claim_found worker request) db).clock
    go none = ground arith
    go (some r) = ground arith
perform-clock host (Op.complete_at terminal revision) db =
    elim (Bool-cases (any (is_at terminal revision) db.dispatch_requests)) [
      | inl current ↦ rw current (ground arith)
      | inr newer ↦ rw newer (ground arith)
    ]
perform-clock host (Op.retry_at terminal revision error) db =
    elim (Bool-cases (any (is_at terminal revision) db.dispatch_requests)) [
      | inl current ↦ rw current (ground arith)
      | inr newer ↦ rw newer (ground arith)
    ]
perform-clock host (Op.tick seconds) db = ground arith
