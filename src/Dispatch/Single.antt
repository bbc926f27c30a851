-- ===== src/Dispatch/Single.antt =====
-- One drink at a time: the dispatch of app/services/production.py and the jobs that are active
-- on a terminal.
use coffee_cloud_mvp.Base.{
  ℕ, suc, ◌≤◌, ◌≡◌, refl, sym, ◌∙◌, subst, true, false, Bool, ◌&&◌, none, some, List, [], ◌∷◌, ◌==◌,
  nat_eq, nat_beq, nat_beq_iff, inl, inr, arith, Bool-cases, if◌then◌else◌, any, update_id, find_id,
}
use coffee_cloud_mvp.Base.Rows.{IsUnique, some-inj, update_id-absent}
use coffee_cloud_mvp.Base.Selections.{first-selected, IsUnique-found}
use coffee_cloud_mvp.ProductionState.Orders.{OrderStatus, order_status_eq}
use coffee_cloud_mvp.ProductionState.Jobs.{JobStatus, job_status_eq, JobStatus-discrete}
use coffee_cloud_mvp.Store.{Db, Job, Terminal, Host, Ensures, Ensures-weaken}
use coffee_cloud_mvp.OrderRepository.{find_order}
use coffee_cloud_mvp.OrderRepository.Jobs.{job_id}
use coffee_cloud_mvp.OrderRepository.Queue.{
  is_active, active_job_exists, next_queued_job, lock_job, linked_job, has_status, is_earlier_job,
}
use coffee_cloud_mvp.Dispatch.Next.{DispatchResult, blocked_by, dispatch_next_order_result}
use coffee_cloud_mvp.Dispatch.Gates.{
  Outcome, Dispatched, sent, kept, dispatch_next_order_result-Outcome,
}

abbrev works_on : ℕ → Job → Bool
works_on terminal j = j.terminal_id == terminal && is_active j.status

-- How many jobs are active on the terminal.
abbrev active_count : ℕ → List Job → ℕ
active_count terminal [] = 0
active_count terminal (j ∷ js) =
    if works_on terminal j then suc (active_count terminal js) else active_count terminal js

abbrev pub OneActive : Db → Type 0
OneActive db = (terminal : ℕ) → active_count terminal db.jobs ≤ 1

-- What other transactions may commit while a transaction holds the terminal's row lock, which
-- every dispatch takes first: no job of the terminal becomes active.
pub record Behind (id : ℕ) (db db' : Db) : Type 0 where
  pub one : OneActive db → OneActive db'
  pub keys : IsUnique job_id db.jobs → IsUnique job_id db'.jobs
  pub idle : active_job_exists id db ≡ false → active_job_exists id db' ≡ false
  pub homes :
      (k : ℕ) (j j' : Job)
      → lock_job k db ≡ some j
      → lock_job k db' ≡ some j'
      → j'.terminal_id ≡ j.terminal_id

none_active :
    (terminal : ℕ) (js : List Job)
    → any (works_on terminal) js ≡ false
    → active_count terminal js ≡ 0
none_active terminal [] e = refl
none_active terminal (j ∷ js) e = ground (arith, none_active terminal js)

linked_active :
    (terminal command at : ℕ) (j : Job)
    → works_on terminal (linked_job command at j) ≡ (j.terminal_id == terminal)
unfolding is_active JobStatus-discrete
linked_active terminal command at j = elim (Bool-cases (j.terminal_id == terminal)) [
  | inl own ↦ rw own refl
  | inr other ↦ rw other refl
]

queued_idle : (terminal : ℕ) (j : Job) → j.status ≡ JobStatus.queued → works_on terminal j ≡ false
unfolding is_active JobStatus-discrete
queued_idle terminal j e = elim (Bool-cases (j.terminal_id == terminal)) [
  | inl own ↦ rw (own, e) refl
  | inr other ↦ rw other refl
]

-- The link of a queued job makes one job active, on its own terminal.
linked_count :
    (terminal k command at : ℕ) (js : List Job) (current : Job)
    → IsUnique job_id js
    → find_id job_id k js ≡ some current
    → current.status ≡ JobStatus.queued
    → active_count terminal (update_id job_id k (linked_job command at) js) ≡ (
        if current.terminal_id == terminal
        then suc (active_count terminal js)
        else active_count terminal js)
linked_count terminal k command at [] current u found queued = cc
linked_count terminal k command at (j ∷ js) current u found queued =
    elim (Bool-cases (nat_beq j.id k)) [
      | inl own ↦
          let same : j ≡ current = some-inj (sym (rw own refl) ∙ found) in
          let gone =
            update_id-absent job_id (linked_job command at) k js
              (subst (λ n. find_id job_id n js ≡ none) ((nat_beq_iff j.id k).0 own) u.0) in
          rw
            (
              own,
              gone,
              linked_active terminal command at j,
              same,
              queued_idle terminal current queued,
            )
            refl
      | inr other ↦
          let rest =
            linked_count terminal k command at js current u.1 (sym (rw other refl) ∙ found)
              queued in
          rw (other, rest) (ground arith)
    ]

next_queued_job-own :
    (id : ℕ) (db : Db) (job : Job)
    → IsUnique job_id db.jobs
    → next_queued_job id db ≡ some job
    → (lock_job job.id db ≡ some job) × (job.terminal_id ≡ id)
next_queued_job-own id db job u picked =
    let test = λ (j : Job).
      j.terminal_id == id
      && j.status == JobStatus.queued
      && has_status OrderStatus.queued (find_order j.order_id db) in
    let own =
      first-selected (λ j. find_id job_id j.id db.jobs ≡ some j) test is_earlier_job db.jobs job
        (IsUnique-found job_id db.jobs u) picked in
    (own.0, (nat_beq_iff job.terminal_id id).0 (left (job.terminal_id == id) _ (left _ _ own.1)))
  where
    left : (a b : Bool) → (a && b) ≡ true → a ≡ true
    left a b h = ground arith

ready_idle :
    (threshold id : ℕ) (terminal : Terminal) (db : Db)
    → blocked_by threshold id terminal db ≡ none
    → active_job_exists id db ≡ false
unfolding blocked_by
ready_idle threshold id terminal db e = ground arith

module _ (wait : Db → Db) (threshold id : ℕ) (db : Db) (others : Behind id db (wait db))
    (unique : IsUnique job_id db.jobs) (one : OneActive db) where
  Dispatched-OneActive : (db' : Db) → Dispatched wait threshold id db db' → OneActive db'
  Dispatched-OneActive db' d terminal =
      let (mine, home) = next_queued_job-own id db d.job unique d.picked in
      let at : d.current.terminal_id ≡ id =
        others.homes d.job.id d.job d.current mine d.job_locked ∙ home in
      let count =
        linked_count terminal d.job.id d.placed.command (wait db).clock (wait db).jobs d.current
          (others.keys unique) d.job_locked d.job_queued in
      let before = others.one one terminal in
      let idle =
        none_active id (wait db).jobs
          (others.idle (ready_idle threshold id d.terminal db d.ready)) in
      rw (d.placed.jobs, count, at)
        (elim (Bool-cases (id == terminal)) [
          | inl own ↦ rw (own, sym ((nat_beq_iff id terminal).0 own), idle) (ground arith)
          | inr other ↦ rw other before
        ])

  Outcome-OneActive :
      (r : DispatchResult) (db' : Db) → Outcome wait threshold id db r db' → OneActive db'
  Outcome-OneActive r db' (sent e d) = Dispatched-OneActive db' d
  Outcome-OneActive r db' (kept e (inl same)) = rw same one
  Outcome-OneActive r db' (kept e (inr same)) = rw same (others.one one)

  -- If every terminal has at most one active job, job ids are unique, and the transactions that
  -- commit before the order's lock make no job of this terminal active and keep both facts and
  -- the jobs' terminals: when the dispatch of the next order returns, every terminal still has
  -- at most one active job.
  pub dispatch_next_order_result-OneActive :
      (host : Host)
      → Ensures (λ r db'. OneActive db') (dispatch_next_order_result host wait threshold id db)
  dispatch_next_order_result-OneActive host =
      Ensures-weaken (dispatch_next_order_result-Outcome wait threshold id db host)
        λ r db' o. Outcome-OneActive r db' o
