-- ===== src/Dispatch/Queue.antt =====
-- app/repositories/dispatch.py: the statements of the dispatch queue as a sequence of committed
-- transactions, and what each does to the number that a terminal's request has.
use coffee_cloud_mvp.Base.{
  ℕ, ◌+◌, Bool, Option, none, some, List, [], ◌∷◌, String, if◌then◌else◌, ◌==◌, nat_eq,
}
use coffee_cloud_mvp.Store.{Db, DispatchRequest, Host, Action, ok, err}
use coffee_cloud_mvp.DispatchRepository.{enqueue, claim_request, complete_request, retry_request}

-- A transaction of the queue, or time that passes.
pub data Op : Type 0 where
  raise : ℕ → String → Op
  claim : (ℕ → Bool) → String → Op
  complete_at : ℕ → ℕ → Op
  retry_at : ℕ → ℕ → String → Op
  tick : ℕ → Op

-- What a transaction leaves: its tables, or the old ones when it raises.
abbrev pub after : {A : Type 0} → Action A → Db → Db
after m db = elim (m db) [ ok r ↦ r.1 | err e ↦ db ]

unfoldable pub perform : Host → Op → Db → Db
perform host (Op.raise terminal reason) db = after (enqueue host terminal reason) db
perform host (Op.claim free worker) db = after (claim_request free worker) db
perform host (Op.complete_at terminal revision) db = after (complete_request terminal revision) db
perform host (Op.retry_at terminal revision error) db =
    after (retry_request host terminal revision error) db
perform host (Op.tick seconds) db = record db { clock = db.clock + seconds }

abbrev pub perform_all : Host → List Op → Db → Db
perform_all host [] db = db
perform_all host (op ∷ ops) db = perform_all host ops (perform host op db)

-- The abstract queue: a number for each terminal that is to be dispatched.
abbrev pub bump : Option ℕ → ℕ
bump none = 1
bump (some n) = n + 1

abbrev pub drop_at : ℕ → Option ℕ → Option ℕ
drop_at revision none = none
drop_at revision (some n) = if n == revision then none else some n

abbrev pub wish : Op → ℕ → Option ℕ → Option ℕ
wish (Op.raise terminal reason) id w = if terminal == id then some (bump w) else w
wish (Op.complete_at terminal revision) id w = if terminal == id then drop_at revision w else w
wish (Op.claim free worker) id w = w
wish (Op.retry_at terminal revision error) id w = w
wish (Op.tick seconds) id w = w

abbrev pub wish_all : List Op → ℕ → Option ℕ → Option ℕ
wish_all [] id w = w
wish_all (op ∷ ops) id w = wish_all ops id (wish op id w)

abbrev pub revision_of : Option DispatchRequest → Option ℕ
revision_of none = none
revision_of (some r) = some r.revision
