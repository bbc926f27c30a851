-- ===== src/Store/Monad.antt =====
-- One database transaction. An exception leaves no trace: `UnitOfWork.transaction` rolls back
-- (app/db/unit_of_work.py), so an error carries no state.
use coffee_cloud_mvp.Base.{ℕ, Bool, true, false, Option, none, some, String}
use coffee_cloud_mvp.Store.Tables.{Db}

pub data Error : Type 0 where
  http : ℕ → String → Error  -- ServiceError and HTTPException
  integrity : String → Error  -- a constraint of the schema
  none_row : Error  -- a row that `returning` or `fetchone` did not give is subscripted
  assertion : Error
  exception : String → Error  -- another exception of Python, by its class

pub data Result {ℓ} (A : Type ℓ) : Type ℓ where
  ok : A → Result A
  err : Error → Result A

abbrev pub Action : Type 0 → Type 0
Action A = Db → Result (A × Db)

module _ {A : Type 0} where
  abbrev pub pure : A → Action A
  pure a db = ok (a, db)

  abbrev pub raise : Error → Action A
  raise e db = err e

  -- A query.
  abbrev pub gets : (Db → A) → Action A
  gets f db = ok (f db, db)

  unfoldable pub or_raise : Error → Option A → Action A
  or_raise e none db = err e
  or_raise e (some a) db = ok (a, db)

infixl 5 ◌>>=◌ ◌>>◌
unfoldable pub ◌>>=◌ : {A B : Type 0} → Action A → (A → Action B) → Action B
◌>>=◌ m f db = elim (m db) [ ok r ↦ f r.0 r.1 | err e ↦ err e ]

abbrev pub ◌>>◌ : {A B : Type 0} → Action A → Action B → Action B
m >> k = m >>= λ _. k

unfoldable pub raise_if : Bool → Error → Action (Unit {0})
raise_if true e db = err e
raise_if false e db = ok (tt, db)

abbrev pub modify : (Db → Db) → Action (Unit {0})
modify f db = ok (tt, f db)

abbrev pub now : Action ℕ
now db = ok (db.clock, db)
