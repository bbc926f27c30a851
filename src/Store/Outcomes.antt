-- ===== src/Store/Outcomes.antt =====
-- Postconditions of actions: of every run that returns, and of a run that is shown to return.
use coffee_cloud_mvp.Base.{◌≡◌, refl, ap, subst, Bool, true, false, Option, none, some}
use coffee_cloud_mvp.Store.Tables.{Db}
use coffee_cloud_mvp.Store.Monad.{
  Result, ok, err, Error, Action, ◌>>=◌, raise_if, or_raise, gets, modify,
}

-- If the run returns, its value and tables satisfy `Q`.
pub data Ensures {A : Type 0} (Q : A → Db → Type 0) : Result (A × Db) → Type 0 where
  done : {a : A} {db : Db} → Q a db → Ensures Q (ok (a, db))
  raised : {e : Error} → Ensures Q (err e)

-- The run returns, and its value and tables satisfy `Q`.
pub data Returns {A : Type 0} (Q : A → Db → Type 0) : Result (A × Db) → Type 0 where
  returned : {a : A} {db : Db} → Q a db → Returns Q (ok (a, db))

-- A sequence ensures what its second step ensures after every outcome of the first.
pub Ensures-bind :
    {A B : Type 0} {R : A → Db → Type 0} {Q : B → Db → Type 0} (m : Action A) (f : A → Action B)
    (db : Db)
    → Ensures R (m db)
    → ((a : A) (db' : Db) → R a db' → Ensures Q (f a db'))
    → Ensures Q ((m >>= f) db)
unfolding ◌>>=◌
Ensures-bind {A} {B} {R} {Q} m f db h k = go (m db) h
  where
    go :
        (r : Result (A × Db))
        → Ensures R r
        → Ensures Q (elim r [ ok x ↦ f x.0 x.1 | err e ↦ err e ])
    go _ (done q) = k _ _ q
    go _ raised = raised

pub Returns-bind :
    {A B : Type 0} {R : A → Db → Type 0} {Q : B → Db → Type 0} (m : Action A) (f : A → Action B)
    (db : Db)
    → Returns R (m db)
    → ((a : A) (db' : Db) → R a db' → Returns Q (f a db'))
    → Returns Q ((m >>= f) db)
unfolding ◌>>=◌
Returns-bind {A} {B} {R} {Q} m f db h k = go (m db) h
  where
    go :
        (r : Result (A × Db))
        → Returns R r
        → Returns Q (elim r [ ok x ↦ f x.0 x.1 | err e ↦ err e ])
    go _ (returned q) = k _ _ q

-- A guard: the rest runs when the test is false.
pub Ensures-guard :
    {B : Type 0} {Q : B → Db → Type 0} (test : Bool) (e : Error) (k : Unit {0} → Action B) (db : Db)
    → (test ≡ false → Ensures Q (k tt db))
    → Ensures Q ((raise_if test e >>= k) db)
unfolding ◌>>=◌ raise_if
Ensures-guard true e k db h = raised
Ensures-guard false e k db h = h refl

pub Returns-guard :
    {B : Type 0} {Q : B → Db → Type 0} (test : Bool) (e : Error) (k : Unit {0} → Action B) (db : Db)
    → test ≡ false
    → Returns Q (k tt db)
    → Returns Q ((raise_if test e >>= k) db)
unfolding ◌>>=◌ raise_if
Returns-guard true e k db f h = cc
Returns-guard false e k db f h = h

pub Ensures-or_raise :
    {A B : Type 0} {Q : B → Db → Type 0} (o : Option A) (e : Error) (k : A → Action B) (db : Db)
    → ((a : A) → o ≡ some a → Ensures Q (k a db))
    → Ensures Q ((or_raise e o >>= k) db)
unfolding ◌>>=◌ or_raise
Ensures-or_raise none e k db h = raised
Ensures-or_raise (some a) e k db h = h a refl

pub or_raise-Ensures :
    {A : Type 0} {Q : A → Db → Type 0} (e : Error) (o : Option A) (db : Db)
    → ((a : A) → o ≡ some a → Q a db)
    → Ensures Q (or_raise e o db)
unfolding or_raise
or_raise-Ensures e none db h = raised
or_raise-Ensures e (some a) db h = done (h a refl)

-- Queries and writes do not fail, and the rest goes on with their result.
module _ {A B : Type 0} where
  -- A step whose outcome is known.
  pub bind_ok :
      (m : Action A) (k : A → Action B) (db : Db) (a : A) (db' : Db)
      → m db ≡ ok (a, db')
      → (m >>= k) db ≡ k a db'
  unfolding ◌>>=◌
  bind_ok m k db a db' e = rw (e, ◌>>=◌)

  -- A step that fails.
  pub bind_err :
      (m : Action A) (k : A → Action B) (db : Db) (e : Error) → m db ≡ err e → (m >>= k) db ≡ err e
  unfolding ◌>>=◌
  bind_err m k db e failed = rw (failed, ◌>>=◌)

pub Ensures-gets :
    {A B : Type 0} {Q : B → Db → Type 0} (f : Db → A) (k : A → Action B) (db : Db)
    → Ensures Q (k (f db) db)
    → Ensures Q ((gets f >>= k) db)
unfolding ◌>>=◌
Ensures-gets f k db h = h

pub Ensures-modify :
    {B : Type 0} {Q : B → Db → Type 0} (f : Db → Db) (k : Unit {0} → Action B) (db : Db)
    → Ensures Q (k tt (f db))
    → Ensures Q ((modify f >>= k) db)
unfolding ◌>>=◌
Ensures-modify f k db h = h

pub Returns-gets :
    {A B : Type 0} {Q : B → Db → Type 0} (f : Db → A) (k : A → Action B) (db : Db)
    → Returns Q (k (f db) db)
    → Returns Q ((gets f >>= k) db)
unfolding ◌>>=◌
Returns-gets f k db h = h

pub Returns-modify :
    {B : Type 0} {Q : B → Db → Type 0} (f : Db → Db) (k : Unit {0} → Action B) (db : Db)
    → Returns Q (k tt (f db))
    → Returns Q ((modify f >>= k) db)
unfolding ◌>>=◌
Returns-modify f k db h = h

pub Ensures-Returns :
    {A : Type 0} {Q : A → Db → Type 0} {r : Result (A × Db)} → Returns Q r → Ensures Q r
Ensures-Returns (returned q) = done q

-- What a run ensures holds of the value and the tables that it returned.
pub Ensures-ok :
    {A : Type 0} {Q : A → Db → Type 0} {r : Result (A × Db)} (a : A) (db : Db)
    → Ensures Q r
    → r ≡ ok (a, db)
    → Q a db
Ensures-ok {A} {Q = Q} a db (done {a = b} {db = d} q) e =
    subst (λ (x : A × Db). Q x.0 x.1) (ap value e) q
  where
    value : Result (A × Db) → A × Db
    value (ok x) = x
    value (err e') = (b, d)
Ensures-ok a db raised e = cc

pub Ensures-both :
    {A : Type 0} {P Q : A → Db → Type 0} {r : Result (A × Db)}
    → Ensures P r
    → Ensures Q r
    → Ensures (λ a db. P a db × Q a db) r
Ensures-both {A} {P} {Q} {r} p q = both p (λ a db e. Ensures-ok a db q e)
  where
    both :
        {s : Result (A × Db)}
        → Ensures P s
        → ((a : A) (db : Db) → s ≡ ok (a, db) → Q a db)
        → Ensures (λ a db. P a db × Q a db) s
    both (done x) k = done (x, k _ _ refl)
    both raised k = raised

pub Ensures-weaken :
    {A : Type 0} {R Q : A → Db → Type 0} {r : Result (A × Db)}
    → Ensures R r
    → ((a : A) (db : Db) → R a db → Q a db)
    → Ensures Q r
Ensures-weaken (done q) k = done (k _ _ q)
Ensures-weaken raised k = raised

-- A step whose outcome is known, in a run that returns.
pub Returns-known :
    {A B : Type 0} {Q : B → Db → Type 0} (m : Action A) (k : A → Action B) (db : Db) (a : A)
    (db' : Db)
    → m db ≡ ok (a, db')
    → Returns Q (k a db')
    → Returns Q ((m >>= k) db)
Returns-known m k db a db' e h = rw (bind_ok m k db a db' e) h

pub Returns-or_raise :
    {A B : Type 0} {Q : B → Db → Type 0} (o : Option A) (e : Error) (k : A → Action B) (db : Db)
    (a : A)
    → o ≡ some a
    → Returns Q (k a db)
    → Returns Q ((or_raise e o >>= k) db)
unfolding ◌>>=◌ or_raise
Returns-or_raise o e k db a found h = rw found h
