-- ===== src/Base/Rows.antt =====
-- What a lookup by key reads after an update by key.
use coffee_cloud_mvp.Base.{
  ℕ, ◌≡◌, refl, ◌≢◌, none, some, List, [], ◌∷◌, arith, nat_beq, if◌then◌else◌, find_id, update_id,
  find, Bool, Option, ap, select, Bool-cases, inl, inr, subst,
}

module _ {ℓ} {A : Type ℓ} (key : A → ℕ) where
  -- The row that a lookup finds has the key.
  pub find_id-key : (k : ℕ) (xs : List A) (x : A) → find_id key k xs ≡ some x → key x ≡ k
  find_id-key k [] x e = cc
  find_id-key k (y ∷ ys) x e = ground (arith, find_id-key k ys x)

  module _ (f : A → A) (keeps : (x : A) → key (f x) ≡ key x) where
    pub find_id-update_ne :
        (j k : ℕ) (xs : List A) → j ≢ k → find_id key j (update_id key k f xs) ≡ find_id key j xs
    find_id-update_ne j k [] n = refl
    find_id-update_ne j k (x ∷ xs) n = ground (arith, keeps x, find_id-update_ne j k xs n)

    pub find_id-update_self :
        (k : ℕ) (xs : List A) (x : A)
        → find_id key k xs ≡ some x
        → find_id key k (update_id key k f xs) ≡ some (f x)
    find_id-update_self k [] x e = cc
    find_id-update_self k (y ∷ ys) x e = ground (arith, keeps y, find_id-update_self k ys x)

  -- No two rows share a key.
  abbrev pub IsUnique : List A → Type ℓ
  IsUnique [] = Unit
  IsUnique (x ∷ xs) = (find_id key (key x) xs ≡ none) × IsUnique xs

  pub update_id-absent :
      (f : A → A) (k : ℕ) (xs : List A) → find_id key k xs ≡ none → update_id key k f xs ≡ xs
  update_id-absent f k [] e = refl
  update_id-absent f k (x ∷ xs) e = ground (arith, update_id-absent f k xs)

  pub find_id-update_absent :
      (f : A → A)
      → ((x : A) → key (f x) ≡ key x)
      → (j k : ℕ) (xs : List A) → find_id key j xs ≡ none
      → find_id key j (update_id key k f xs) ≡ none
  find_id-update_absent f keeps j k [] e = refl
  find_id-update_absent f keeps j k (x ∷ xs) e =
      ground (arith, keeps x, find_id-update_absent f keeps j k xs)

  pub update_id-IsUnique :
      (f : A → A)
      → ((x : A) → key (f x) ≡ key x)
      → (k : ℕ) (xs : List A) → IsUnique xs
      → IsUnique (update_id key k f xs)
  update_id-IsUnique f keeps k [] u = tt
  update_id-IsUnique f keeps k (x ∷ xs) u = (
    rw (kept x) (find_id-update_absent f keeps (key x) k xs u.0),
    update_id-IsUnique f keeps k xs u.1,
  )
    where
      kept : (y : A) → key (if nat_beq (key y) k then f y else y) ≡ key y
      kept y = ground (arith, keeps y)

  -- A deletion keeps the rows that pass the test.
  abbrev pub keep_if : (A → Bool) → Option A → Option A
  keep_if test none = none
  keep_if test (some x) = if test x then some x else none

  pub find_id-select_absent :
      (test : A → Bool) (k : ℕ) (xs : List A)
      → find_id key k xs ≡ none
      → find_id key k (select test xs) ≡ none
  find_id-select_absent test k [] e = refl
  find_id-select_absent test k (x ∷ xs) e = ground (arith, find_id-select_absent test k xs)

  pub find_id-select :
      (test : A → Bool) (k : ℕ) (xs : List A)
      → IsUnique xs
      → find_id key k (select test xs) ≡ keep_if test (find_id key k xs)
  find_id-select test k [] u = refl
  find_id-select test k (x ∷ xs) u =
      let rest = find_id-select test k xs u.1 in
      let gone : key x ≡ k → find_id key k (select test xs) ≡ none =
        λ own. find_id-select_absent test k xs (subst (λ n. find_id key n xs ≡ none) own u.0) in
      ground (arith, rest, gone)

  pub select-IsUnique : (test : A → Bool) (xs : List A) → IsUnique xs → IsUnique (select test xs)
  select-IsUnique test [] u = tt
  select-IsUnique test (x ∷ xs) u = elim (Bool-cases (test x)) [
    | inl kept ↦ rw kept (find_id-select_absent test (key x) xs u.0, select-IsUnique test xs u.1)
    | inr gone ↦ rw gone (select-IsUnique test xs u.1)
  ]

-- A search by a test that an update leaves alone finds the updated row.
pub find-update_self {ℓ} :
    {A : Type ℓ} (key : A → ℕ) (test : A → Bool) (f : A → A)
    → ((x : A) → test (f x) ≡ test x)
    → (xs : List A) (x : A) → find test xs ≡ some x
    → find test (update_id key (key x) f xs) ≡ some (f x)
find-update_self key test f keeps [] x e = cc
find-update_self key test f keeps (y ∷ ys) x e =
    ground (arith, keeps y, find-update_self key test f keeps ys x)

-- A search by a test that an update leaves alone finds the same row, updated or not.
pub find-update {ℓ} :
    {A : Type ℓ} (key : A → ℕ) (test : A → Bool) (k : ℕ) (f : A → A)
    → ((x : A) → test (f x) ≡ test x)
    → (xs : List A) (x : A) → find test xs ≡ some x
    → find test (update_id key k f xs) ≡ some (if nat_beq (key x) k then f x else x)
find-update key test k f keeps [] x e = cc
find-update key test k f keeps (y ∷ ys) x e =
    ground (arith, keeps y, find-update key test k f keeps ys x)

pub some-inj {ℓ} : {A : Type ℓ} {a b : A} → ◌≡◌ {A = Option A} (some a) (some b) → a ≡ b
some-inj {a} e = ap (λ o. elim o [ none ↦ a | some x ↦ x ]) e
