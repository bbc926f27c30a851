-- ===== src/Base/Selections.antt =====
-- Ordered selections: what every row of a table has, the row that is fetched first has too.
use coffee_cloud_mvp.Base.{
  ℕ, ◌≡◌, subst, true, none, some, List, [], ◌∷◌, arith, find_id, Bool, All, select, insert_by,
  sort_by, first, Bool-cases, inl, inr,
}
use coffee_cloud_mvp.Base.Rows.{IsUnique, some-inj}

module _ {ℓ κ} {A : Type ℓ} (P : A → Type κ) where
  All-select :
      (test : A → Bool) (xs : List A) → All P xs → All (λ x. P x × (test x ≡ true)) (select test xs)
  All-select test [] a = tt
  All-select test (x ∷ xs) a = elim (Bool-cases (test x)) [
    | inl kept ↦ rw kept ((a.0, kept), All-select test xs a.1)
    | inr gone ↦ rw gone (All-select test xs a.1)
  ]

  All-insert_by :
      (before : A → A → Bool) (x : A) (xs : List A) → P x → All P xs → All P (insert_by before x xs)
  All-insert_by before x [] p a = (p, tt)
  All-insert_by before x (y ∷ ys) p a = elim (Bool-cases (before x y)) [
    | inl now ↦ rw now (p, a)
    | inr later ↦ rw later (a.0, All-insert_by before x ys p a.1)
  ]

  All-sort_by : (before : A → A → Bool) (xs : List A) → All P xs → All P (sort_by before xs)
  All-sort_by before [] a = tt
  All-sort_by before (x ∷ xs) a =
      All-insert_by before x (sort_by before xs) a.0 (All-sort_by before xs a.1)

  All-first : (xs : List A) (x : A) → All P xs → first xs ≡ some x → P x
  All-first [] x a e = cc
  All-first (y ∷ ys) x a e = subst P (some-inj e) a.0

-- The row that an ordered selection fetches.
pub first-selected {ℓ κ} :
    {A : Type ℓ} (P : A → Type κ) (test : A → Bool) (before : A → A → Bool) (xs : List A) (x : A)
    → All P xs
    → first (sort_by before (select test xs)) ≡ some x
    → P x × (test x ≡ true)
first-selected {A} P test before xs x a e =
    let Q = λ (y : A). P y × (test y ≡ true) in
    All-first Q (sort_by before (select test xs)) x
      (All-sort_by Q before (select test xs) (All-select P test xs a)) e

module _ {ℓ} {A : Type ℓ} (key : A → ℕ) where
  found_after :
      (x : A) (xs ys : List A)
      → find_id key (key x) xs ≡ none
      → All (λ y. find_id key (key y) xs ≡ some y) ys
      → All (λ y. find_id key (key y) (x ∷ xs) ≡ some y) ys
  found_after x xs [] absent a = tt
  found_after x xs (y ∷ ys) absent a = (ground arith, found_after x xs ys absent a.1)

  -- With unique keys every row is found by its own.
  pub IsUnique-found :
      (xs : List A) → IsUnique key xs → All (λ x. find_id key (key x) xs ≡ some x) xs
  IsUnique-found [] u = tt
  IsUnique-found (x ∷ xs) u = (ground arith, found_after x xs xs u.0 (IsUnique-found xs u.1))
