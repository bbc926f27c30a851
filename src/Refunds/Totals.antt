-- ===== src/Refunds/Totals.antt =====
-- Sums over the refunds of a payment: split by status, and under an update of one row.
use coffee_cloud_mvp.Base.{
  ℕ, ◌+◌, ◌≤◌, ◌<◌, ◌≡◌, ◌≢◌, refl, true, false, ◌&&◌, some, List, [], ◌∷◌, arith, if◌then◌else◌,
  ◌==◌, nat_eq, contains, update_id, find_id, All,
}
use coffee_cloud_mvp.Base.Rows.{IsUnique, update_id-absent}
use coffee_cloud_mvp.PaymentState.{RefundStatus, refund_status_eq, RefundStatus-discrete}
use coffee_cloud_mvp.Store.{Refund}
use coffee_cloud_mvp.PaymentRepository.{refund_id, refunded_sum, in_flight, in_flight_statuses}
use coffee_cloud_mvp.Refunds.Intents.{budget_statuses}

abbrev pub succeeded_sum : ℕ → List Refund → ℕ
succeeded_sum id rs = refunded_sum id (RefundStatus.succeeded ∷ []) rs

abbrev pub flight_sum : ℕ → List Refund → ℕ
flight_sum id rs = refunded_sum id in_flight_statuses rs

abbrev pub IsPositive : List Refund → Type 0
IsPositive = All (λ r. 0 < r.amount_minor)

-- The budget counts what succeeded and what is in flight.
pub budget-split :
    (id : ℕ) (rs : List Refund)
    → refunded_sum id budget_statuses rs ≡ succeeded_sum id rs + flight_sum id rs
unfolding refunded_sum
budget-split id [] = omega arith
budget-split id (r ∷ rs) = ground (arith, budget-split id rs)

pub in_flight-pos :
    (id : ℕ) (rs : List Refund) → IsPositive rs → in_flight id rs ≡ true → 0 < flight_sum id rs
unfolding refunded_sum in_flight
in_flight-pos id [] p e = cc
in_flight-pos id (r ∷ rs) p e = ground (arith, in_flight-pos id rs p.1)

pub in_flight-zero : (id : ℕ) (rs : List Refund) → in_flight id rs ≡ false → flight_sum id rs ≡ 0
unfolding refunded_sum in_flight
in_flight-zero id [] e = refl
in_flight-zero id (r ∷ rs) e = ground (arith, in_flight-zero id rs)

-- What one row adds to a sum.
unfoldable pub share : ℕ → List RefundStatus → Refund → ℕ
unfolding RefundStatus-discrete
share id statuses r = if r.payment_id == id && contains r.status statuses then r.amount_minor else 0

refunded_sum-cons :
    (id : ℕ) (statuses : List RefundStatus) (r : Refund) (rs : List Refund)
    → refunded_sum id statuses (r ∷ rs) ≡ share id statuses r + refunded_sum id statuses rs
unfolding refunded_sum share
refunded_sum-cons id statuses r rs = refl

-- Changing one row changes the sum by that row's share.
pub refunded_sum-update :
    (id : ℕ) (statuses : List RefundStatus) (f : Refund → Refund) (k : ℕ) (rs : List Refund)
    (r : Refund)
    → IsUnique refund_id rs
    → find_id refund_id k rs ≡ some r
    → refunded_sum id statuses (update_id refund_id k f rs) + share id statuses r
      ≡ refunded_sum id statuses rs + share id statuses (f r)
refunded_sum-update id statuses f k [] r u e = cc
refunded_sum-update id statuses f k (x ∷ xs) r u e = ground (
  arith,
  refunded_sum-cons id statuses x xs,
  refunded_sum-cons id statuses x (update_id refund_id k f xs),
  refunded_sum-cons id statuses (f x) (update_id refund_id k f xs),
  refunded_sum-update id statuses f k xs r u.1,
  update_id-absent refund_id f k xs,
)

-- A row's share is part of the sum.
pub share-le-sum :
    (id : ℕ) (statuses : List RefundStatus) (k : ℕ) (rs : List Refund) (r : Refund)
    → find_id refund_id k rs ≡ some r
    → share id statuses r ≤ refunded_sum id statuses rs
share-le-sum id statuses k [] r e = cc
share-le-sum id statuses k (x ∷ xs) r e =
    ground (arith, refunded_sum-cons id statuses x xs, share-le-sum id statuses k xs r)

pub positive_of_found :
    (k : ℕ) (rs : List Refund) (r : Refund)
    → IsPositive rs
    → find_id refund_id k rs ≡ some r
    → 0 < r.amount_minor
positive_of_found k [] r p e = cc
positive_of_found k (x ∷ xs) r p e = ground (arith, positive_of_found k xs r p.1)

pub update-IsPositive :
    (f : Refund → Refund)
    → ((r : Refund) → (f r).amount_minor ≡ r.amount_minor)
    → (k : ℕ) (rs : List Refund) → IsPositive rs
    → IsPositive (update_id refund_id k f rs)
update-IsPositive f keeps k [] p = tt
update-IsPositive f keeps k (x ∷ xs) p = ground (arith, keeps x, update-IsPositive f keeps k xs p.1)

-- The shares of one row by status: in flight, succeeded, failed, or of another payment.
pub share_flight :
    (r : Refund)
    → contains r.status (RefundStatus.succeeded ∷ RefundStatus.failed ∷ []) ≡ false
    → (share r.payment_id in_flight_statuses r ≡ r.amount_minor)
      × (share r.payment_id (RefundStatus.succeeded ∷ []) r ≡ 0)
unfolding share
share_flight r e = ground arith

pub share_succeeded :
    (r : Refund)
    → r.status ≡ RefundStatus.succeeded
    → (share r.payment_id in_flight_statuses r ≡ 0)
      × (share r.payment_id (RefundStatus.succeeded ∷ []) r ≡ r.amount_minor)
unfolding share
share_succeeded r e = ground arith

pub share_failed :
    (r : Refund)
    → r.status ≡ RefundStatus.failed
    → (share r.payment_id in_flight_statuses r ≡ 0)
      × (share r.payment_id (RefundStatus.succeeded ∷ []) r ≡ 0)
unfolding share
share_failed r e = ground arith

pub share_other :
    (j : ℕ) (statuses : List RefundStatus) (r : Refund) → j ≢ r.payment_id → share j statuses r ≡ 0
unfolding share
share_other j statuses r n = ground arith
