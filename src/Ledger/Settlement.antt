-- ===== src/Ledger/Settlement.antt =====
-- `apply_refund_outcome` keeps the money invariant, and its settlement cannot fail.
use coffee_cloud_mvp.Base.{
  ℕ, ◌+◌, ◌≤◌, ◌<◌, ◌≡◌, ◌≢◌, ◌⊎◌, refl, true, false, Bool, Option, some, List, [], ◌∷◌, Json,
  arith, nat_eq, contains, Bool-cases, inl, inr, update_id, find_id,
}
use coffee_cloud_mvp.Base.Rows.{IsUnique, update_id-IsUnique}
use coffee_cloud_mvp.PaymentState.{
  PaymentStatus, RefundStatus, refund_status_eq, RefundStatus-discrete, decide_payment_transition,
}
use coffee_cloud_mvp.Store.{Refund}
use coffee_cloud_mvp.PaymentRepository.{refund_id, in_flight, in_flight_statuses, moved_refund}
use coffee_cloud_mvp.Refunds.Outcomes.{settled_status, terminal_refunds}
use coffee_cloud_mvp.Refunds.Totals.{
  succeeded_sum, flight_sum, IsPositive, in_flight-pos, in_flight-zero, share, refunded_sum-update,
  share-le-sum, positive_of_found, update-IsPositive, share_flight, share_succeeded, share_failed,
  share_other,
}
use coffee_cloud_mvp.Ledger.Sound.{IsSettled}

-- Money in flight shows on the payment.
pub refunding_of_flight :
    (s : PaymentStatus) (amount succeeded flying : ℕ)
    → IsSettled s amount succeeded flying
    → 0 < flying
    → s ≡ PaymentStatus.refunding
refunding_of_flight PaymentStatus.refunding amount succeeded flying h p = refl
refunding_of_flight _ amount succeeded flying h p = absurd (omega arith)

-- A refunding payment may settle to every status that the settlement computes.
pub settle_allowed :
    (amount succeeded : ℕ) (busy : Bool)
    → (decide_payment_transition PaymentStatus.refunding
        (settled_status amount succeeded busy)).allowed
      ≡ true
unfolding decide_payment_transition
settle_allowed amount succeeded busy = ground arith

-- The settlement computes the status that the money invariant asks for.
pub settled_status-IsSettled :
    (id amount : ℕ) (rs : List Refund)
    → IsPositive rs
    → succeeded_sum id rs + flight_sum id rs ≤ amount
    → IsSettled
        (settled_status amount (succeeded_sum id rs) (in_flight id rs))
        amount
        (succeeded_sum id rs)
        (flight_sum id rs)
settled_status-IsSettled id amount rs p h = elim (Bool-cases (in_flight id rs)) [
  | inl busy ↦ ground (arith, in_flight-pos id rs p busy)
  | inr idle ↦ ground (arith, in_flight-zero id rs idle)
]

ended_cases :
    (t : RefundStatus)
    → contains t terminal_refunds ≡ true
    → (t ≡ RefundStatus.succeeded) ⊎ (t ≡ RefundStatus.failed)
unfolding RefundStatus-discrete
ended_cases t e = ground arith

-- One refund that is in flight moves to `target`.
module _ (refund : Refund) (target : RefundStatus) (payload : Option Json) (at : ℕ)
    (rs : List Refund) (unique : IsUnique refund_id rs)
    (found : find_id refund_id refund.id rs ≡ some refund)
    (open' : contains refund.status terminal_refunds ≡ false) where
  abbrev pub write : Refund → Refund
  write r = moved_refund target payload r at

  abbrev pub after : List Refund
  after = update_id refund_id refund.id write rs

  flight_after :
      (j : ℕ)
      → flight_sum j after + share j in_flight_statuses refund
        ≡ flight_sum j rs + share j in_flight_statuses (write refund)
  flight_after j = refunded_sum-update j in_flight_statuses write refund.id rs refund unique found

  succeeded_after :
      (j : ℕ)
      → succeeded_sum j after + share j (RefundStatus.succeeded ∷ []) refund
        ≡ succeeded_sum j rs + share j (RefundStatus.succeeded ∷ []) (write refund)
  succeeded_after j =
      refunded_sum-update j (RefundStatus.succeeded ∷ []) write refund.id rs refund unique found

  pub others_after :
      (j : ℕ)
      → j ≢ refund.payment_id
      → (succeeded_sum j after ≡ succeeded_sum j rs) × (flight_sum j after ≡ flight_sum j rs)
  others_after j n = (
    omega (
      arith,
      succeeded_after j,
      share_other j (RefundStatus.succeeded ∷ []) refund n,
      share_other j (RefundStatus.succeeded ∷ []) (write refund) n,
    ),
    omega (
      arith,
      flight_after j,
      share_other j in_flight_statuses refund n,
      share_other j in_flight_statuses (write refund) n,
    ),
  )

  -- A target that is not terminal leaves the sums alone.
  pub same_after :
      contains target terminal_refunds ≡ false
      → (succeeded_sum refund.payment_id after ≡ succeeded_sum refund.payment_id rs)
        × (flight_sum refund.payment_id after ≡ flight_sum refund.payment_id rs)
  same_after going =
      let (f, s) = share_flight refund open' in
      let (f', s') = share_flight (write refund) going in
      (
        omega (arith, succeeded_after refund.payment_id, s, s'),
        omega (arith, flight_after refund.payment_id, f, f'),
      )

  -- Whatever the target, the budget that is taken does not grow.
  pub budget_after :
      succeeded_sum refund.payment_id after + flight_sum refund.payment_id after
      ≤ succeeded_sum refund.payment_id rs + flight_sum refund.payment_id rs
  budget_after =
      let (f, s) = share_flight refund open' in
      elim (Bool-cases (contains target terminal_refunds)) [
        | inr going ↦ omega (arith, same_after going)
        | inl ended ↦ elim (ended_cases target ended) [
          | inl yes' ↦
              let (f', s') = share_succeeded (write refund) yes' in
              omega (
                arith,
                succeeded_after refund.payment_id,
                flight_after refund.payment_id,
                f,
                s,
                f',
                s',
              )
          | inr no' ↦
              let (f', s') = share_failed (write refund) no' in
              omega (
                arith,
                succeeded_after refund.payment_id,
                flight_after refund.payment_id,
                f,
                s,
                f',
                s',
              )
        ]
      ]

  pub flight_before : IsPositive rs → 0 < flight_sum refund.payment_id rs
  flight_before p = omega (
    arith,
    share_flight refund open',
    share-le-sum refund.payment_id in_flight_statuses refund.id rs refund found,
    positive_of_found refund.id rs refund p found,
  )

  pub after-IsUnique : IsUnique refund_id after
  after-IsUnique = update_id-IsUnique refund_id write (λ r. refl) refund.id rs unique

  pub after-IsPositive : IsPositive rs → IsPositive after
  after-IsPositive p = update-IsPositive write (λ r. refl) refund.id rs p
