-- ===== src/Ledger/Refunding.antt =====
-- `apply_refund_outcome` of app/services/refund_intents.py, whole: it returns, and the money
-- invariant holds after it.
use coffee_cloud_mvp.Base.{
  ◌⊎◌, ℕ, ◌+◌, ◌≤◌, ◌≡◌, ◌≢◌, refl, true, false, Bool, Option, some, String, Json, arith, contains,
  sym, Bool-cases, inl, inr, subst, List,
}
use coffee_cloud_mvp.Base.Rows.{find_id-key, IsUnique}
use coffee_cloud_mvp.PaymentState.{
  PaymentStatus, RefundStatus, refund_status_eq, decide_refund_transition,
}
use coffee_cloud_mvp.Store.{
  Db, Order, Payment, Refund, pure, ◌>>=◌, Returns, returned, Returns-bind, Returns-gets,
}
use coffee_cloud_mvp.PaymentRepository.{
  payment_id, refund_id, find_payment, find_refund, in_flight, with_refund_transition,
}
use coffee_cloud_mvp.OrderRepository.{order_id, find_order}
use coffee_cloud_mvp.Transitions.Moves.{transition_refund-Returns}
use coffee_cloud_mvp.Refunds.Outcomes.{
  settled_status, terminal_refunds, settle_payment_after_refund, record_outcome, outcome_for,
  outcome_of, apply_refund_outcome,
}
use coffee_cloud_mvp.Refunds.Totals.{succeeded_sum, flight_sum, IsPositive}
use coffee_cloud_mvp.Ledger.Sound.{IsSettled, SettledAt, Sound, Sound-step, budget_of_settled}
use coffee_cloud_mvp.Ledger.Settlement.{
  settled_status-IsSettled, refunding_of_flight, after, others_after, same_after, budget_after,
  flight_before, after-IsUnique, after-IsPositive,
}
use coffee_cloud_mvp.Ledger.Outcomes.{Settles, settle-Returns}

-- What an applied outcome leaves behind.
pub record Applied (payment : Payment) (target : RefundStatus) (db : Db) (o : Option Refund)
    (db' : Db) : Type 0 where
  pub sound : Sound db'
  pub answer : (r : Refund) × (o ≡ some r) × (r.status ≡ target)
  pub settled :
      (contains target terminal_refunds ≡ false)
      ⊎ ((p : Payment) × (find_payment payment.id db' ≡ some p)
          × (p.status
              ≡ settled_status payment.amount_minor
                  (succeeded_sum payment.id db'.refunds)
                  (in_flight payment.id db'.refunds)))

-- An outcome for a refund that is in flight, of a payment that is there.
module _ (refund : Refund) (payment : Payment) (target : RefundStatus) (payload : Option Json)
    (actor : String) (db : Db) (sound : Sound db) (found : find_refund refund.id db ≡ some refund)
    (paid : find_payment payment.id db ≡ some payment) (own : refund.payment_id ≡ payment.id)
    (open' : contains refund.status terminal_refunds ≡ false)
    (allowed : (decide_refund_transition refund.status target).allowed ≡ true) where
  payment-IsSettled :
      IsSettled payment.status payment.amount_minor
        (succeeded_sum payment.id db.refunds)
        (flight_sum payment.id db.refunds)
  payment-IsSettled = subst (λ o. SettledAt payment.id o db.refunds) paid (sound.settled payment.id)

  is_refunding : payment.status ≡ PaymentStatus.refunding
  is_refunding =
      refunding_of_flight payment.status payment.amount_minor (succeeded_sum payment.id db.refunds)
        (flight_sum payment.id db.refunds) payment-IsSettled
        (rw (← own) (
          flight_before refund target payload db.clock db.refunds sound.unique found open'
            sound.positive))

  abbrev written : List Refund
  written = after refund target payload db.clock db.refunds sound.unique found open'

  within_budget :
      succeeded_sum payment.id written + flight_sum payment.id written ≤ payment.amount_minor
  within_budget = rw (← own) (
      omega (
        arith,
        budget_after refund target payload db.clock db.refunds sound.unique found open',
        rw (← own) at (
            budget_of_settled payment.status payment.amount_minor
              (succeeded_sum payment.id db.refunds) (flight_sum payment.id db.refunds)
              payment-IsSettled),
      ))

  other_sums :
      (j : ℕ)
      → j ≢ payment.id
      → (succeeded_sum j written ≡ succeeded_sum j db.refunds)
        × (flight_sum j written ≡ flight_sum j db.refunds)
  other_sums j n =
      others_after refund target payload db.clock db.refunds sound.unique found open' j (rw own n)

  written-IsUnique : IsUnique refund_id written
  written-IsUnique =
      after-IsUnique refund target payload db.clock db.refunds sound.unique found open'

  written-IsPositive : IsPositive written
  written-IsPositive =
      after-IsPositive refund target payload db.clock db.refunds sound.unique found open'
        sound.positive

  -- The tables once the refund row is written and its payment settled.
  settled-Sound :
      (db1 db2 : Db)
      → db1.refunds ≡ written
      → db1.payments ≡ db.payments
      → Settles payment db1 db2
      → Sound db2
  settled-Sound db1 db2 e ep s =
      rw (s.refunds, e)
        (Sound-step db.payments db2.payments db.refunds written payment.id s.row sound s.found
          (λ j n. rw (s.others j n, ep)) written-IsUnique written-IsPositive other_sums
          (rw (s.status, s.same_amount, e)
            (settled_status-IsSettled payment.id payment.amount_minor written written-IsPositive
              within_budget)))

  -- A target that is not terminal leaves the payment as it is.
  kept-Sound :
      (db1 : Db)
      → contains target terminal_refunds ≡ false
      → db1.refunds ≡ written
      → db1.payments ≡ db.payments
      → Sound db1
  kept-Sound db1 going e ep =
      let sums =
        same_after refund target payload db.clock db.refunds sound.unique found open' going in
      rw (e, ep)
        (Sound-step db.payments db.payments db.refunds written payment.id payment sound paid
          (λ j n. refl) written-IsUnique written-IsPositive other_sums
          (rw (rw own at sums.0, rw own at sums.1) payment-IsSettled))

  -- A repeated status is not terminal here, so the transaction changes nothing.
  repeated : refund.status ≡ target → contains target terminal_refunds ≡ false
  repeated e = subst (λ s. contains s terminal_refunds ≡ false) e open'

  module _ (order : Option Order)
      (there : (o : Order) → order ≡ some o → find_order o.id db ≡ some o) where
    settle_written :
        (r : Refund × Bool)
        → contains target terminal_refunds ≡ true
        → r.0.status ≡ target
        → Returns (Applied payment target db) (
            (settle_payment_after_refund payment order payload actor >>= λ u. pure (some r.0))
              (with_refund_transition refund target payload db))
    settle_written r ended status =
        Returns-bind _ _ _
          (settle-Returns payment order payload actor
            (with_refund_transition refund target payload db) paid is_refunding there)
          λ u db2 s. returned (record {
            sound = settled-Sound (with_refund_transition refund target payload db) db2 refl refl s;
            answer = (r.0, refl, status);
            settled = inr (s.row, s.found, rw s.refunds s.status);
          })

    record_outcome-Returns :
        Returns
          (Applied payment target db)
          (record_outcome refund payment order target payload actor db)
    unfolding record_outcome
    record_outcome-Returns =
        Returns-bind _ _ db (transition_refund-Returns refund target payload db found allowed)
          λ r db1 m. elim (Bool-cases (contains target terminal_refunds)) [
            | inl ended ↦ elim m.tables [
              | inl same ↦ cc (ended, repeated same.1)
              | inr moved ↦ rw (ended, moved.1) (settle_written r ended m.status)
            ]
            | inr going ↦ rw going (
                returned (record {
                  sound = elim m.tables [
                    | inl same ↦ rw same.3 sound
                    | inr moved ↦ rw moved.1 (
                        kept-Sound (with_refund_transition refund target payload db) going refl
                          refl)
                  ];
                  answer = (r.0, refl, m.status);
                  settled = inl going;
                }))
          ]

-- In a sound database, an outcome that the refund graph allows, for a refund in flight whose
-- payment is there, is recorded: the call returns the refund in its new status, the money
-- invariant holds after it, and after SUCCEEDED or FAILED the payment has the status that its
-- refunds ask for.
pub apply_refund_outcome-Returns :
    (refund : Refund) (payment : Payment) (target : RefundStatus) (payload : Option Json)
    (actor : String) (db : Db)
    → Sound db
    → find_refund refund.id db ≡ some refund
    → find_payment refund.payment_id db ≡ some payment
    → contains refund.status terminal_refunds ≡ false
    → (decide_refund_transition refund.status target).allowed ≡ true
    → Returns (Applied payment target db) (apply_refund_outcome refund.id target payload actor db)
unfolding apply_refund_outcome outcome_of outcome_for
apply_refund_outcome-Returns refund payment target payload actor db sound found paid open' allowed =
    let own = find_id-key payment_id refund.payment_id db.payments payment paid in
    Returns-gets _ _ db (
      rw found (
        Returns-gets _ _ db (
          rw paid (
            Returns-gets _ _ db (
              rw open' (
                record_outcome-Returns refund payment target payload actor db sound found
                  (subst (λ k. find_payment k db ≡ some payment) (sym own) paid) (sym own) open'
                  allowed (find_order payment.order_id db)
                  (λ o e.
                    subst (λ k. find_order k db ≡ some o)
                      (sym (find_id-key order_id payment.order_id db.orders o e)) e)))))))
