-- ===== src/Ledger/Automatic.antt =====
-- `ensure_automatic_refund_intent` of app/services/refund_intents.py, whole.
use coffee_cloud_mvp.Base.{
  ℕ, ◌+◌, ◌≤◌, ◌≡◌, ◌⊎◌, refl, true, arith, ◌∙◌, false, Option, none, some, String, Bool-cases, inl,
  inr, ◌==◌, nat_eq, subst, sym,
}
use coffee_cloud_mvp.Base.Rows.{find_id-key, some-inj}
use coffee_cloud_mvp.Store.{
  Db, Payment, Refund, Host, Ensures, done, Ensures-bind, Ensures-gets, Ensures-weaken,
}
use coffee_cloud_mvp.PaymentRepository.{
  payment_id, find_payment, find_refund_idempotent, refunded_total,
}
use coffee_cloud_mvp.PaymentState.{PaymentStatus, PaymentStatus-discrete}
use coffee_cloud_mvp.Refunds.Intents.{
  remaining_budget, RefundIntent, budget_statuses, is_refundable, replay_or_ensure, ensure_refund,
  ensure_automatic_refund_intent,
}
use coffee_cloud_mvp.Ledger.Sound.{Sound}
use coffee_cloud_mvp.Ledger.Creation.{Opened}
use coffee_cloud_mvp.Ledger.Intents.{create_refund_intent-Ensures}

-- `REFUNDABLE_PAYMENT_STATUSES`, written out.
abbrev pub IsRefundable : PaymentStatus → Type 0
IsRefundable s =
    (s ≡ PaymentStatus.paid)
    ⊎ (s ≡ PaymentStatus.refunding)
    ⊎ (s ≡ PaymentStatus.partially_refunded)

-- What an automatic refund leaves. Without an intent: the tables as they were, and the reason.
-- With one: the stored refund of the key, or a new refund of all that is left of the amount.
abbrev pub Automatic : ℕ → String → Db → Option RefundIntent → Db → Type 0
Automatic id key db none db' =
    Sound db'
    × (db' ≡ db)
    × ((find_payment id db ≡ none)
        ⊎ ((p : Payment) × (find_payment id db ≡ some p)
            × ((¬ IsRefundable p.status)
                ⊎ ((find_refund_idempotent id key db ≡ none)
                    × (p.amount_minor ≤ refunded_total id budget_statuses db)))))
Automatic id key db (some i) db' =
    Sound db'
    × (p : Payment) × (find_payment id db ≡ some p)
    × IsRefundable p.status
    × (((i.created ≡ false) × (db' ≡ db) × (find_refund_idempotent id key db ≡ some i.refund))
        ⊎ ((find_refund_idempotent id key db ≡ none)
            × Opened p (some (remaining_budget p db)) db i db'
            × (i.refund.amount_minor + refunded_total id budget_statuses db ≡ p.amount_minor)))

Automatic-Sound :
    (i : Option RefundIntent) (id : ℕ) (key : String) (db db' : Db)
    → Automatic id key db i db'
    → Sound db'
Automatic-Sound none id key db db' a = a.0
Automatic-Sound (some i) id key db db' a = a.0

is_refundable-IsRefundable : (s : PaymentStatus) → is_refundable s ≡ true → IsRefundable s
unfolding is_refundable PaymentStatus-discrete
is_refundable-IsRefundable s e = ground arith

not-IsRefundable : (s : PaymentStatus) → is_refundable s ≡ false → ¬ IsRefundable s
unfolding is_refundable PaymentStatus-discrete
not-IsRefundable s e paid = ground arith

module _ (host : Host) where
  -- The wrapper, on a refundable payment that is there.
  replay_or_ensure-Ensures :
      (existing : Option Refund) (payment : Payment) (key reason actor : String) (db : Db)
      → Sound db
      → find_payment payment.id db ≡ some payment
      → IsRefundable payment.status
      → find_refund_idempotent payment.id key db ≡ existing
      → Ensures
          (Automatic payment.id key db)
          (replay_or_ensure host existing payment (remaining_budget payment db) key reason actor db)
  unfolding replay_or_ensure
  replay_or_ensure-Ensures (some refund) payment key reason actor db sound found paid e =
      done (sound, payment, found, paid, inl (refl, refl, e))
  replay_or_ensure-Ensures none payment key reason actor db sound found paid e =
      elim (Bool-cases (remaining_budget payment db == 0)) [
        | inl covered ↦
            rw covered (done (sound, refl, inr (payment, found, inr (e, all_refunded covered))))
        | inr left ↦ rw left (
            Ensures-bind _ _ db
              (create_refund_intent-Ensures host payment.id key reason
                (some (remaining_budget payment db)) none actor db sound)
              λ i db' c. elim c [
                | inl replay ↦ cc (replay.2, e)
                | inr opened ↦ done (opened_all i db' opened)
              ])
      ]
    where
      all_refunded :
          (remaining_budget payment db == 0) ≡ true
          → payment.amount_minor ≤ refunded_total payment.id budget_statuses db
      all_refunded h = ground arith

      opened_all :
          (i : RefundIntent) (db' : Db)
          → (find_refund_idempotent payment.id key db ≡ none)
            × (p : Payment) × (find_payment payment.id db ≡ some p)
            × Opened p (some (remaining_budget payment db)) db i db'
          → Automatic payment.id key db (some i) db'
      opened_all i db' (fresh, p, again, o) = (
        o.sound,
        payment,
        found,
        paid,
        inr (fresh, own, let a = o.asked in let z = o.positive in ground arith),
      )
        where
          own : Opened payment (some (remaining_budget payment db)) db i db'
          own =
              subst (λ q. Opened q (some (remaining_budget payment db)) db i db')
                (some-inj (sym again ∙ found)) o

  ensure_refund-Ensures :
      (payment : Payment) (key reason actor : String) (db : Db)
      → Sound db
      → find_payment payment.id db ≡ some payment
      → Ensures
          (Automatic payment.id key db)
          (ensure_refund host (some payment) key reason actor db)
  unfolding ensure_refund
  ensure_refund-Ensures payment key reason actor db sound found =
      elim (Bool-cases (is_refundable payment.status)) [
        | inr closed ↦
            rw closed (
              done
                (sound, refl, inr (payment, found, inl (not-IsRefundable payment.status closed))))
        | inl refundable ↦ rw refundable (
            Ensures-gets _ _ db (
              Ensures-gets _ _ db (
                replay_or_ensure-Ensures _ payment key reason actor db sound found
                  (is_refundable-IsRefundable payment.status refundable) refl)))
      ]

  by_payment :
      (payment : Option Payment) (id : ℕ) (key reason actor : String) (db : Db)
      → Sound db
      → find_payment id db ≡ payment
      → Ensures (Automatic id key db) (ensure_refund host payment key reason actor db)
  unfolding ensure_refund
  by_payment none id key reason actor db sound found = done (sound, refl, inl found)
  by_payment (some payment) id key reason actor db sound found =
      let own = find_id-key payment_id id db.payments payment found in
      subst
        (λ k. Ensures (Automatic k key db) (ensure_refund host (some payment) key reason actor db))
        own
        (ensure_refund-Ensures payment key reason actor db sound
          (subst (λ k. find_payment k db ≡ some payment) (sym own) found))

  -- In a sound database, if the automatic refund returns, the money invariant holds after it. If
  -- it returns no intent, nothing changed, and the payment is not there, or its status is none
  -- of PAID, REFUNDING and PARTIALLY_REFUNDED, or the key is new and nothing of the amount is
  -- left. If it returns an intent, the payment has one of these statuses, and the intent is the
  -- stored refund of the key, with nothing changed, or a new one under a new key whose amount,
  -- with the refunds that have succeeded or are in flight, is exactly the amount of the payment.
  pub ensure_automatic_refund_intent-Ensures :
      (id : ℕ) (key reason actor : String) (db : Db)
      → Sound db
      → Ensures (Automatic id key db) (ensure_automatic_refund_intent host id key reason actor db)
  unfolding ensure_automatic_refund_intent
  ensure_automatic_refund_intent-Ensures id key reason actor db sound =
      Ensures-gets _ _ db (by_payment (find_payment id db) id key reason actor db sound refl)

  -- The money invariant alone.
  pub ensure_automatic_refund_intent-Sound :
      (id : ℕ) (key reason actor : String) (db : Db)
      → Sound db
      → Ensures (λ i db'. Sound db') (ensure_automatic_refund_intent host id key reason actor db)
  ensure_automatic_refund_intent-Sound id key reason actor db sound =
      Ensures-weaken (ensure_automatic_refund_intent-Ensures id key reason actor db sound)
        λ i db' a. Automatic-Sound i id key db db' a
