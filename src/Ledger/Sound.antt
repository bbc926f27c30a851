-- ===== src/Ledger/Sound.antt =====
-- The invariant: a payment's status says how its money stands, and no payment returns more
-- than it took.
use coffee_cloud_mvp.Base.{
  ℕ, ◌+◌, ◌≤◌, ◌<◌, ◌≡◌, ◌≢◌, Option, none, some, List, find_id, arith, ◌==◌, nat_eq, nat_beq_iff,
  Bool-cases, inl, inr,
}
use coffee_cloud_mvp.Base.Rows.{IsUnique}
use coffee_cloud_mvp.PaymentState.{PaymentStatus}
use coffee_cloud_mvp.Store.{Db, Payment, Refund}
use coffee_cloud_mvp.PaymentRepository.{payment_id, refund_id}
use coffee_cloud_mvp.Refunds.Totals.{succeeded_sum, flight_sum, IsPositive}

-- What a status says of the paid amount, the sum refunded and the sum in flight.
abbrev pub IsSettled : PaymentStatus → ℕ → ℕ → ℕ → Type 0
IsSettled PaymentStatus.refunding amount succeeded flying =
    (0 < flying) × (succeeded + flying ≤ amount)
IsSettled PaymentStatus.partially_refunded amount succeeded flying =
    (0 < succeeded) × (succeeded < amount) × (flying ≡ 0)
IsSettled PaymentStatus.refunded amount succeeded flying = (succeeded ≡ amount) × (flying ≡ 0)
IsSettled _ amount succeeded flying = (succeeded ≡ 0) × (flying ≡ 0)

abbrev pub SettledAt : ℕ → Option Payment → List Refund → Type 0
SettledAt id none rs = Unit
SettledAt id (some p) rs =
    IsSettled p.status p.amount_minor (succeeded_sum id rs) (flight_sum id rs)

pub record IsSound (ps : List Payment) (rs : List Refund) : Type 0 where
  pub unique : IsUnique refund_id rs
  pub positive : IsPositive rs
  pub settled : (id : ℕ) → SettledAt id (find_id payment_id id ps) rs

abbrev pub Sound : Db → Type 0
Sound db = IsSound db.payments db.refunds

-- A step that changes one payment, and refunds of that payment only.
pub Sound-step :
    (ps ps' : List Payment) (rs rs' : List Refund) (id : ℕ) (p' : Payment)
    → IsSound ps rs
    → find_id payment_id id ps' ≡ some p'
    → ((j : ℕ) → j ≢ id → find_id payment_id j ps' ≡ find_id payment_id j ps)
    → IsUnique refund_id rs'
    → IsPositive rs'
    → ((j : ℕ)
        → j ≢ id
        → (succeeded_sum j rs' ≡ succeeded_sum j rs) × (flight_sum j rs' ≡ flight_sum j rs))
    → IsSettled p'.status p'.amount_minor (succeeded_sum id rs') (flight_sum id rs')
    → IsSound ps' rs'
Sound-step ps ps' rs rs' id p' sound found others unique positive sums settled = record {
  unique = unique;
  positive = positive;
  settled = λ j. at j;
}
  where
    kept : (j : ℕ) (o : Option Payment) → j ≢ id → SettledAt j o rs → SettledAt j o rs'
    kept j none n s = tt
    kept j (some p) n s = rw ((sums j n).0, (sums j n).1) s

    at : (j : ℕ) → SettledAt j (find_id payment_id j ps') rs'
    at j = elim (Bool-cases (j == id)) [
      | inl same ↦ let e = (nat_beq_iff j id).0 same in rw (e, found) settled
      | inr other ↦
          let n : j ≢ id = λ e. cc (other, (nat_beq_iff j id).1 e) in
          rw (others j n) (kept j (find_id payment_id j ps) n (sound.settled j))
    ]

-- Refunds of any payment never exceed its amount.
pub budget_of_settled :
    (s : PaymentStatus) (amount succeeded flying : ℕ)
    → IsSettled s amount succeeded flying
    → succeeded + flying ≤ amount
budget_of_settled PaymentStatus.refunding amount succeeded flying h = omega arith
budget_of_settled _ amount succeeded flying h = omega arith
