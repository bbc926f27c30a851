-- ===== src/Ledger/Creation.antt =====
-- `create_refund_intent` and `ensure_automatic_refund_intent` keep the money invariant.
use coffee_cloud_mvp.Base.{
  nat_beq_iff, subst, sym, ◌∙◌, ℕ, suc, ◌+◌, ◌≤◌, ◌<◌, ◌≡◌, ◌≢◌, refl, true, Bool, Option, none,
  some, List, ◌∷◌, String, arith, ◌==◌, nat_eq, Bool-cases, inl, inr, if◌then◌else◌,
}
use coffee_cloud_mvp.PaymentState.{PaymentStatus, RefundStatus}
use coffee_cloud_mvp.Store.{
  Db, Order, Payment, Refund, Host, Action, ◌>>=◌, Ensures, done, Ensures-bind, Ensures-guard,
  Ensures-gets,
}
use coffee_cloud_mvp.PaymentRepository.{find_payment, refunded_sum}
use coffee_cloud_mvp.PaymentRepository.Effects.{RefundInserted, insert_refund-Ensures}
use coffee_cloud_mvp.OrderRepository.{find_order}
use coffee_cloud_mvp.Transitions.Moves.{PaymentMoved, transition_payment-Ensures}
use coffee_cloud_mvp.Refunds.Intents.{
  RefundIntent, get_or, is_refundable, is_primary, project_on, project_refunding, remaining_budget,
  draw, open_refund,
}
use coffee_cloud_mvp.Refunds.Totals.{succeeded_sum, flight_sum, budget-split}
use coffee_cloud_mvp.Ledger.Sound.{Sound, Sound-step}

-- Only the orders may differ.
abbrev pub SameMoney : {A : Type 0} → Db → A → Db → Type 0
SameMoney db a db' = (db'.payments ≡ db.payments) × (db'.refunds ≡ db.refunds)

project_on-Ensures :
    (order : Option Order) (payment : Payment) (db : Db)
    → Ensures (SameMoney db) (project_on order payment db)
unfolding project_on
project_on-Ensures none payment db = done (refl, refl)
project_on-Ensures (some o) payment db =
    elim (Bool-cases (is_primary o.paid_payment_id payment.id)) [
      | inl primary ↦ rw primary (done (refl, refl))
      | inr extra ↦ rw extra (done (refl, refl))
    ]

project_refunding-Ensures :
    (payment : Payment) (db : Db) → Ensures (SameMoney db) (project_refunding payment db)
unfolding project_refunding ◌>>=◌
project_refunding-Ensures payment db =
    project_on-Ensures (find_order payment.order_id db) payment db

-- A requested refund of another payment adds nothing; one of this payment is in flight.
requested_sums :
    (j : ℕ) (r : Refund) (rs : List Refund)
    → r.status ≡ RefundStatus.requested
    → (succeeded_sum j (r ∷ rs) ≡ succeeded_sum j rs)
      × (flight_sum j (r ∷ rs)
          ≡ (if r.payment_id == j then r.amount_minor else 0) + flight_sum j rs)
unfolding refunded_sum
requested_sums j r rs e = ground arith

-- What a new intent leaves behind, for an amount that is asked for or the whole that is left.
pub record Opened (payment : Payment) (amount : Option ℕ) (db : Db) (i : RefundIntent) (db' : Db)
    : Type 0 where
  pub sound : Sound db'
  pub created : i.created ≡ true
  pub refunding : i.payment.status ≡ PaymentStatus.refunding
  pub same_id : i.payment.id ≡ payment.id
  pub payments :
      (j : ℕ) → find_payment j db' ≡ (if j == payment.id then some i.payment else find_payment j db)
  pub refunds : db'.refunds ≡ i.refund ∷ db.refunds
  pub requested : i.refund.status ≡ RefundStatus.requested
  pub of_payment : i.refund.payment_id ≡ payment.id
  pub positive : 0 < i.refund.amount_minor
  pub covered : i.refund.amount_minor ≤ remaining_budget payment db
  pub asked : i.refund.amount_minor ≡ get_or (remaining_budget payment db) amount
  pub refundable : is_refundable payment.status ≡ true

-- The steps of `open_refund` after its guards: the row, the payment, the order.
module _ (payment : Payment) (amount : ℕ) (key : String) (db db0 db1 db2 db3 : Db) (r : Refund)
    (moved : Payment × Bool) (u : Unit {0}) (same0 : SameMoney db u db0)
    (new : RefundInserted payment amount key db0 r db1)
    (m : PaymentMoved payment PaymentStatus.refunding db1 moved db2)
    (same : SameMoney db2 u db3) where
  opened_payments : (j : ℕ) → j ≢ payment.id → find_payment j db3 ≡ find_payment j db
  opened_payments j n = rw (same.0, m.others j n, new.payments, same0.0)

  opened_refunds : db3.refunds ≡ r ∷ db.refunds
  opened_refunds = cc (same.1, m.refunds, new.refunds, same0.1)

  opened_found : find_payment payment.id db3 ≡ some moved.0
  opened_found = rw same.0 m.found

  opened_table :
      (j : ℕ) → find_payment j db3 ≡ (if j == payment.id then some moved.0 else find_payment j db)
  opened_table j = elim (Bool-cases (j == payment.id)) [
    | inl own ↦ rw own (
        subst (λ k. find_payment k db3 ≡ some moved.0) (sym ((nat_beq_iff j payment.id).0 own))
          opened_found)
    | inr other ↦ rw other (opened_payments j (λ e. cc (other, (nat_beq_iff j payment.id).1 e)))
  ]

  opened-Sound : Sound db → amount ≤ remaining_budget payment db → Sound db3
  opened-Sound sound fits = rw opened_refunds (
      Sound-step db.payments db3.payments db.refunds (r ∷ db.refunds) payment.id moved.0 sound
        opened_found opened_payments (rw (← same0.1) new.fresh, sound.unique)
        (rw new.amount_kept new.positive, sound.positive)
        (λ j n.
          let s = requested_sums j r db.refunds new.requested in ground (arith, new.of_payment))
        (let s = requested_sums payment.id r db.refunds new.requested in
          rw m.status (
            ground (
              arith,
              new.of_payment,
              new.positive,
              new.amount_kept,
              m.same_amount,
              budget-split payment.id db.refunds,
            ))))

  opened :
      Sound db
      → amount ≤ remaining_budget payment db
      → (minor : Option ℕ) → amount ≡ get_or (remaining_budget payment db) minor
      → is_refundable payment.status ≡ true
      → Opened payment minor db (record { refund = r; created = true; payment = moved.0 }) db3
  opened sound fits minor asked refundable = record {
    sound = opened-Sound sound fits;
    created = refl;
    refunding = m.status;
    same_id = m.same_id;
    payments = opened_table;
    refunds = opened_refunds;
    requested = new.requested;
    of_payment = new.of_payment;
    positive = rw new.amount_kept new.positive;
    covered = rw new.amount_kept fits;
    asked = new.amount_kept ∙ asked;
    refundable = refundable;
  }

pub Ensures-draw :
    {B : Type 0} {Q : B → Db → Type 0} (host : Host) (k : ℕ → Action B) (db : Db)
    → Ensures Q (k (host.uuid db.drawn) (record db { drawn = suc db.drawn }))
    → Ensures Q ((draw host >>= k) db)
unfolding ◌>>=◌
Ensures-draw host k db h = h

module _ (host : Host) where
  pub open_refund-Ensures :
      (payment : Payment) (key reason : String) (amount_minor : Option ℕ) (digest : Option String)
      (actor : String) (db : Db)
      → find_payment payment.id db ≡ some payment
      → Sound db
      → Ensures
          (Opened payment amount_minor db)
          (open_refund host payment key reason amount_minor digest actor db)
  unfolding open_refund
  open_refund-Ensures payment key reason amount_minor digest actor db found sound =
      Ensures-guard _ _ _ db λ refundable. Ensures-gets _ _ db (
        Ensures-guard _ _ _ db λ fits. Ensures-draw host _ db (
          Ensures-draw host _ _ (
            Ensures-bind _ _ _ (insert_refund-Ensures _ payment _ key _ _ reason _) λ r db1 new.
              Ensures-bind _ _ db1
                (transition_payment-Ensures payment PaymentStatus.refunding actor _ db1
                  (rw new.payments found))
                λ moved db2 m.
                  Ensures-bind _ _ db2 (project_refunding-Ensures moved.0 db2) λ u db3 same. done (
                    opened payment _ key db (record db { drawn = suc (suc db.drawn) }) db1 db2 db3 r
                      moved u (refl, refl) new m same sound (ground arith) amount_minor refl
                      (ground arith)))))
