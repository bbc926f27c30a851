-- ===== src/DeviceEvents/NewRefunds.antt =====
-- What the writes of a device event, `create_automatic_refund_record` of
-- app/services/production.py included, do to the refunds.
use coffee_cloud_mvp.Base.{
  ℕ, ◌+◌, ◌≡◌, ◌⊎◌, String, refl, sym, subst, ◌∙◌, Option, none, some, ◌∷◌, inl, inr,
}
use coffee_cloud_mvp.Base.Rows.{find_id-key}
use coffee_cloud_mvp.PaymentState.{RefundStatus}
use coffee_cloud_mvp.ProductionState.Jobs.{JobEvent}
use coffee_cloud_mvp.Store.{Db, Payment, Refund}
use coffee_cloud_mvp.PaymentRepository.{payment_id, find_payment, refunded_total}
use coffee_cloud_mvp.Refunds.Intents.{RefundIntent, budget_statuses}
use coffee_cloud_mvp.Ledger.Sound.{Sound}
use coffee_cloud_mvp.Ledger.Creation.{SameMoney}
use coffee_cloud_mvp.Ledger.Automatic.{IsRefundable, Automatic}
use coffee_cloud_mvp.Callbacks.Sound.{same-Sound}
use coffee_cloud_mvp.DeviceEvents.Replies.{EventType}

-- The task events after which production is refunded.
abbrev pub IsRefunding : EventType → Type 0
IsRefunding type =
    (type ≡ EventType.task JobEvent.failed)
    ⊎ (type ≡ EventType.task JobEvent.rejected)
    ⊎ (type ≡ EventType.task JobEvent.cancelled)

-- One more refund: a requested one of a refundable payment, of all that is left of its amount.
pub record NewRefund (db db' : Db) : Type 0 where
  pub payment : Payment
  pub refund : Refund
  pub payment_found : find_payment payment.id db ≡ some payment
  pub refundable : IsRefundable payment.status
  pub added : db'.refunds ≡ refund ∷ db.refunds
  pub of_payment : refund.payment_id ≡ payment.id
  pub requested : refund.status ≡ RefundStatus.requested
  pub whole :
      refund.amount_minor + refunded_total payment.id budget_statuses db ≡ payment.amount_minor

-- The refunds of another database, or one more.
abbrev pub Refunds : Db → Db → Type 0
Refunds db db' = (db'.refunds ≡ db.refunds) ⊎ NewRefund db db'

-- The same, where a new refund is for a refunding event, in a sound database.
abbrev pub Kept : {A : Type 0} → EventType → Db → A → Db → Type 0
Kept type db a db' =
    Sound db' × ((db'.refunds ≡ db.refunds) ⊎ (IsRefunding type × NewRefund db db'))

pub Automatic-Refunds :
    (i : Option RefundIntent) (id : ℕ) (key : String) (db db' : Db)
    → Automatic id key db i db'
    → Sound db' × Refunds db db'
Automatic-Refunds none id key db db' a = (a.0, inl (rw a.1 refl))
Automatic-Refunds (some i) id key db db' (s, p, found, paid, inl (e, same, stored)) =
    (s, inl (rw same refl))
Automatic-Refunds (some i) id key db db' (s, p, found, paid, inr (fresh, o, sum)) =
    let own : p.id ≡ id = find_id-key payment_id id db.payments p found in
    (
      s,
      inr (record {
        payment = p;
        refund = i.refund;
        payment_found = subst (λ k. find_payment k db ≡ some p) (sym own) found;
        refundable = paid;
        added = o.refunds;
        of_payment = o.of_payment;
        requested = o.requested;
        whole =
            subst
              (λ k. i.refund.amount_minor + refunded_total k budget_statuses db ≡ p.amount_minor)
              (sym own) sum;
      }),
    )

pub Refunds-Kept :
    (type : EventType) (u : Unit {0}) (db db' : Db)
    → IsRefunding type
    → Sound db' × Refunds db db'
    → Kept type db u db'
Refunds-Kept type u db db' t (s, inl same) = (s, inl same)
Refunds-Kept type u db db' t (s, inr new) = (s, inr (t, new))

-- Where no statement before and after it touches the payments and the refunds.
NewRefund-between :
    (u : Unit {0}) (db0 db1 db2 db3 : Db)
    → SameMoney db0 u db1
    → SameMoney db2 u db3
    → NewRefund db1 db2
    → NewRefund db0 db3
NewRefund-between u db0 db1 db2 db3 before later n = record {
  payment = n.payment;
  refund = n.refund;
  payment_found = rw (← before.0) n.payment_found;
  refundable = n.refundable;
  added = later.1 ∙ n.added ∙ rw before.1 refl;
  of_payment = n.of_payment;
  requested = n.requested;
  whole = rw (← before.1) n.whole;
}

pub Kept-between :
    (type : EventType) (u : Unit {0}) (db0 db1 db2 db3 : Db)
    → SameMoney db0 u db1
    → SameMoney db2 u db3
    → Kept type db1 u db2
    → Kept type db0 u db3
Kept-between type u db0 db1 db2 db3 before later (s, inl same) =
    (same-Sound u db2 db3 later s, inl (later.1 ∙ same ∙ before.1))
Kept-between type u db0 db1 db2 db3 before later (s, inr (t, n)) =
    (same-Sound u db2 db3 later s, inr (t, NewRefund-between u db0 db1 db2 db3 before later n))
