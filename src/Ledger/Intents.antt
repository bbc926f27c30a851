-- ===== src/Ledger/Intents.antt =====
-- `create_refund_intent` of app/services/refund_intents.py, whole.
use coffee_cloud_mvp.Base.{
  ℕ, ◌≡◌, ◌⊎◌, refl, false, Option, none, some, String, inl, inr, nat_eq, subst, sym,
}
use coffee_cloud_mvp.Base.Rows.{find_id-key}
use coffee_cloud_mvp.Store.{
  Db, Payment, Refund, Host, Ensures, done, Ensures-gets, Ensures-guard, Ensures-or_raise,
  Ensures-weaken,
}
use coffee_cloud_mvp.PaymentRepository.{payment_id, find_payment, find_refund_idempotent}
use coffee_cloud_mvp.Refunds.Intents.{RefundIntent, replay_or_open, create_refund_intent}
use coffee_cloud_mvp.Ledger.Sound.{Sound}
use coffee_cloud_mvp.Ledger.Creation.{Opened, open_refund-Ensures}

-- A replay, which changes nothing, or a new intent of a payment that is there.
abbrev pub Created : ℕ → String → Option ℕ → Db → RefundIntent → Db → Type 0
Created id key amount db i db' =
    ((i.created ≡ false) × (db' ≡ db) × (find_refund_idempotent id key db ≡ some i.refund))
    ⊎ ((find_refund_idempotent id key db ≡ none)
        × (p : Payment) × (find_payment id db ≡ some p)
        × Opened p amount db i db')

module _ (host : Host) where
  replay_or_open-Ensures :
      (existing : Option Refund) (payment : Payment) (id : ℕ) (key reason : String)
      (amount : Option ℕ) (digest : Option String) (actor : String) (db : Db)
      → Sound db
      → find_payment id db ≡ some payment
      → find_refund_idempotent id key db ≡ existing
      → Ensures
          (Created id key amount db)
          (replay_or_open host existing payment key reason amount digest actor db)
  unfolding replay_or_open
  replay_or_open-Ensures (some refund) payment id key reason amount digest actor db sound found e =
      Ensures-guard _ _ _ db λ same. done (inl (refl, refl, e))
  replay_or_open-Ensures none payment id key reason amount digest actor db sound found e =
      Ensures-weaken
        (open_refund-Ensures host payment key reason amount digest actor db
          (subst (λ k. find_payment k db ≡ some payment)
            (sym (find_id-key payment_id id db.payments payment found)) found)
          sound)
        λ i db' o. inr (e, payment, found, o)

  -- In a sound database, a returned refund intent is either a replay, which changes nothing and
  -- gives the stored refund of the key, or a new intent under a new key: its payment was
  -- refundable and is REFUNDING now, its refund is REQUESTED, positive, within the unrefunded
  -- amount, and of the amount asked for or of all that is left where none is asked for; no other
  -- payment changes, and the money invariant holds.
  pub create_refund_intent-Ensures :
      (id : ℕ) (key reason : String) (amount : Option ℕ) (digest : Option String) (actor : String)
      (db : Db)
      → Sound db
      → Ensures
          (Created id key amount db)
          (create_refund_intent host id key reason amount digest actor db)
  unfolding create_refund_intent
  create_refund_intent-Ensures id key reason amount digest actor db sound = Ensures-gets _ _ db (
      Ensures-or_raise _ _ _ db λ payment found.
        Ensures-gets _ _ db
          (replay_or_open-Ensures _ payment id key reason amount digest actor db sound found refl))
