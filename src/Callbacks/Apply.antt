-- ===== src/Callbacks/Apply.antt =====
-- `apply_paid_callback` of app/payment_service.py, whole.
use coffee_cloud_mvp.Base.{
  ℕ, ◌≡◌, refl, Option, none, some, String, ◌==◌, string_eq, nat_eq, nat_beq_iff, subst, sym, arith,
  Bool-cases, inl, inr,
}
use coffee_cloud_mvp.Base.Rows.{find_id-key}
use coffee_cloud_mvp.Store.{
  Db, Order, Payment, InboxRow, Host, Result, ok, err, raise_if, Ensures, done, raised,
  Ensures-bind, Ensures-gets, Ensures-modify, Ensures-guard, Ensures-or_raise, Ensures-weaken,
}
use coffee_cloud_mvp.PaymentRepository.{payment_id, find_payment}
use coffee_cloud_mvp.Ledger.Sound.{Sound}
use coffee_cloud_mvp.Callbacks.Amounts.{Values, callback_amount_minor}
use coffee_cloud_mvp.Callbacks.Confirm.{
  find_inbox, find_merchant, confirm, replay, confirm_once, parse_amount, check_amount, apply_new,
  answer_known, apply_paid_callback,
}
use coffee_cloud_mvp.Callbacks.Sound.{
  record_trade_no-Ensures, mark_paid-Ensures, insert_inbox-Ensures, project_paid-Ensures,
  same-Sound,
}

-- The amount of the callback is that of a payment of the channel.
abbrev pub AmountMatches : Host → Values → String → Db → Type 0
AmountMatches host values provider db =
    (number : String) × (p : Payment) × (find_merchant provider number db ≡ some p)
    × (callback_amount_minor host values ≡ ok (some p.amount_minor))

module _ (host : Host) where
  confirm-Ensures :
      (provider event : String) (values : Values) (digest : String) (order : Order)
      (payment : Payment) (db : Db)
      → Sound db
      → find_payment payment.id db ≡ some payment
      → Ensures (λ r db'. Sound db') (confirm host provider event values digest order payment db)
  unfolding confirm
  confirm-Ensures provider event values digest order payment db sound found =
      Ensures-bind _ _ db (record_trade_no-Ensures payment db sound found host provider _ _)
        λ traded db1 h1.
          Ensures-bind _ _ db1
            (mark_paid-Ensures traded db1 h1.0
              (subst (λ k. find_payment k db1 ≡ some traded) (sym h1.2) h1.1) provider _)
            λ r db2 h2.
              Ensures-bind _ _ db2 (insert_inbox-Ensures provider event r.0.id digest db2)
                λ u db3 same.
                  project_paid-Ensures host order r.0 r.1 db3 (same-Sound u db2 db3 same h2.0)

  confirm_once-Ensures :
      (existing : Option InboxRow) (provider event : String) (values : Values) (digest : String)
      (order : Order) (payment : Payment) (db : Db)
      → Sound db
      → find_payment payment.id db ≡ some payment
      → Ensures
          (λ r db'. Sound db')
          (confirm_once host existing provider event values digest order payment db)
  unfolding confirm_once replay
  confirm_once-Ensures (some row) provider event values digest order payment db sound found =
      Ensures-guard _ _ _ db λ same. done sound
  confirm_once-Ensures none provider event values digest order payment db sound found =
      confirm-Ensures provider event values digest order payment db sound found

  parse_amount-Ensures :
      (values : Values) (db : Db)
      → Ensures
          (λ a db'. (db' ≡ db) × (callback_amount_minor host values ≡ ok a))
          (parse_amount host values db)
  parse_amount-Ensures values db = go (callback_amount_minor host values) refl
    where
      go :
          (r : Result (Option ℕ))
          → callback_amount_minor host values ≡ r
          → Ensures
              (λ a db'. (db' ≡ db) × (callback_amount_minor host values ≡ ok a))
              (elim r [ ok amount ↦ ok (amount, db) | err e ↦ err e ])
      go (ok a) e = done (refl, e)
      go (err x) e = raised

  check_amount-Ensures :
      (a : Option ℕ) (expected : ℕ) (db : Db)
      → Ensures (λ u db'. (db' ≡ db) × (a ≡ some expected)) (check_amount host a expected db)
  unfolding check_amount raise_if
  check_amount-Ensures none expected db = raised
  check_amount-Ensures (some a) expected db = elim (Bool-cases (a == expected)) [
    | inl same ↦ rw same (done (refl, ground (arith, nat_beq_iff a expected)))
    | inr differs ↦ rw differs raised
  ]

  apply_new-Ensures :
      (wait : Db → Db) (provider event : String) (values : Values) (digest : String) (db : Db)
      → ((d : Db) → Sound d → Sound (wait d))
      → Sound db
      → Ensures
          (λ r db'. Sound db' × AmountMatches host values provider db)
          (apply_new host wait provider event values digest db)
  unfolding apply_new
  apply_new-Ensures wait provider event values digest db keeps sound = Ensures-gets _ _ db (
      Ensures-or_raise _ _ _ db λ candidate located.
        Ensures-bind _ _ db (parse_amount-Ensures values db) λ amount db1 parsed.
          Ensures-bind _ _ db1 (check_amount-Ensures amount candidate.amount_minor db1)
            λ u db2 checked.
              let s : Sound (wait db2) = keeps db2 (rw (checked.0, parsed.0) sound) in
              Ensures-modify _ _ db2 (
                Ensures-gets _ _ (wait db2) (
                  Ensures-or_raise _ _ _ (wait db2) λ order locked. Ensures-gets _ _ (wait db2) (
                    Ensures-or_raise _ _ _ (wait db2) λ payment again. Ensures-gets _ _ (wait db2) (
                      Ensures-weaken
                        (confirm_once-Ensures _ provider event values digest order payment
                          (wait db2) s
                          (subst (λ k. find_payment k (wait db2) ≡ some payment)
                            (sym (
                              find_id-key payment_id candidate.id (wait db2).payments payment
                                again))
                            again))
                        λ r db' s'. (s', (_, candidate, located, rw (parsed.1, checked.1))))))))

  -- For a provider event that was not processed before, in a sound database and for any sound
  -- work of other transactions while the callback waits for its row locks: if the call returns,
  -- the money invariant holds after it, and the channel has a payment of exactly the callback's
  -- amount.
  pub apply_paid_callback-Ensures :
      (wait : Db → Db) (provider event : String) (values : Values) (db : Db)
      → ((d : Db) → Sound d → Sound (wait d))
      → Sound db
      → find_inbox provider event db ≡ none
      → Ensures
          (λ r db'. Sound db' × AmountMatches host values provider db)
          (apply_paid_callback host wait provider event values db)
  unfolding apply_paid_callback answer_known
  apply_paid_callback-Ensures wait provider event values db keeps sound fresh =
      Ensures-gets _ _ db (
        rw fresh (
          Ensures-bind _ _ db (apply_new-Ensures wait provider event values _ db keeps sound)
            λ r db' h. done h))
