-- ===== src/Callbacks/Sound.antt =====
-- A paid callback keeps the money invariant, whatever other transactions did while it waited.
use coffee_cloud_mvp.Base.{
  ℕ, ◌+◌, ◌≡◌, refl, true, false, Bool, not, Option, none, some, String, Json, contains, Bool-cases,
  inl, inr, if◌then◌else◌, subst, ◌==◌, nat_eq, string_eq, is_some, any, [], ◌∷◌,
}
use coffee_cloud_mvp.Base.Rows.{find_id-update_self, find_id-update_ne}
use coffee_cloud_mvp.PaymentState.{PaymentStatus, payment_status_eq, PaymentStatus-discrete}
use coffee_cloud_mvp.ProductionState.Orders.{order_status_eq}
use coffee_cloud_mvp.Store.{
  Db, Order, Payment, OutboxRow, Host, or_raise, Ensures, done, Ensures-bind, Ensures-gets,
  Ensures-modify, Ensures-guard, Ensures-weaken,
}
use coffee_cloud_mvp.PaymentRepository.{payment_id, find_payment}
use coffee_cloud_mvp.OrderRepository.{set_orders}
use coffee_cloud_mvp.Transitions.Moves.{transition_payment-Ensures}
use coffee_cloud_mvp.Refunds.Intents.{is_refundable}
use coffee_cloud_mvp.Refunds.Totals.{succeeded_sum, flight_sum}
use coffee_cloud_mvp.Ledger.Sound.{IsSettled, SettledAt, Sound, Sound-step}
use coffee_cloud_mvp.Ledger.Creation.{SameMoney}
use coffee_cloud_mvp.Ledger.Automatic.{ensure_automatic_refund_intent-Sound}
use coffee_cloud_mvp.Callbacks.Confirm.{
  paid_callback_statuses, set_payment, with_trade, with_late_paid, late_paid, record_late_paid,
  record_trade_no, mark_paid, insert_inbox, enqueue_outbox, adopt_primary, ensure_extra_refund,
  refund_late, accept_live, project_paid, dead_order_statuses, is_paid, mark_refunding,
}

-- A payment row rewritten with its money columns as they were.
set_payment-Sound :
    (id : ℕ) (f : Payment → Payment) (db : Db) (p : Payment)
    → ((x : Payment) → (f x).id ≡ x.id)
    → find_payment id db ≡ some p
    → IsSettled
        (f p).status
        (f p).amount_minor
        (succeeded_sum id db.refunds)
        (flight_sum id db.refunds)
    → Sound db
    → Sound (set_payment id f db)
set_payment-Sound id f db p keeps found settled sound =
    Sound-step db.payments (set_payment id f db).payments db.refunds db.refunds id (f p) sound
      (find_id-update_self payment_id f keeps id db.payments p found)
      (λ j n. find_id-update_ne payment_id f keeps j id db.payments n) sound.unique sound.positive
      (λ j n. (refl, refl)) settled

Sound-IsSettled :
    (id : ℕ) (p : Payment) (db : Db)
    → Sound db
    → find_payment id db ≡ some p
    → IsSettled p.status p.amount_minor (succeeded_sum id db.refunds) (flight_sum id db.refunds)
Sound-IsSettled id p db sound found =
    subst (λ o. SettledAt id o db.refunds) found (sound.settled id)

-- The payment that a step hands on is the row of the table.
abbrev pub Held : ℕ → Payment → Db → Type 0
Held id p db' = Sound db' × (find_payment id db' ≡ some p) × (p.id ≡ id)

module _ (payment : Payment) (db : Db) (sound : Sound db)
    (found : find_payment payment.id db ≡ some payment) where
  pub record_trade_no-Ensures :
      (host : Host) (provider : String) (trade : Option String) (values : Json)
      → Ensures (Held payment.id) (record_trade_no host provider trade values payment db)
  unfolding record_trade_no or_raise
  record_trade_no-Ensures host provider none values = done (sound, found, refl)
  record_trade_no-Ensures host provider (some trade) values = Ensures-guard _ _ _ db λ agrees.
      Ensures-gets _ _ db (
        Ensures-guard _ _ _ db λ unused. Ensures-modify _ _ db (
          Ensures-gets _ _ (set_payment payment.id (with_trade trade values db) db) (
            rw
              (
                find_id-update_self payment_id (with_trade trade values db) (λ p. refl) payment.id
                    db.payments payment found,
                or_raise,
              )
              (done (
                set_payment-Sound payment.id (with_trade trade values db) db payment (λ p. refl)
                    found (Sound-IsSettled payment.id payment db sound found) sound,
                find_id-update_self payment_id (with_trade trade values db) (λ p. refl) payment.id
                    db.payments payment found,
                refl,
              )))))

  -- A payment with no money has no refunds, so it may become paid.
  unpaid_sums :
      contains payment.status paid_callback_statuses ≡ false
      → (succeeded_sum payment.id db.refunds ≡ 0) × (flight_sum payment.id db.refunds ≡ 0)
  unfolding PaymentStatus-discrete
  unpaid_sums unpaid =
      unpaid_cases payment.status unpaid (Sound-IsSettled payment.id payment db sound found)
    where
      unpaid_cases :
          (s : PaymentStatus)
          → contains s paid_callback_statuses ≡ false
          → IsSettled s payment.amount_minor
              (succeeded_sum payment.id db.refunds)
              (flight_sum payment.id db.refunds)
          → (succeeded_sum payment.id db.refunds ≡ 0) × (flight_sum payment.id db.refunds ≡ 0)
      unpaid_cases PaymentStatus.paid e h = h
      unpaid_cases PaymentStatus.refunding e h = cc
      unpaid_cases PaymentStatus.partially_refunded e h = cc
      unpaid_cases PaymentStatus.refunded e h = cc
      unpaid_cases _ e h = h

  late_sound :
      (provider : String) (values : Json)
      → contains payment.status paid_callback_statuses ≡ false
      → Ensures
          (λ p db'. Held payment.id p db' × (p.status ≡ PaymentStatus.paid))
          (record_late_paid payment provider values db)
  unfolding record_late_paid or_raise
  late_sound provider values unpaid =
      let f = λ (p : Payment). late_paid (payment.revision + 1) values p db.clock in
      let here =
        find_id-update_self payment_id f (λ p. refl) payment.id db.payments payment found in
      Ensures-modify _ _ db (
        Ensures-gets _ _ (with_late_paid payment provider values db) (
          rw (here, or_raise)
            (done (
              (
                set_payment-Sound payment.id f db payment (λ p. refl) found (unpaid_sums unpaid)
                    sound,
                here,
                refl,
              ),
              refl,
            ))))

  -- The paid fact is recorded, or was before.
  pub mark_paid-Ensures :
      (provider : String) (values : Json)
      → Ensures (λ r db'. Held payment.id r.0 db') (mark_paid payment provider values db)
  unfolding mark_paid
  mark_paid-Ensures provider values =
      elim (Bool-cases (contains payment.status paid_callback_statuses)) [
        | inl known ↦ rw known (done (sound, found, refl))
        | inr unpaid ↦
            elim (Bool-cases
              (contains payment.status (PaymentStatus.closed ∷ PaymentStatus.failed ∷ []))) [
                | inl late ↦
                    rw (unpaid, late)
                      (Ensures-bind _ _ db (late_sound provider values unpaid) λ p db' h. done h.0)
                | inr pending ↦
                    rw (unpaid, pending)
                      (Ensures-weaken
                        (transition_payment-Ensures payment PaymentStatus.paid _ values db found)
                        λ r db' m. (
                          rw m.refunds (
                              Sound-step db.payments db'.payments db.refunds db.refunds payment.id
                                r.0 sound m.found m.others sound.unique sound.positive
                                (λ j n. (refl, refl)) (rw m.status (unpaid_sums unpaid))),
                          m.found,
                          m.same_id,
                        ))
              ]
      ]

-- Steps that leave payments and refunds alone keep the invariant.
pub same-Sound : {A : Type 0} (a : A) (db db' : Db) → SameMoney db a db' → Sound db → Sound db'
same-Sound a db db' same sound = rw (same.0, same.1) sound

pub insert_inbox-Ensures :
    (provider event : String) (id : ℕ) (digest : String) (db : Db)
    → Ensures (SameMoney db) (insert_inbox provider event id digest db)
unfolding insert_inbox
insert_inbox-Ensures provider event id digest db =
    Ensures-gets _ _ db (Ensures-guard _ _ _ db λ fresh. done (refl, refl))

adopt_primary-Ensures :
    (order : Order) (id : ℕ) (db : Db) → Ensures (SameMoney db) (adopt_primary order id db)
unfolding adopt_primary
adopt_primary-Ensures order id db = elim (Bool-cases (is_some order.paid_payment_id)) [
  | inl has ↦ rw has (done (refl, refl))
  | inr free ↦ rw free (Ensures-modify _ _ db (done (refl, refl)))
]

enqueue_outbox-Ensures :
    (row : OutboxRow) (db : Db) → Ensures (SameMoney db) (enqueue_outbox row db)
unfolding enqueue_outbox
enqueue_outbox-Ensures row db =
    elim (Bool-cases (any (λ r. r.idempotency_key == row.idempotency_key) db.outbox)) [
      | inl known ↦ done (rw known, rw known)
      | inr fresh ↦ done (rw fresh, rw fresh)
    ]

module _ (host : Host) where
  ensure_extra_refund-Ensures :
      (payment : Payment) (key reason : String) (db : Db)
      → Sound db
      → Ensures (λ p db'. Sound db') (ensure_extra_refund host payment key reason db)
  unfolding ensure_extra_refund
  ensure_extra_refund-Ensures payment key reason db sound =
      elim (Bool-cases (not (is_refundable payment.status))) [
        | inl closed ↦ rw closed (done sound)
        | inr open' ↦ rw open' (
            Ensures-bind _ _ db
              (ensure_automatic_refund_intent-Sound host payment.id key reason "payment-service" db
                sound)
              λ i db' s. done s)
      ]

  refund_late-Ensures :
      (order : Order) (payment : Payment) (db : Db)
      → Sound db
      → Ensures (λ p db'. Sound db') (refund_late host order payment db)
  unfolding refund_late
  refund_late-Ensures order payment db sound =
      Ensures-bind _ _ db (adopt_primary-Ensures order payment.id db) λ primary db1 same.
        Ensures-modify _ _ db1 (
          ensure_extra_refund-Ensures payment _ _ _
            (marked primary db1 (same-Sound primary db db1 same sound)))
    where
      marked :
          (primary : ℕ) (db1 : Db)
          → Sound db1
          → Sound (
              if primary == payment.id
              then set_orders order.id (mark_refunding db1.clock) db1
              else db1)
      marked primary db1 s = elim (Bool-cases (primary == payment.id)) [
        | inl own ↦ rw own s
        | inr extra ↦ rw extra s
      ]

  accept_live-Ensures :
      (order : Order) (payment : Payment) (db : Db)
      → Sound db
      → Ensures (λ p db'. Sound db') (accept_live host order payment db)
  unfolding accept_live
  accept_live-Ensures order payment db sound =
      Ensures-bind _ _ db (adopt_primary-Ensures order payment.id db) λ primary db1 same.
        let s1 = same-Sound primary db db1 same sound in
        elim (Bool-cases (not (primary == payment.id))) [
          | inl extra ↦ rw extra (ensure_extra_refund-Ensures payment _ _ db1 s1)
          | inr own ↦ elim (Bool-cases (is_paid order.payment_status)) [
            | inl again ↦ rw (own, again) (done s1)
            | inr first ↦
                rw (own, first)
                  (Ensures-modify _ _ db1 (
                    Ensures-bind {R = SameMoney db1} _ _ _ (done (refl, refl)) λ id db2 same2.
                      Ensures-bind _ _ db2 (enqueue_outbox-Ensures _ db2) λ u db3 same3.
                        done (same-Sound u db2 db3 same3 (same-Sound id db1 db2 same2 s1))))
          ]
        ]

  pub project_paid-Ensures :
      (order : Order) (payment : Payment) (duplicate : Bool) (db : Db)
      → Sound db
      → Ensures (λ r db'. Sound db') (project_paid host order payment duplicate db)
  unfolding project_paid
  project_paid-Ensures order payment true db sound = done sound
  project_paid-Ensures order payment false db sound =
      elim (Bool-cases (contains order.status dead_order_statuses)) [
        | inl dead ↦
            rw dead
              (Ensures-bind _ _ db (refund_late-Ensures order payment db sound) λ p db' s. done s)
        | inr live ↦
            rw live
              (Ensures-bind _ _ db (accept_live-Ensures order payment db sound) λ p db' s. done s)
      ]
