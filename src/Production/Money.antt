-- ===== src/Production/Money.antt =====
-- The money invariant and the refunds over `expire_order_for_command` of app/services/production.py.
use coffee_cloud_mvp.Base.{
  arith, if◌then◌else◌, ℕ, ◌≡◌, refl, true, false, Bool, Option, none, some, String, Json, contains,
  Bool-cases, inl, inr, ◌⊎◌, ◌==◌, [], ◌∷◌,
}
use coffee_cloud_mvp.CommandState.{
  CommandStatus, command_status_eq, CommandStatus-discrete, decide_transition,
}
use coffee_cloud_mvp.ProductionState.Orders.{OrderStatus, order_status_eq, order_transition_allowed}
use coffee_cloud_mvp.ProductionState.Jobs.{JobStatus, job_status_eq}
use coffee_cloud_mvp.Store.{
  Db, Order, Job, Command, CommandOutbox, Host, ◌>>=◌, pure, gets, Ensures, done, raised,
  Ensures-bind, Ensures-gets, Ensures-modify, or_raise-Ensures, Ensures-weaken,
}
use coffee_cloud_mvp.OrderRepository.{update_transition_state}
use coffee_cloud_mvp.CommandRepository.{
  find_command, outbox_for_command, transition_command_row, terminalize_outbox,
}
use coffee_cloud_mvp.Transitions.Orders.{apply_transition, transition_order}
use coffee_cloud_mvp.Ledger.Sound.{Sound}
use coffee_cloud_mvp.Ledger.Creation.{SameMoney}
use coffee_cloud_mvp.Ledger.Automatic.{ensure_automatic_refund_intent-Sound}
use coffee_cloud_mvp.Callbacks.Sound.{same-Sound}
use coffee_cloud_mvp.Production.Verdicts.{
  Verdict, Expired, reached_verdict, not_due-IsDue, Verdict-Expired,
}
use coffee_cloud_mvp.Production.Commands.{transition_command}
use coffee_cloud_mvp.Production.Expiry.{
  is_claimed, may_be_sent, verdict_of, not_due, withdraw, hold_sent, paying, has_refundable,
  refund_paying, expire_unsent, expire_job, expire_due, expire_current, expire_order_for_command,
}

pub transition_order-Ensures :
    (order : Order) (target : OrderStatus) (actor : String) (reason : Option String)
    (payload : Option Json) (db : Db)
    → Ensures (SameMoney db) (transition_order order target actor reason payload db)
unfolding transition_order apply_transition update_transition_state
transition_order-Ensures order target actor reason payload db =
    elim (Bool-cases (order.status == target)) [
      | inl same ↦ rw same (done (refl, refl))
      | inr moves ↦ elim (Bool-cases (order_transition_allowed order.status target)) [
        | inr refused ↦ rw (moves, refused) (done (refl, refl))
        | inl allowed ↦
            rw (moves, allowed)
              (Ensures-gets _ _ db (
                Ensures-gets _ _ db (
                  Ensures-bind {R = SameMoney db} _ _ db
                    (Ensures-modify _ _ db
                      (Ensures-gets _ _ _ (or_raise-Ensures _ _ _ λ a e. (refl, refl))))
                    λ o db' same. Ensures-modify _ _ db' (done same))))
      ]
    ]

pub transition_command-Ensures :
    (command : Command) (target : CommandStatus) (actor : String) (reason : Option String)
    (payload : Option Json) (strict : Bool) (db : Db)
    → Ensures (SameMoney db) (transition_command command target actor reason payload strict db)
unfolding transition_command transition_command_row
transition_command-Ensures command target actor reason payload strict db =
    elim (Bool-cases (decide_transition command.status target).duplicate) [
      | inl same ↦ rw same (done (refl, refl))
      | inr moves ↦ elim (Bool-cases (decide_transition command.status target).allowed) [
        | inl allowed ↦
            rw (moves, allowed)
              (Ensures-bind {R = SameMoney db} _ _ db
                (Ensures-modify _ _ db
                  (Ensures-gets _ _ _ (or_raise-Ensures _ _ _ λ a e. (refl, refl))))
                λ c db' same. done same)
        | inr refused ↦ elim (Bool-cases strict) [
          | inl hard ↦ rw (moves, refused, hard) raised
          | inr lax ↦ rw (moves, refused, lax) (done (refl, refl))
        ]
      ]
    ]

pub withdraw-Ensures :
    (outbox : Option CommandOutbox) (db : Db) → Ensures (SameMoney db) (withdraw outbox db)
unfolding withdraw terminalize_outbox
withdraw-Ensures none db = done (refl, refl)
withdraw-Ensures (some outbox) db = elim (Bool-cases (is_claimed (some outbox))) [
  | inl claimed ↦ rw claimed (done (refl, refl))
  | inr fresh ↦ rw fresh (done (refl, refl))
]

pub hold_sent-Ensures :
    (order : Order) (job : Job) (command : Command) (db : Db)
    → Ensures (SameMoney db) (hold_sent order job command db)
unfolding hold_sent
hold_sent-Ensures order job command db = Ensures-modify _ _ db (
    Ensures-modify _ _ _ (
      Ensures-bind _ _ _ (transition_order-Ensures order OrderStatus.hold _ _ _ _)
        λ o db' same. done same))

-- A sound database, whose refunds changed only where the command was never sent.
abbrev Unsent : Bool → Db → Unit {0} → Db → Type 0
Unsent evidence db u db' = Sound db' × ((evidence ≡ false) ⊎ (db'.refunds ≡ db.refunds))

module _ (host : Host) where
  expire_unsent-Ensures :
      (order : Order) (job : Job) (command : Command) (db : Db)
      → Sound db
      → Ensures (λ u db'. Sound db') (expire_unsent host order job command db)
  unfolding expire_unsent refund_paying
  expire_unsent-Ensures order job command db sound = Ensures-modify _ _ db (
      Ensures-modify _ _ _ (
        Ensures-bind _ _ _ (transition_order-Ensures order OrderStatus.expired _ _ _ _)
          λ o db1 same. refund db1 (same-Sound o db db1 same sound)))
    where
      pay :
          (primary : Option ℕ) (db1 : Db)
          → Sound db1
          → Ensures (λ u db'. Sound db') (refund_paying host order primary db1)
      pay none db1 s = done s
      pay (some id) db1 s =
          Ensures-bind _ _ db1 (ensure_automatic_refund_intent-Sound host id _ _ _ db1 s)
            λ i db2 s2. done s2

      refund :
          (db1 : Db)
          → Sound db1
          → Ensures
              (λ u db'. Sound db')
              ((if has_refundable order.payment_status
                  then (gets (paying order) >>= λ primary. refund_paying host order primary)
                  else pure tt)
                db1)
      refund db1 s = elim (Bool-cases (has_refundable order.payment_status)) [
        | inl paid ↦ rw paid (Ensures-gets _ _ db1 (pay (paying order db1) db1 s))
        | inr free ↦ rw free (done s)
      ]

  expire_job-Ensures :
      (order : Option Order) (job : Option Job) (evidence : Bool) (command : Command) (db : Db)
      → Sound db
      → Ensures (Unsent evidence db) (expire_job host order job evidence command db)
  unfolding expire_job
  expire_job-Ensures none job evidence command db sound = done (sound, inr refl)
  expire_job-Ensures (some order) none evidence command db sound = done (sound, inr refl)
  expire_job-Ensures (some order) (some job) evidence command db sound =
      elim (Bool-cases (contains job.status (JobStatus.dispatched ∷ JobStatus.queued ∷ []))) [
        | inr alone ↦ rw alone (done (sound, inr refl))
        | inl waits ↦ elim (Bool-cases evidence) [
          | inl sent ↦
              rw (waits, sent)
                (Ensures-weaken (hold_sent-Ensures order job command db)
                  λ u db' same. (same-Sound u db db' same sound, inr same.1))
          | inr unsent ↦
              rw (waits, unsent)
                (Ensures-weaken (expire_unsent-Ensures order job command db sound)
                  λ u db' s. (s, inl refl))
        ]
      ]

  expire_due-Ensures :
      (order : Option Order) (job : Option Job) (command : Command) (db : Db)
      → Sound db
      → Ensures (Verdict command db) (expire_due host order job command db)
  unfolding expire_due
  expire_due-Ensures order job command db sound =
      let evidence = may_be_sent (outbox_for_command command.id db) command in
      Ensures-gets _ _ db (
        Ensures-bind _ _ db (withdraw-Ensures (outbox_for_command command.id db) db) λ u db1 same1.
          Ensures-bind _ _ db1
            (expire_job-Ensures order job evidence command db1 (same-Sound u db db1 same1 sound))
            λ u2 db2 h.
              Ensures-bind _ _ db2
                (transition_command-Ensures command (verdict_of evidence) _ _ _ true db2)
                λ c db3 same3. done (
                  same-Sound c db2 db3 same3 h.0,
                  reached_verdict evidence command db db3 refl (elim h.1 [
                    | inl unsent ↦ inl unsent
                    | inr kept ↦ inr (cc (kept, same1.1, same3.1))
                  ]),
                ))

  expire_current-Ensures :
      (id : ℕ) (order : Option Order) (job : Option Job) (current : Option Command) (db : Db)
      → Sound db
      → find_command id db ≡ current
      → Ensures (Expired id db) (expire_current host order job current db)
  unfolding expire_current CommandStatus-discrete
  expire_current-Ensures id order job none db sound found = done (sound, refl)
  expire_current-Ensures id order job (some command) db sound found =
      elim (Bool-cases (command.status == CommandStatus.created)) [
        | inr moved ↦ rw moved (done (sound, refl))
        | inl waiting ↦ rw waiting (
            Ensures-gets _ _ db (elim (Bool-cases (not_due command.expires_at db.clock)) [
              | inl early ↦ rw early (done (sound, refl))
              | inr due ↦ rw due (
                  Ensures-weaken (expire_due-Ensures order job command db sound) λ v db' h.
                    Verdict-Expired v id command db db' found (ground arith)
                      (not_due-IsDue command.expires_at db.clock due) h)
            ]))
      ]

  -- In a sound database and for any sound work of other transactions before the row locks, if
  -- the expiry returns, the money invariant holds after it. Without a verdict the refunds are
  -- those found under the locks. A verdict falls only on a CREATED command whose deadline has
  -- passed: it is EXPIRED, and then the locked rows show nothing of a delivery (an outbox row,
  -- if there is one, that is pending with no attempt and no publication, and a command neither
  -- published nor delivered), or it is UNKNOWN, and then they do show something and the refunds
  -- are those found under the locks.
  pub expire_order_for_command-Ensures :
      (wait : Db → Db) (id : ℕ) (db : Db)
      → ((d : Db) → Sound d → Sound (wait d))
      → Sound db
      → Ensures (Expired id (wait db)) (expire_order_for_command host wait id db)
  unfolding expire_order_for_command
  expire_order_for_command-Ensures wait id db keeps sound = Ensures-gets _ _ db (
      Ensures-modify _ _ db (
        Ensures-gets _ _ _ (
          Ensures-gets _ _ _ (
            Ensures-gets _ _ _ (expire_current-Ensures id _ _ _ (wait db) (keeps db sound) refl)))))
