-- ===== src/Production/Verdicts.antt =====
-- The verdict of `expire_order_for_command` of app/services/production.py, and what it says of the
-- command's row and its outbox row.
use coffee_cloud_mvp.Base.{
  arith, ◌≤◌, ℕ, ◌≡◌, refl, true, false, Bool, Option, none, some, Bool-cases, inl, inr, ◌⊎◌,
}
use coffee_cloud_mvp.CommandState.{CommandStatus, command_status_eq}
use coffee_cloud_mvp.ProductionState.Orders.{order_status_eq}
use coffee_cloud_mvp.ProductionState.Jobs.{job_status_eq}
use coffee_cloud_mvp.Store.{Db, Command, CommandOutbox, OutboxStatus}
use coffee_cloud_mvp.CommandRepository.{find_command, outbox_for_command}
use coffee_cloud_mvp.Ledger.Sound.{Sound}
use coffee_cloud_mvp.Production.Expiry.{is_claimed, may_be_sent, verdict_of, not_due}

-- The outbox row and the command show nothing of a delivery.
abbrev pub IsFresh : Option CommandOutbox → Type 0
IsFresh none = Unit
IsFresh (some outbox) =
    (outbox.status ≡ OutboxStatus.pending)
    × (outbox.attempt_count ≡ 0)
    × (outbox.published_at ≡ none)

abbrev pub NeverSent : Command → Db → Type 0
NeverSent command db =
    IsFresh (outbox_for_command command.id db)
    × (command.published_at ≡ none)
    × (command.delivered_at ≡ none)

abbrev pub IsDue : Option ℕ → ℕ → Type 0
IsDue none at = ⊥
IsDue (some deadline) at = deadline ≤ at

-- The verdict on a command whose deadline has passed, and the refunds with it.
abbrev pub Verdict : Command → Db → Option CommandStatus → Db → Type 0
Verdict command db v db' =
    Sound db'
    × (((v ≡ some CommandStatus.expired) × NeverSent command db)
        ⊎ ((v ≡ some CommandStatus.unknown)
            × (¬ NeverSent command db)
            × (db'.refunds ≡ db.refunds)))

-- What one expiry leaves: without a verdict the refunds as they were.
abbrev pub Expired : ℕ → Db → Option CommandStatus → Db → Type 0
Expired id db none db' = Sound db' × (db'.refunds ≡ db.refunds)
Expired id db (some verdict) db' =
    (command : Command) × (find_command id db ≡ some command)
    × (command.status ≡ CommandStatus.created)
    × IsDue command.expires_at db.clock
    × Verdict command db (some verdict) db'

is_claimed-IsFresh : (outbox : Option CommandOutbox) → is_claimed outbox ≡ false → IsFresh outbox
is_claimed-IsFresh none e = tt
is_claimed-IsFresh (some outbox) e = ground arith

is_claimed-not-IsFresh :
    (outbox : Option CommandOutbox) → is_claimed outbox ≡ true → ¬ IsFresh outbox
is_claimed-not-IsFresh none e fresh = cc
is_claimed-not-IsFresh (some outbox) e fresh = ground arith

never_sent :
    (command : Command) (db : Db)
    → may_be_sent (outbox_for_command command.id db) command ≡ false
    → NeverSent command db
never_sent command db e = (
  is_claimed-IsFresh (outbox_for_command command.id db) (ground arith),
  ground arith,
  ground arith,
)

was_sent :
    (command : Command) (db : Db)
    → may_be_sent (outbox_for_command command.id db) command ≡ true
    → ¬ NeverSent command db
was_sent command db e (fresh, published, delivered) =
    elim (Bool-cases (is_claimed (outbox_for_command command.id db))) [
      | inl claimed ↦ is_claimed-not-IsFresh (outbox_for_command command.id db) claimed fresh
      | inr unclaimed ↦ ground arith
    ]

pub reached_verdict :
    (evidence : Bool) (command : Command) (db db' : Db)
    → may_be_sent (outbox_for_command command.id db) command ≡ evidence
    → (evidence ≡ false) ⊎ (db'.refunds ≡ db.refunds)
    → ((some (verdict_of evidence) ≡ some CommandStatus.expired) × NeverSent command db)
      ⊎ ((some (verdict_of evidence) ≡ some CommandStatus.unknown)
          × (¬ NeverSent command db)
          × (db'.refunds ≡ db.refunds))
reached_verdict true command db db' e (inl unsent) = cc
reached_verdict true command db db' e (inr kept) = inr (refl, was_sent command db e, kept)
reached_verdict false command db db' e kept = inl (refl, never_sent command db e)

pub not_due-IsDue :
    (expires_at : Option ℕ) (at : ℕ) → not_due expires_at at ≡ false → IsDue expires_at at
not_due-IsDue none at e = cc
not_due-IsDue (some deadline) at e = ground arith

pub Verdict-Expired :
    (v : Option CommandStatus) (id : ℕ) (command : Command) (db db' : Db)
    → find_command id db ≡ some command
    → command.status ≡ CommandStatus.created
    → IsDue command.expires_at db.clock
    → Verdict command db v db'
    → Expired id db v db'
Verdict-Expired none id command db db' found created due (sound, inl h) = cc (h.0)
Verdict-Expired none id command db db' found created due (sound, inr h) = cc (h.0)
Verdict-Expired (some v) id command db db' found created due h = (command, found, created, due, h)
