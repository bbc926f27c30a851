-- ===== src/Commands/Reports.antt =====
-- What the publish and retry reports of app/services/commands.py leave of the evidence.
use coffee_cloud_mvp.Base.{
  ℕ, ◌≡◌, refl, true, false, Bool, Option, none, some, [], ◌∷◌, String, Json, contains, Bool-cases,
  inl, inr, nat_eq, ◌∙◌,
}
use coffee_cloud_mvp.CommandState.{CommandStatus, command_status_eq, decide_transition}
use coffee_cloud_mvp.ProductionState.Jobs.{job_status_eq}
use coffee_cloud_mvp.Store.{
  Db, Command, CommandOutbox, OutboxStatus, Host, ◌>>◌, pure, Ensures, done, raised, Ensures-bind,
  Ensures-gets, Ensures-modify, Ensures-guard, Ensures-or_raise, Ensures-weaken, or_raise-Ensures,
  Action,
}
use coffee_cloud_mvp.CommandRepository.{find_command, transition_command_row}
use coffee_cloud_mvp.CommandRepository.Outbox.{set_outbox, published_row, retried_row}
use coffee_cloud_mvp.Commands.Service.{
  PublishReply, record_published, advance_published, confirm_publish, publish_locked, published,
  is_published, retry,
}
use coffee_cloud_mvp.Production.Commands.{transition_command}
use coffee_cloud_mvp.Commands.Evidence.{Lasting, Lasting-refl, Lasting-trans, set_outbox-Lasting}

-- The outbox is the same.
abbrev SameOutbox : {A : Type 0} → Db → A → Db → Type 0
SameOutbox db a db' = db'.command_outbox ≡ db.command_outbox

Lasting-SameOutbox : (db db' : Db) → db'.command_outbox ≡ db.command_outbox → Lasting db db'
Lasting-SameOutbox db db' same = record { keyed = λ k. rw same k; sent = λ id s. rw same s }

transition_command-SameOutbox :
    (command : Command) (target : CommandStatus) (actor : String) (reason : Option String)
    (payload : Option Json) (strict : Bool) (db : Db)
    → Ensures (SameOutbox db) (transition_command command target actor reason payload strict db)
unfolding transition_command transition_command_row
transition_command-SameOutbox command target actor reason payload strict db =
    elim (Bool-cases (decide_transition command.status target).duplicate) [
      | inl same ↦ rw same (done refl)
      | inr moves ↦ elim (Bool-cases (decide_transition command.status target).allowed) [
        | inl allowed ↦
            rw (moves, allowed)
              (Ensures-bind {R = SameOutbox db} _ _ db
                (Ensures-modify _ _ db (Ensures-gets _ _ _ (or_raise-Ensures _ _ _ λ a e. refl)))
                λ c db' same. done same)
        | inr refused ↦ elim (Bool-cases strict) [
          | inl hard ↦ rw (moves, refused, hard) raised
          | inr lax ↦ rw (moves, refused, lax) (done refl)
        ]
      ]
    ]

advance_published-SameOutbox :
    (command : Option Command) (db : Db) → Ensures (SameOutbox db) (advance_published command db)
unfolding advance_published
advance_published-SameOutbox none db = done refl
advance_published-SameOutbox (some command) db =
    elim (Bool-cases
      (contains command.status (CommandStatus.created ∷ CommandStatus.delivering ∷ []))) [
        | inl waits ↦ rw waits (
            Ensures-bind _ _ db
              (transition_command-SameOutbox command CommandStatus.published _ _ _ true db)
              λ c db' same. done same)
        | inr other ↦ rw other (done refl)
      ]

record_published-SameOutbox :
    (command : Option Command) (db : Db) → Ensures (SameOutbox db) (record_published command db)
record_published-SameOutbox none db = done refl
record_published-SameOutbox (some command) db = done refl

confirm_publish-Lasting :
    (id : ℕ) (gateway : String) (outbox : CommandOutbox) (db : Db)
    → Ensures (λ r db'. Lasting db db') (confirm_publish id gateway outbox db)
unfolding confirm_publish
confirm_publish-Lasting id gateway outbox db = Ensures-guard _ _ _ db λ held.
    let db1 = set_outbox id (published_row db.clock) db in
    let reports = set_outbox-Lasting id (published_row db.clock) db (λ o. (refl, refl, refl)) in
    Ensures-modify _ _ db (
      Ensures-gets _ _ db1 (
        Ensures-bind _ _ db1 (advance_published-SameOutbox (find_command outbox.command_id db1) db1)
          λ u db2 same2.
            Ensures-bind _ _ db2
              (record_published-SameOutbox (find_command outbox.command_id db1) db2)
              λ u2 db3 same3.
                done
                  (Lasting-trans db db1 db3 reports (Lasting-SameOutbox db1 db3 (same3 ∙ same2)))))

publish_locked-Lasting :
    (id : ℕ) (gateway : String) (command : Option Command) (outbox : CommandOutbox) (db : Db)
    → Ensures (λ r db'. Lasting db db') (publish_locked id gateway command outbox db)
unfolding publish_locked
publish_locked-Lasting id gateway command outbox db = go outbox.status
  where
    go :
        (s : OutboxStatus)
        → Ensures
            (λ r db'. Lasting db db')
            ((elim s as (λ x. Action PublishReply) [
              | OutboxStatus.published ↦ pure (record { duplicate = true; late = false })
              | OutboxStatus.expired ↦
                  record_published command >> pure (record { duplicate = true; late = true })
              | _ ↦ confirm_publish id gateway outbox
            ])
              db)
    go OutboxStatus.published = done (Lasting-refl db)
    go OutboxStatus.expired =
        Ensures-bind _ _ db (record_published-SameOutbox command db)
          λ u db' same. done (Lasting-SameOutbox db db' same)
    go OutboxStatus.pending = confirm_publish-Lasting id gateway outbox db
    go OutboxStatus.retry = confirm_publish-Lasting id gateway outbox db
    go OutboxStatus.publishing = confirm_publish-Lasting id gateway outbox db
    go OutboxStatus.cancelled = confirm_publish-Lasting id gateway outbox db

module _ (wait : Db → Db) (others : (d : Db) → Lasting d (wait d)) where
  pub published-Lasting :
      (id : ℕ) (gateway : String) (db : Db)
      → Ensures (λ r db'. Lasting db db') (published wait id gateway db)
  unfolding published
  published-Lasting id gateway db = Ensures-gets _ _ db (
      Ensures-or_raise _ _ _ db λ located found. Ensures-modify _ _ db (
        Ensures-gets _ _ (wait db) (
          Ensures-gets _ _ (wait db) (
            Ensures-or_raise _ _ _ (wait db) λ outbox locked.
              Ensures-weaken
                (publish_locked-Lasting id gateway (find_command located.command_id (wait db))
                  outbox (wait db))
                λ r db' l. Lasting-trans db (wait db) db' (others db) l))))

  pub retry-Lasting :
      (host : Host) (id : ℕ) (gateway error : String) (db : Db)
      → Ensures (λ r db'. Lasting db db') (retry host wait id gateway error db)
  unfolding retry
  retry-Lasting host id gateway error db = Ensures-gets _ _ db (
      Ensures-guard _ _ _ db λ found. Ensures-modify _ _ db (
        Ensures-gets _ _ (wait db) (
          Ensures-or_raise _ _ _ (wait db) λ row locked. elim (Bool-cases (is_published row)) [
            | inl was ↦ rw was (done (others db))
            | inr open' ↦ rw open' (
                Ensures-guard _ _ _ (wait db) λ held.
                  let f = retried_row (host.clip 1000 error) (wait db).clock in
                  Ensures-modify _ _ (wait db) (
                    done (
                      Lasting-trans db (wait db) (set_outbox id f (wait db)) (others db)
                        (set_outbox-Lasting id f (wait db) (λ o. (refl, refl, refl))))))
          ])))
