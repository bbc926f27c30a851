-- ===== src/Tests/Gateways.antt =====
-- The theorems on gateways, with one command that waits in the outbox.
use coffee_cloud_mvp.Base.{
  ◌≡◌, refl, true, some, [], ◌∷◌, inl, inr, ◌==◌, nat_eq, Bool-cases, subst,
}
use coffee_cloud_mvp.Base.Rows.{some-inj}
use coffee_cloud_mvp.CommandState.{CommandStatus-discrete}
use coffee_cloud_mvp.Store.{Db, CommandOutbox, Ensures, ok, ◌>>=◌}
use coffee_cloud_mvp.CommandRepository.{outbox_for_command}
use coffee_cloud_mvp.CommandRepository.Outbox.{
  leased, set_outbox, claim_outbox, claim_all, claim_one, claim_locked, lease_outbox,
  is_deliverable,
}
use coffee_cloud_mvp.Commands.Service.{claim}
use coffee_cloud_mvp.Commands.Evidence.{Keyed}
use coffee_cloud_mvp.Commands.Expiry.{GatewayPath, claimed-SameRefunds}
use coffee_cloud_mvp.Production.Expiry.{expire_order_for_command}
use coffee_cloud_mvp.Tests.Data.{host, db, command, queued}

-- The command's deadline is to come.
abbrev open_db : Db
open_db = record db { commands = record command { expires_at = some 60 } ∷ [] }

abbrev row : CommandOutbox
row = leased "G" 30 50 queued

abbrev claimed : Db
claimed = set_outbox 40 (leased "G" 30 50) open_db

-- After the deadline.
abbrev past : Db → Db
past d = record d { clock = 70 }

open_db-Keyed : Keyed open_db
open_db-Keyed k o found = elim (Bool-cases (40 == k)) [
  | inl own ↦
      subst (λ x. outbox_for_command x.command_id open_db ≡ some x) (some-inj (rw own at found))
        refl
  | inr other ↦ cc (rw other at found)
]

claims-row : claim (λ k d. d) (λ k. true) 30 "G" 5 open_db ≡ ok (row ∷ [], claimed)
unfolding claim claim_outbox claim_all claim_one claim_locked lease_outbox is_deliverable ◌>>=◌
    CommandStatus-discrete
claims-row = refl

claimed-SameRefunds_example :
    Ensures
      (λ v after. after.refunds ≡ (past claimed).refunds)
      (expire_order_for_command host past 30 claimed)
claimed-SameRefunds_example =
    claimed-SameRefunds host (λ k d. d) (λ k. true) 30 "G" 5 40 (row ∷ []) row open_db claimed
      claimed past open_db-Keyed (λ k d. record { keyed = λ x. x; sent = λ id s. s }) claims-row
      refl GatewayPath.here (record { keyed = λ x. x; sent = λ id s. s })
