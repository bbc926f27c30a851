-- ===== src/Commands/Service.antt =====
-- app/services/commands.py: `CommandService.claim`, `published` and `retry`. The argument `wait`
-- is what other transactions commit between the unlocked search for the outbox row and the row
-- locks.
use coffee_cloud_mvp.Base.{
  ℕ, Bool, true, false, not, ◌||◌, Option, none, some, List, [], ◌∷◌, String, if◌then◌else◌, ◌==◌,
  string_eq, contains, is_some,
}
use coffee_cloud_mvp.CommandState.{CommandStatus, command_status_eq, CommandStatus-discrete}
use coffee_cloud_mvp.Store.{
  Db, Command, CommandOutbox, OutboxStatus, Host, Action, ◌>>=◌, ◌>>◌, pure, raise_if, gets,
  or_raise, modify, http, none_row,
}
use coffee_cloud_mvp.CommandRepository.{find_command}
use coffee_cloud_mvp.CommandRepository.Outbox.{
  find_outbox, claim_outbox, mark_published, mark_retry, set_published_at,
}
use coffee_cloud_mvp.Production.Commands.{transition_command}

-- The answer of a publish report: `{"ok": true, "duplicate": ..., "late": ...}`.
pub record PublishReply : Type 0 where
  pub duplicate : Bool
  pub late : Bool

abbrev fresh : PublishReply
fresh = record { duplicate = false; late = false }

abbrev known : PublishReply
known = record { duplicate = true; late = false }

abbrev too_late : PublishReply
too_late = record { duplicate = true; late = true }

unfoldable pub claim : (ℕ → Db → Db) → (ℕ → Bool) → ℕ → String → ℕ → Action (List CommandOutbox)
claim wait free lease_seconds gateway limit = claim_outbox wait free gateway limit lease_seconds

-- `row["locked_by"] == gateway_id`
abbrev pub holds_lease : String → CommandOutbox → Bool
holds_lease gateway outbox = elim outbox.locked_by [
  | none ↦ false
  | some holder ↦ holder == gateway
]

abbrev pub is_publishing : CommandOutbox → Bool
is_publishing outbox = elim outbox.status [ OutboxStatus.publishing ↦ true | _ ↦ false ]

-- `if command: repository.set_published_at(command["id"])`
abbrev pub record_published : Option Command → Action (Unit {0})
record_published none = pure tt
record_published (some command) = set_published_at command.id

-- `if command and command["status"] in {CREATED, DELIVERING}`
unfoldable pub advance_published : Option Command → Action (Unit {0})
unfolding CommandStatus-discrete
advance_published none = pure tt
advance_published (some command) =
    if contains command.status (CommandStatus.created ∷ CommandStatus.delivering ∷ [])
    then (do
      transition_command command CommandStatus.published "mqtt-gateway" (some "broker PUBACK") none
          true
      pure tt)
    else pure tt

unfoldable pub confirm_publish : ℕ → String → CommandOutbox → Action PublishReply
confirm_publish id gateway outbox = do
  raise_if (not (is_publishing outbox) || not (holds_lease gateway outbox))
      (http 409 "command publish lease mismatch")
  mark_published id
  command ← gets (find_command outbox.command_id)
  advance_published command
  record_published command
  pure fresh

-- Under the locks of the command and of its outbox row.
unfoldable pub publish_locked : ℕ → String → Option Command → CommandOutbox → Action PublishReply
publish_locked id gateway command outbox = elim outbox.status [
  | OutboxStatus.published ↦ pure known
  | OutboxStatus.expired ↦ record_published command >> pure too_late
  | _ ↦ confirm_publish id gateway outbox
]

unfoldable pub published : (Db → Db) → ℕ → String → Action PublishReply
published wait id gateway = do
  found ← gets (find_outbox id)
  located ← or_raise (http 404 "command outbox item not found") found
  modify wait
  command ← gets (find_command located.command_id)
  locked ← gets (find_outbox id)
  outbox ← or_raise none_row locked
  publish_locked id gateway command outbox

abbrev pub is_published : CommandOutbox → Bool
is_published outbox = elim outbox.status [ OutboxStatus.published ↦ true | _ ↦ false ]

unfoldable pub retry : Host → (Db → Db) → ℕ → String → String → Action PublishReply
retry host wait id gateway error = do
  located ← gets (find_outbox id)
  raise_if (not (is_some located)) (http 404 "command outbox item not found")
  modify wait
  locked ← gets (find_outbox id)
  row ← or_raise none_row locked
  if is_published row then pure known else (do
    raise_if (not (holds_lease gateway row)) (http 409 "command publish lease mismatch")
    mark_retry id (host.clip 1000 error)
    pure fresh)
