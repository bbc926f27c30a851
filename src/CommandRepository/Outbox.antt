-- ===== src/CommandRepository/Outbox.antt =====
-- app/repositories/commands.py: the statements of `CommandRepository` on the command outbox,
-- and the claim of a gateway. Other transactions commit between the statements of a claim:
-- `wait id` is what they did before the locks of candidate `id`, and `free` tells which rows
-- they do not hold (`for update skip locked`).
use coffee_cloud_mvp.Base.{
  ℕ, ◌+◌, ◌^◌, min, true, false, Bool, ◌&&◌, ◌||◌, Option, none, some, List, [], ◌∷◌, String,
  if◌then◌else◌, ◌==◌, nat_eq, ltb, leb, contains, coalesce, find_id, update_id, select, sort_by,
  take,
}
use coffee_cloud_mvp.CommandState.{CommandStatus, command_status_eq, CommandStatus-discrete}
use coffee_cloud_mvp.Store.{
  Db, Command, CommandOutbox, OutboxStatus, Action, ◌>>=◌, ◌>>◌, pure, gets, modify, now,
}
use coffee_cloud_mvp.CommandRepository.{command_id, outbox_id, find_command}

-- `find_outbox` and `outbox`
abbrev pub find_outbox : ℕ → Db → Option CommandOutbox
find_outbox id db = find_id outbox_id id db.command_outbox

abbrev pub set_outbox : ℕ → (CommandOutbox → CommandOutbox) → Db → Db
set_outbox id f db = record db { command_outbox = update_id outbox_id id f db.command_outbox }

-- `DELIVERABLE_COMMAND_STATES`
abbrev pub deliverable_states : List CommandStatus
deliverable_states = CommandStatus.created ∷ CommandStatus.delivering ∷ []

-- `expires_at is null or expires_at > now()`
abbrev pub before_deadline : Option ℕ → ℕ → Bool
before_deadline none at = true
before_deadline (some t) at = ltb at t

unfoldable pub is_deliverable : Command → ℕ → Bool
unfolding CommandStatus-discrete
is_deliverable command at =
    contains command.status deliverable_states && before_deadline command.expires_at at

-- `locked_until < now()`, which a null does not meet.
abbrev pub is_past : Option ℕ → ℕ → Bool
is_past none at = false
is_past (some t) at = ltb t at

-- The status, the retry time and the lease allow a claim.
abbrev pub is_claimable : CommandOutbox → ℕ → Bool
is_claimable outbox at = elim outbox.status [
  | OutboxStatus.pending ↦ leb outbox.next_attempt_at at
  | OutboxStatus.retry ↦ leb outbox.next_attempt_at at
  | OutboxStatus.publishing ↦ is_past outbox.locked_until at
  | _ ↦ false
]

abbrev has_deliverable : Option Command → ℕ → Bool
has_deliverable none at = false
has_deliverable (some command) at = is_deliverable command at

-- `order by o.created_at, o.id`
abbrev is_earlier : CommandOutbox → CommandOutbox → Bool
is_earlier a b = ltb a.created_at b.created_at || (a.created_at == b.created_at && leb a.id b.id)

abbrev pub claim_candidates : ℕ → Db → List CommandOutbox
claim_candidates limit db = take limit (
    sort_by is_earlier (
      select
        (λ o. is_claimable o db.clock && has_deliverable (find_command o.command_id db) db.clock)
        db.command_outbox))

abbrev pub leased : String → ℕ → ℕ → CommandOutbox → CommandOutbox
leased gateway lease at o = record o {
  status = OutboxStatus.publishing;
  attempt_count = o.attempt_count + 1;
  locked_by = some gateway;
  locked_until = some (at + lease);
}

-- A candidate whose command is locked and still deliverable.
unfoldable pub lease_outbox :
    (ℕ → Bool) → String → ℕ → ℕ → Option CommandOutbox → Action (Option CommandOutbox)
lease_outbox free gateway lease id none = pure none
lease_outbox free gateway lease id (some outbox) = do
  at ← now
  if free id && is_claimable outbox at
      then (do modify (set_outbox id (leased gateway lease at)); gets (find_outbox id))
      else pure none

unfoldable pub claim_locked :
    (ℕ → Bool) → String → ℕ → ℕ → Option Command → Action (Option CommandOutbox)
claim_locked free gateway lease id none = pure none
claim_locked free gateway lease id (some command) = do
  at ← now
  if free command.id && is_deliverable command at
      then (do outbox ← gets (find_outbox id); lease_outbox free gateway lease id outbox)
      else pure none

unfoldable pub claim_one :
    (ℕ → Db → Db) → (ℕ → Bool) → String → ℕ → CommandOutbox → Action (Option CommandOutbox)
claim_one wait free gateway lease candidate = do
  modify (wait candidate.id)
  command ← gets (find_command candidate.command_id)
  claim_locked free gateway lease candidate.id command

abbrev pub with_claimed : Option CommandOutbox → List CommandOutbox → List CommandOutbox
with_claimed none rows = rows
with_claimed (some row) rows = row ∷ rows

unfoldable pub claim_all :
    (ℕ → Db → Db) → (ℕ → Bool) → String → ℕ → List CommandOutbox → Action (List CommandOutbox)
claim_all wait free gateway lease [] = pure []
claim_all wait free gateway lease (candidate ∷ rest) = do
  row ← claim_one wait free gateway lease candidate
  rows ← claim_all wait free gateway lease rest
  pure (with_claimed row rows)

-- `CommandRepository.claim`
unfoldable pub claim_outbox :
    (ℕ → Db → Db) → (ℕ → Bool) → String → ℕ → ℕ → Action (List CommandOutbox)
claim_outbox wait free gateway limit lease = do
  candidates ← gets (claim_candidates limit)
  claim_all wait free gateway lease candidates

abbrev pub published_row : ℕ → CommandOutbox → CommandOutbox
published_row at o = record o {
  status = OutboxStatus.published;
  published_at = some at;
  locked_by = none;
  locked_until = none;
  last_error = none;
}

abbrev pub mark_published : ℕ → Action (Unit {0})
mark_published id = modify λ db. set_outbox id (published_row db.clock) db

-- `least(60, power(2, least(attempt_count, 6)))`
abbrev pub publish_delay : ℕ → ℕ
publish_delay attempts = min 60 (2 ^ min attempts 6)

abbrev pub retried_row : String → ℕ → CommandOutbox → CommandOutbox
retried_row error at o = record o {
  status = OutboxStatus.retry;
  next_attempt_at = at + publish_delay o.attempt_count;
  last_error = some error;
  locked_by = none;
  locked_until = none;
}

abbrev pub mark_retry : ℕ → String → Action (Unit {0})
mark_retry id error = modify λ db. set_outbox id (retried_row error db.clock) db

abbrev pub set_published_at : ℕ → Action (Unit {0})
set_published_at id = modify λ db. record db {
  commands =
      update_id command_id id
        (λ c. record c { published_at = coalesce c.published_at (some db.clock) }) db.commands;
}
