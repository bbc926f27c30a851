-- ===== src/CommandRepository.antt =====
-- app/repositories/commands.py: the statements of `CommandRepository` on a command and the row of
-- its outbox.
pub mod Outbox
pub mod Creation
use coffee_cloud_mvp.Base.{
  ℕ, ◌+◌, not, ◌&&◌, Option, none, some, [], ◌∷◌, String, Json, if◌then◌else◌, ◌==◌, nat_eq,
  contains, coalesce, is_some, find, find_id, update_id,
}
use coffee_cloud_mvp.CommandState.{CommandStatus, command_status_eq, terminal_states}
use coffee_cloud_mvp.Store.{
  Db, Command, CommandOutbox, OutboxStatus, Action, ◌>>=◌, ◌>>◌, gets, or_raise, modify, none_row,
}

abbrev pub command_id : Command → ℕ
command_id c = c.id

abbrev pub outbox_id : CommandOutbox → ℕ
outbox_id o = o.id

-- `by_db_id`
abbrev pub find_command : ℕ → Db → Option Command
find_command id db = find_id command_id id db.commands

-- The column is unique.
abbrev pub outbox_for_command : ℕ → Db → Option CommandOutbox
outbox_for_command id db = find (λ o. o.command_id == id) db.command_outbox

unfoldable pub terminalize_outbox : ℕ → OutboxStatus → Action (Unit {0})
terminalize_outbox id status = modify λ db. record db {
  command_outbox =
      update_id outbox_id id
        (λ o. record o {
          status = status;
          locked_by = none;
          locked_until = none;
          next_attempt_at = db.clock + 3600;
        })
        db.command_outbox;
}

-- What `transition` writes to the row: the times come from the row that was read.
abbrev pub moved_command : Command → CommandStatus → Option Json → ℕ → Command → Command
moved_command command target payload at c = record c {
  status = target;
  revision = command.revision + 1;
  last_transition_at = at;
  delivered_at =
      if contains target (CommandStatus.delivering ∷ CommandStatus.published ∷ [])
        && not (is_some command.delivered_at)
      then some at
      else command.delivered_at;
  acked_at =
      if target == CommandStatus.acked && not (is_some command.acked_at)
      then some at
      else command.acked_at;
  executing_at =
      if target == CommandStatus.executing && not (is_some command.executing_at)
      then some at
      else command.executing_at;
  completed_at = if contains target terminal_states then some at else command.completed_at;
  result_json = coalesce payload c.result_json;
}

abbrev pub with_command_transition :
    Command → CommandStatus → String → Option String → Option Json → Db → Db
with_command_transition command target actor reason payload db = record db {
  commands =
      update_id command_id command.id (moved_command command target payload db.clock) db.commands;
  command_transitions =
      record {
        command_id = command.id;
        revision = command.revision + 1;
        from_status = some command.status;
        to_status = target;
        actor = actor;
        reason = reason;
        payload_json = payload;
      }
      ∷ db.command_transitions;
}

unfoldable pub transition_command_row :
    Command → CommandStatus → String → Option String → Option Json → Action Command
transition_command_row command target actor reason payload = do
  modify (with_command_transition command target actor reason payload)
  updated ← gets (find_command command.id)
  or_raise none_row updated
