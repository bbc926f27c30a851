-- ===== src/CommandRepository/Creation.antt =====
-- app/repositories/commands.py: a new command, its first transition and its outbox row.
use coffee_cloud_mvp.Base.{
  ℕ, suc, false, Bool, ◌&&◌, ◌||◌, Option, none, some, ◌∷◌, String, Json, if◌then◌else◌, ◌==◌,
  nat_eq, string_eq, any, is_some,
}
use coffee_cloud_mvp.CommandState.{CommandStatus}
use coffee_cloud_mvp.Store.{
  Db, Command, CommandOutbox, OutboxStatus, Host, Action, ok, ◌>>=◌, ◌>>◌, pure, gets, raise_if,
  modify, now, integrity,
}
use coffee_cloud_mvp.CommandRepository.{outbox_for_command}
use coffee_cloud_mvp.Refunds.Intents.{draw}

abbrev same_key : Option String → Option String → Bool
same_key (some a) (some b) = a == b
same_key _ _ = false

-- The unique columns of `terminal_command`.
abbrev pub clashes : ℕ → String → Option String → Command → Bool
clashes terminal message key c =
    c.terminal_id == terminal && (c.message_id == message || same_key c.idempotency_key key)

module _ (host : Host) where
  abbrev pub draw_serial : Action ℕ
  draw_serial db = ok (host.serial db.drawn, record db { drawn = suc db.drawn })

  -- A row with the defaults of its columns.
  abbrev pub new_command :
      ℕ → ℕ → String → String → Json → String → Option ℕ → Option String → ℕ → Command
  new_command id terminal message type payload digest expires_at key at = record {
    id = id;
    terminal_id = terminal;
    message_id = message;
    command_type = type;
    payload_json = payload;
    idempotency_key = key;
    payload_digest = some digest;
    status = CommandStatus.created;
    revision = 0;
    created_at = at;
    expires_at = expires_at;
    published_at = none;
    delivered_at = none;
    acked_at = none;
    executing_at = none;
    completed_at = none;
    last_transition_at = at;
    result_json = none;
  }

  abbrev pub with_command : Command → Db → Db
  with_command command db = record db { commands = command ∷ db.commands }

  unfoldable pub insert_command :
      ℕ → String → String → Json → String → Option ℕ → Option String → Action Command
  insert_command terminal message type payload digest expires_at key = do
    taken ← gets (λ db. any (clashes terminal message key) db.commands)
    raise_if taken (integrity "terminal_command")
    id ← draw_serial
    at ← now
    let command = new_command id terminal message type payload digest expires_at key at
    modify (with_command command)
    pure command

  abbrev pub insert_initial_transition : ℕ → String → String → Json → Action (Unit {0})
  insert_initial_transition command actor reason payload = modify λ db. record db {
    command_transitions =
        record {
          command_id = command;
          revision = 0;
          from_status = none;
          to_status = CommandStatus.created;
          actor = actor;
          reason = some reason;
          payload_json = some payload;
        }
        ∷ db.command_transitions;
  }

  abbrev pub new_outbox : ℕ → ℕ → ℕ → String → Json → ℕ → CommandOutbox
  new_outbox id command terminal topic envelope at = record {
    id = id;
    command_id = command;
    terminal_id = terminal;
    topic = topic;
    envelope_json = envelope;
    status = OutboxStatus.pending;
    attempt_count = 0;
    next_attempt_at = at;
    locked_by = none;
    locked_until = none;
    published_at = none;
    last_error = none;
    created_at = at;
  }

  -- `on conflict(command_id) do nothing`
  unfoldable pub insert_outbox : ℕ → ℕ → String → Json → Action (Unit {0})
  insert_outbox command terminal topic envelope = do
    id ← draw host
    modify λ db. if is_some (outbox_for_command command db) then db else record db {
      command_outbox = new_outbox id command terminal topic envelope db.clock ∷ db.command_outbox;
    }
