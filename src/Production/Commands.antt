-- ===== src/Production/Commands.antt =====
-- app/services/command_state.py: `transition_command`.
use coffee_cloud_mvp.Base.{Bool, true, false, not, Option, String, Json, if◌then◌else◌}
use coffee_cloud_mvp.CommandState.{CommandStatus, decide_transition}
use coffee_cloud_mvp.Store.{Command, Action, ◌>>=◌, pure, raise, http}
use coffee_cloud_mvp.CommandRepository.{transition_command_row}
use coffee_cloud_mvp.Transitions.Payments.{detail}

-- A forbidden transition is an error where `strict`, and leaves the command where not.
unfoldable pub transition_command :
    Command → CommandStatus → String → Option String → Option Json → Bool → Action (Command × Bool)
transition_command command target actor reason payload strict =
    let decision = decide_transition command.status target in
    if decision.duplicate
    then pure (command, true)
    else if not decision.allowed
    then if strict then raise (http 409 (detail decision.reason)) else pure (command, false)
    else (do
      updated ← transition_command_row command target actor reason payload
      pure (updated, false))
