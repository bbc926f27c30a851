-- ===== src/CommandState.antt =====
-- app/command_state.py: the statuses of a device command and the decision on its transitions.
use coffee_cloud_mvp.Base.{
  Eq, eq_test, eq_test_iff, contains, ◌==◌, if◌then◌else◌, Bool, true, false, not, Option, none,
  some, List, [], ◌∷◌, String, ◌<>◌,
}

pub data CommandStatus : Type 0 where
  created delivering published acked executing succeeded : CommandStatus
  rejected failed expired cancelled unknown : CommandStatus

unfoldable pub CommandStatus-discrete : Discrete CommandStatus
CommandStatus-discrete = hlevel

instance abbrev pub command_status_eq : Eq CommandStatus
command_status_eq = record {
  beq = eq_test CommandStatus-discrete;
  beq_iff = eq_test_iff CommandStatus-discrete;
}

abbrev pub command_text : CommandStatus → String
command_text CommandStatus.created = "CREATED"
command_text CommandStatus.delivering = "DELIVERING"
command_text CommandStatus.published = "PUBLISHED"
command_text CommandStatus.acked = "ACKED"
command_text CommandStatus.executing = "EXECUTING"
command_text CommandStatus.succeeded = "SUCCEEDED"
command_text CommandStatus.rejected = "REJECTED"
command_text CommandStatus.failed = "FAILED"
command_text CommandStatus.expired = "EXPIRED"
command_text CommandStatus.cancelled = "CANCELLED"
command_text CommandStatus.unknown = "UNKNOWN"

abbrev pub terminal_states : List CommandStatus
terminal_states =
    CommandStatus.succeeded ∷ CommandStatus.rejected ∷ CommandStatus.failed ∷ CommandStatus.expired
    ∷ CommandStatus.cancelled ∷ []

abbrev late_states : List CommandStatus
late_states =
    CommandStatus.executing ∷ CommandStatus.succeeded ∷ CommandStatus.rejected
    ∷ CommandStatus.failed ∷ CommandStatus.cancelled ∷ []

-- `LEGAL_TRANSITIONS.get(current, frozenset())`
legal_transitions : CommandStatus → List CommandStatus
legal_transitions CommandStatus.created =
    CommandStatus.delivering ∷ CommandStatus.published ∷ CommandStatus.acked ∷ CommandStatus.expired
    ∷ CommandStatus.unknown ∷ late_states
legal_transitions CommandStatus.delivering =
    CommandStatus.published ∷ CommandStatus.acked ∷ CommandStatus.expired ∷ CommandStatus.unknown
    ∷ late_states
legal_transitions CommandStatus.published =
    CommandStatus.acked ∷ CommandStatus.expired ∷ CommandStatus.unknown ∷ late_states
legal_transitions CommandStatus.acked = CommandStatus.unknown ∷ late_states
legal_transitions CommandStatus.executing =
    CommandStatus.succeeded ∷ CommandStatus.failed ∷ CommandStatus.cancelled ∷ CommandStatus.unknown
    ∷ []
legal_transitions CommandStatus.unknown = CommandStatus.acked ∷ CommandStatus.expired ∷ late_states
legal_transitions _ = []

pub record TransitionDecision : Type 0 where
  pub allowed : Bool
  pub duplicate : Bool
  pub reason : Option String

unfoldable pub decide_transition : CommandStatus → CommandStatus → TransitionDecision
unfolding legal_transitions CommandStatus-discrete
decide_transition current target =
    if current == target
    then record { allowed = true; duplicate = true; reason = none }
    else if contains current terminal_states
    then record {
      allowed = false;
      duplicate = false;
      reason = some (
          "terminal state "
          <> command_text current
          <> " cannot transition to "
          <> command_text target);
    }
    else if not (contains target (legal_transitions current))
    then record {
      allowed = false;
      duplicate = false;
      reason =
          some (
            "illegal command transition " <> command_text current <> " -> " <> command_text target);
    }
    else record { allowed = true; duplicate = false; reason = none }
