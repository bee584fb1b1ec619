-- ===== src/Journal.antt =====
-- The journal: src/journal.rs. Its events, and the columns that a row takes from them.
pub mod Redact
pub mod Masked
pub mod Clean
pub mod CleanValue
pub mod Recovery
pub mod Replay
pub mod Settle
pub mod Tests
use spark_runner.Prelude.{Option, none, some}
use spark_runner.Prelude.Text.{Text, codes}
use spark_runner.Json.{Value}

pub data ExecutionTerminalStatus : Type 0 where
  completed interrupted failed : ExecutionTerminalStatus

pub data TurnTerminalStatus : Type 0 where
  completed failed interrupted : TurnTerminalStatus

pub data ApprovalTerminalDecision : Type 0 where
  allowed denied timed_out : ApprovalTerminalDecision

-- The fields in the order of the source.
pub data JournalEvent : Type 0 where
  execution_started : Text → JournalEvent
  execution_completed : Text → ExecutionTerminalStatus → JournalEvent
  turn_started : Text → Text → JournalEvent
  turn_completed : Text → Text → TurnTerminalStatus → JournalEvent
  approval_requested : Text → Text → Text → JournalEvent
  approval_decided : Text → Text → Text → ApprovalTerminalDecision → JournalEvent
  recovery_execution_unknown : Text → JournalEvent
  recovery_approval_denied : Text → Text → Text → JournalEvent
  incident : Option Text → Text → Text → JournalEvent
  rate_limit_snapshot : Text → Value → JournalEvent

unfoldable pub event_type : JournalEvent → Text
event_type (execution_started id) = codes "execution"
event_type (execution_completed id status) = codes "execution"
event_type (recovery_execution_unknown id) = codes "execution"
event_type (turn_started id turn) = codes "turn"
event_type (turn_completed id turn status) = codes "turn"
event_type (approval_requested id key method) = codes "approval"
event_type (approval_decided id key method decision) = codes "approval"
event_type (recovery_approval_denied id key method) = codes "approval"
event_type (incident id class message) = codes "incident"
event_type (rate_limit_snapshot id snapshot) = codes "rate_limit_snapshot"

unfoldable pub execution_id : JournalEvent → Option Text
execution_id (execution_started id) = some id
execution_id (execution_completed id status) = some id
execution_id (turn_started id turn) = some id
execution_id (turn_completed id turn status) = some id
execution_id (approval_requested id key method) = some id
execution_id (approval_decided id key method decision) = some id
execution_id (rate_limit_snapshot id snapshot) = some id
execution_id (recovery_execution_unknown id) = some id
execution_id (recovery_approval_denied id key method) = some id
execution_id (incident id class message) = id

unfoldable pub turn_id : JournalEvent → Option Text
turn_id (turn_started id turn) = some turn
turn_id (turn_completed id turn status) = some turn
turn_id _ = none

unfoldable pub approval_key : JournalEvent → Option Text
approval_key (approval_requested id key method) = some key
approval_key (approval_decided id key method decision) = some key
approval_key (recovery_approval_denied id key method) = some key
approval_key _ = none
