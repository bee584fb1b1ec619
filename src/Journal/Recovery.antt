-- ===== src/Journal/Recovery.antt =====
-- The restart projection: src/journal.rs, project_recovery, and src/orchestrator.rs,
-- persist_recovery.
use spark_runner.Prelude.{ℕ, List, [], ◌∷◌, ◌++◌, map, Option, none, some}
use spark_runner.Prelude.Text.{Text, codes}
use spark_runner.Prelude.Maps.{insert, or_insert, add, remove}
use spark_runner.Journal.{
  JournalEvent, execution_started, execution_completed, turn_started, turn_completed,
  approval_requested, approval_decided, recovery_execution_unknown, recovery_approval_denied,
  incident, rate_limit_snapshot, ExecutionTerminalStatus, ApprovalTerminalDecision,
}

pub data ExecutionRecoveryState : Type 0 where
  completed interrupted failed unknown_after_restart : ExecutionRecoveryState

pub data ApprovalRecoveryState : Type 0 where
  allowed denied timed_out denied_on_restart : ApprovalRecoveryState

-- The four local variables of the loop over the rows.
pub record Projection : Type 0 where
  pub executions : List (Text × Option ExecutionRecoveryState)
  pub approvals : List (Text × Option ApprovalRecoveryState)
  pub unresolved_executions : List Text
  pub unresolved_approvals : List Text

unfoldable pub execution_state : ExecutionTerminalStatus → ExecutionRecoveryState
execution_state ExecutionTerminalStatus.completed = completed
execution_state ExecutionTerminalStatus.interrupted = interrupted
execution_state ExecutionTerminalStatus.failed = failed

unfoldable pub approval_state : ApprovalTerminalDecision → ApprovalRecoveryState
approval_state ApprovalTerminalDecision.allowed = allowed
approval_state ApprovalTerminalDecision.denied = denied
approval_state ApprovalTerminalDecision.timed_out = timed_out

-- One turn of the loop.
unfoldable pub project_event : Projection → JournalEvent → Projection
unfolding execution_state approval_state
project_event p (execution_started id) = record p {
  unresolved_executions = add id p.unresolved_executions;
  executions = or_insert id none p.executions;
}
project_event p (execution_completed id status) = record p {
  unresolved_executions = remove id p.unresolved_executions;
  executions = insert id (some (execution_state status)) p.executions;
}
project_event p (recovery_execution_unknown id) = record p {
  unresolved_executions = remove id p.unresolved_executions;
  executions = insert id (some unknown_after_restart) p.executions;
}
project_event p (approval_requested id key method) = record p {
  unresolved_approvals = add key p.unresolved_approvals;
  approvals = or_insert key none p.approvals;
}
project_event p (approval_decided id key method decision) = record p {
  unresolved_approvals = remove key p.unresolved_approvals;
  approvals = insert key (some (approval_state decision)) p.approvals;
}
project_event p (recovery_approval_denied id key method) = record p {
  unresolved_approvals = remove key p.unresolved_approvals;
  approvals = insert key (some denied_on_restart) p.approvals;
}
project_event p (turn_started id turn) = p
project_event p (turn_completed id turn status) = p
project_event p (incident id class message) = p
project_event p (rate_limit_snapshot id snapshot) = p

abbrev pub nothing : Projection
nothing = record {
  executions = [];
  approvals = [];
  unresolved_executions = [];
  unresolved_approvals = [];
}

unfoldable pub project_from : Projection → List JournalEvent → Projection
project_from p [] = p
project_from p (e ∷ es) = project_from (project_event p e) es

-- `unwrap_or`
abbrev pub or_state {ℓ} : {A : Type ℓ} → A → Option A → A
or_state d none = d
or_state d (some a) = a

pub record RecoveryProjection : Type 0 where
  pub executions : List (Text × ExecutionRecoveryState)
  pub approvals : List (Text × ApprovalRecoveryState)
  pub unresolved_executions : List Text
  pub unresolved_approvals : List Text
  pub replayed_turns : ℕ
  pub replayed_approvals : ℕ

-- The rows have been parsed; a row that does not parse fails the whole projection before this.
unfoldable pub project_recovery : List JournalEvent → RecoveryProjection
unfolding project_from
project_recovery es =
    let p = project_from nothing es in
    record {
      executions = map (λ (id, state). (id, or_state unknown_after_restart state)) p.executions;
      approvals = map (λ (id, state). (id, or_state denied_on_restart state)) p.approvals;
      unresolved_executions = p.unresolved_executions;
      unresolved_approvals = p.unresolved_approvals;
      replayed_turns = 0;
      replayed_approvals = 0;
    }

-- The events that `persist_recovery` appends.
unfoldable pub recovery_events : RecoveryProjection → List JournalEvent
recovery_events p =
    map recovery_execution_unknown p.unresolved_executions
    ++ map (λ key. recovery_approval_denied (codes "recovery") key (codes "unknown"))
        p.unresolved_approvals
