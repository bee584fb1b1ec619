-- ===== src/Journal/Tests.antt =====
-- Runs of the journal's projection.
use spark_runner.Prelude.{◌≡◌, refl, List, [], ◌∷◌, some, if◌then◌else◌, All, true, false, arith}
use spark_runner.Prelude.Text.{
  Text, codes, text_eq, starts_with, contains, to_ascii_lowercase, is_whitespace,
}
use spark_runner.Prelude.Maps.{lookup, has, insert, or_insert, add, remove, text_lt}
use spark_runner.Journal.{
  JournalEvent, execution_started, execution_completed, approval_requested, ExecutionTerminalStatus,
}
use spark_runner.Journal.Recovery.{
  project_recovery, project_event, recovery_events, unknown_after_restart, denied_on_restart,
}
use spark_runner.Journal.Replay.{
  starts_execution, ends_execution, starts_approval, ends_approval, any_start, last_end, left_open,
  settled, project_recovery-executions, project_recovery-approvals,
}
use spark_runner.Journal.Settle.{restarted, restarted_settled, restarted-executions}
use spark_runner.Json.{Value, boolean, string, array, object, nil, cons, end, field}
use spark_runner.Journal.Redact.{
  markers, find, word_len, replace_word, redact_marker, redact_markers, redact_string, redact_text,
  redact_value, is_sensitive_key,
}
use spark_runner.Journal.Clean.{redact_string-Redacts, redact_string_bearer}
use spark_runner.Journal.CleanValue.{IsClean, redact_value-IsClean, redact_value_idempotent}

-- Execution "a" completes and starts again, "b" completes, and an approval is left undecided.
abbrev crashed : List JournalEvent
crashed =
    execution_started (codes "a")
    ∷ execution_completed (codes "a") ExecutionTerminalStatus.completed
    ∷ execution_started (codes "b")
    ∷ execution_completed (codes "b") ExecutionTerminalStatus.failed
    ∷ execution_started (codes "a")
    ∷ approval_requested (codes "a") (codes "key") (codes "method")
    ∷ []

unresolved_after_crash : (project_recovery crashed).unresolved_executions ≡ codes "a" ∷ []
unfolding project_recovery project_event insert or_insert add remove text_eq text_lt lookup
unresolved_after_crash = refl

project_recovery-executions_example :
    (lookup (codes "a") (project_recovery crashed).executions
      ≡ settled unknown_after_restart
          (any_start (starts_execution (codes "a")) (ends_execution (codes "a")) crashed)
          (last_end (starts_execution (codes "a")) (ends_execution (codes "a")) crashed))
    × (has (codes "a") (project_recovery crashed).unresolved_executions
        ≡ left_open (starts_execution (codes "a")) (ends_execution (codes "a")) crashed)
project_recovery-executions_example = project_recovery-executions (codes "a") crashed

project_recovery-approvals_example :
    (lookup (codes "key") (project_recovery crashed).approvals
      ≡ settled denied_on_restart
          (any_start (starts_approval (codes "key")) (ends_approval (codes "key")) crashed)
          (last_end (starts_approval (codes "key")) (ends_approval (codes "key")) crashed))
    × (has (codes "key") (project_recovery crashed).unresolved_approvals
        ≡ left_open (starts_approval (codes "key")) (ends_approval (codes "key")) crashed)
project_recovery-approvals_example = project_recovery-approvals (codes "key") crashed

restarted_settled_example :
    ((project_recovery (restarted crashed)).unresolved_executions ≡ [])
    × ((project_recovery (restarted crashed)).unresolved_approvals ≡ [])
    × (recovery_events (project_recovery (restarted crashed)) ≡ [])
restarted_settled_example = restarted_settled crashed

restarted-executions_example :
    lookup (codes "a") (project_recovery (restarted crashed)).executions ≡ (
      if has (codes "a") (project_recovery crashed).unresolved_executions
      then some unknown_after_restart
      else lookup (codes "a") (project_recovery crashed).executions)
restarted-executions_example = restarted-executions (codes "a") crashed

-- A bot token in a list, a password, and an API key within a sentence.
abbrev leaky : Value
leaky = object (
    field (codes "args") (array (cons (string (codes "xoxb-12 rest")) nil)) (
      field (codes "Password") (boolean true)
        (field (codes "note") (string (codes "use sk-abc now")) end)))

leaky_redacted :
    redact_value leaky
    ≡ object (
        field (codes "args") (array (cons (string (codes "[REDACTED] rest")) nil)) (
          field
            (codes "Password")
            (string (codes "[REDACTED]"))
            (field (codes "note") (string (codes "use [REDACTED] now")) end)))
unfolding redact_value redact_text redact_string redact_markers redact_marker replace_word find
    word_len is_sensitive_key starts_with contains to_ascii_lowercase is_whitespace text_eq
leaky_redacted = refl

redact_string-Redacts_example :
    (r : Text) × ((redact_string 20 (codes "use sk-abc now") ≡ some r)
      × All (λ m. contains r m ≡ false) markers)
redact_string-Redacts_example = redact_string-Redacts 20 (codes "use sk-abc now") (ground arith)

redact_value-IsClean_example : IsClean (redact_value leaky)
redact_value-IsClean_example = redact_value-IsClean leaky

redact_value_idempotent_example : redact_value (redact_value leaky) ≡ redact_value leaky
redact_value_idempotent_example = redact_value_idempotent leaky

plain_token : All (λ m. contains (codes "abc.def") m ≡ false) markers
unfolding contains starts_with
plain_token = ground arith

redact_string_bearer_example :
    redact_string 7 (codes "Bearer abc.def") ≡ some (codes "[REDACTED] abc.def")
redact_string_bearer_example = redact_string_bearer 5 (codes "abc.def") plain_token
