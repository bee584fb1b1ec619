-- ===== src/Session/Tests.antt =====
-- Runs of the session's state machine on concrete histories: src/state.rs, mod tests.
use spark_runner.Prelude.{ℕ, ◌≡◌, refl, true, List, [], ◌∷◌}
use spark_runner.Prelude.Exec.{err}
use spark_runner.Prelude.Text.{codes, byte_len}
use spark_runner.Session.{
  SessionState, InternalEvent, InternalEventKind, Call, TurnState, StateError, ApprovalDecision,
  ApprovalSource, new, emit, evict, poison, transition_worker, transition_turn, call, run,
  internal_event_bytes, on_thread_started, on_turn_started, on_approval_requested,
  on_approval_decided, on_interrupt_requested, on_turn_completed, on_turn_failed, on_shutdown,
}
use spark_runner.Session.Queue.{Evicts, evict-Evicts, total_bytes}
use spark_runner.Session.Sound.{IsSound, run-new-IsSound}
use spark_runner.Session.Fields.{phase}
use spark_runner.Session.Machine.{machine, view, view-call}
use spark_runner.Session.Approval.{run-poisoned, call-model_allow}
use spark_runner.Session.Terminal.{run-terminal}
use spark_runner.Session.Resume.{IsGrant, AllowOutcome, resumes_by_allow, stray_allow}

-- `run` with all that it calls open.
runs : SessionState → List Call → SessionState
unfolding run call emit evict poison transition_worker transition_turn on_thread_started
    on_turn_started on_approval_requested on_approval_decided on_interrupt_requested
    on_turn_completed on_turn_failed on_shutdown internal_event_bytes byte_len new
runs s cs = run s cs

abbrev begun : List Call
begun = Call.thread_started ∷ Call.turn_started ∷ []

happy_path_transitions :
    (run new (Call.thread_started ∷ Call.turn_started ∷ Call.turn_completed ∷ [])).turn
    ≡ TurnState.completed
unfolding runs
happy_path_transitions = refl

impossible_transition : (run new (Call.turn_completed ∷ [])).poisoned ≡ true
unfolding runs
impossible_transition = refl

abbrev asked : List Call
asked =
    Call.thread_started
    ∷ Call.turn_started
    ∷ Call.approval_requested (codes "approval-1") (codes "method")
    ∷ []

abbrev grant : Call
grant =
    Call.approval_decided (codes "approval-1") (codes "method") ApprovalDecision.allow
      ApprovalSource.owner

run-new-IsSound_example : IsSound (run new (Call.turn_completed ∷ asked))
run-new-IsSound_example = run-new-IsSound (Call.turn_completed ∷ asked)

abbrev two_events : List InternalEvent
two_events =
    record { seq = 1; kind = InternalEventKind.poisoned }
    ∷ record { seq = 2; kind = InternalEventKind.poisoned }
    ∷ []

evict-Evicts_example :
    (n : ℕ) × Evicts 16350 two_events (evict 16350 two_events (total_bytes two_events)) n
evict-Evicts_example = evict-Evicts 16350 two_events

view-call_example : view (call grant (run new asked)) ≡ machine grant (phase (run new asked))
view-call_example = view-call grant (run new asked)

run-poisoned_example : (run (call Call.turn_completed new).1 begun).poisoned ≡ true
unfolding runs
run-poisoned_example =
    run-poisoned Call.turn_completed new
      (StateError.invalid_turn_transition TurnState.idle TurnState.completed) begun refl

call-model_allow_example :
    ((call
        (Call.approval_decided
          (codes "approval-1")
          (codes "method")
          ApprovalDecision.allow
          ApprovalSource.model)
        (run new asked)).0
      ≡ err (StateError.model_self_approval (codes "approval-1")))
    × (phase
          (call
            (Call.approval_decided
              (codes "approval-1")
              (codes "method")
              ApprovalDecision.allow
              ApprovalSource.model)
            (run new asked)).1
        ≡ record (phase (run new asked)) { poisoned = true })
call-model_allow_example = call-model_allow (codes "approval-1") (codes "method") (run new asked)

abbrev finished : List Call
finished = Call.thread_started ∷ Call.turn_started ∷ Call.turn_failed ∷ []

run-terminal_example : (run (run new finished) begun).turn ≡ (run new finished).turn
unfolding runs
run-terminal_example = run-terminal (run new finished) begun tt

resumes_by_allow_example : IsGrant grant
unfolding runs
resumes_by_allow_example = resumes_by_allow asked grant (tt, (tt, (tt, tt))) refl refl

stray_allow_example :
    AllowOutcome (codes "approval-1") (codes "method") (run new (Call.thread_started ∷ []))
stray_allow_example =
    stray_allow (codes "approval-1") (codes "method") (run new (Call.thread_started ∷ []))
