-- ===== src/Session/Approval.antt =====
-- Fail-closed behaviour and approvals: src/state.rs, SessionState.
use spark_runner.Prelude.{◌≡◌, refl, sym, ◌∙◌, ap, true, false, List, arith}
use spark_runner.Prelude.Exec.{err}
use spark_runner.Prelude.Text.{Text}
use spark_runner.Session.{
  SessionState, Call, WorkerState, TurnState, StateError, ApprovalDecision, ApprovalSource, call,
  run, on_approval_decided,
}
use spark_runner.Session.Keeps.{run_keeps}
use spark_runner.Session.Fields.{Phase, phase}
use spark_runner.Session.Machine.{Move, move_worker, move_turn, machine, accepted, view-call}

-- A refused move poisons, and a poisoned phase stays so.
abbrev pub FailsClosed : Phase → Move → Type 0
FailsClosed p m = (m.0 ≡ false → m.1.poisoned ≡ true) × (p.poisoned ≡ true → m.1.poisoned ≡ true)

move_worker-FailsClosed : (to : WorkerState) (p : Phase) → FailsClosed p (move_worker to p)
move_worker-FailsClosed to p = (ground arith, ground arith)

move_turn-FailsClosed : (to : TurnState) (p : Phase) → FailsClosed p (move_turn to p)
move_turn-FailsClosed to p = (ground arith, ground arith)

machine-FailsClosed : (c : Call) (p : Phase) → FailsClosed p (machine c p)
unfolding machine
machine-FailsClosed Call.poison_session p = (ground arith, ground arith)
machine-FailsClosed c p = (ground arith, ground arith)

call-poisoned : (c : Call) (s : SessionState) → s.poisoned ≡ true → (call c s).1.poisoned ≡ true
call-poisoned c s h =
    ap (λ (m : Move). m.1.poisoned) (view-call c s) ∙ (machine-FailsClosed c (phase s)).1 h

-- A call that fails poisons the session, and no later call, of any kind, clears the poison.
pub run-poisoned :
    (c : Call) (s : SessionState) (e : StateError) (cs : List Call)
    → (call c s).0 ≡ err e
    → (run (call c s).1 cs).poisoned ≡ true
run-poisoned c s e cs failed =
    run_keeps (λ s. s.poisoned ≡ true) call-poisoned (call c s).1 cs
      (ap (λ (m : Move). m.1.poisoned) (view-call c s)
        ∙ (machine-FailsClosed c (phase s)).0
            (ap (λ (m : Move). m.0) (sym (view-call c s)) ∙ ap accepted failed))

-- An `Allow` that the model gives is refused in every state: the session is poisoned, and neither
-- the worker nor the turn moves.
pub call-model_allow :
    (key method : Text) (s : SessionState)
    → ((call (Call.approval_decided key method ApprovalDecision.allow ApprovalSource.model) s).0
        ≡ err (StateError.model_self_approval key))
      × (phase
            (call
              (Call.approval_decided key method ApprovalDecision.allow ApprovalSource.model)
              s).1
          ≡ record (phase s) { poisoned = true })
call-model_allow key method s = (
  unfold call on_approval_decided in refl,
  ap (λ (m : Move). m.1) (view-call _ s) ∙ (unfold machine in refl),
)
