-- ===== src/Session/Machine.antt =====
-- The state machine of src/state.rs without its event queue, as an abstract specification.
use spark_runner.Prelude.{
  ◌≡◌, refl, ◌∙◌, ap, Bool, true, false, ◌&&◌, if◌then◌else◌, Bool-cases, inl, inr,
}
use spark_runner.Prelude.Exec.{Result, ok, err, and_then}
use spark_runner.Session.{
  SessionState, Call, WorkerState, TurnState, StateError, Outcome, Method, worker_allowed,
  turn_allowed, transition_worker, transition_turn, is_model, is_allow, decided_turn, call,
  on_thread_started, on_turn_started, on_approval_requested, on_approval_decided,
  on_interrupt_requested, on_turn_completed, on_turn_failed, on_shutdown,
}
use spark_runner.Session.Fields.{Phase, phase, phase-emit, phase-poison}

-- Whether the move is accepted, and the phase after it.
abbrev pub Move : Type 0
Move = Bool × Phase

abbrev pub refuse : Phase → Move
refuse p = (false, record p { poisoned = true })

abbrev pub move_worker : WorkerState → Phase → Move
move_worker to p = if worker_allowed p.worker to then (true, record p { worker = to }) else refuse p

abbrev pub move_turn : TurnState → Phase → Move
move_turn to p = if turn_allowed p.turn to then (true, record p { turn = to }) else refuse p

abbrev pub then_move : Move → (Phase → Move) → Move
then_move (true, p) f = f p
then_move (false, p) f = (false, p)

-- What each call does to the phase. The queue plays no part.
unfoldable pub machine : Call → Phase → Move
machine Call.poison_session p = (true, record p { poisoned = true })
machine Call.thread_started p =
    then_move (move_worker WorkerState.thread_active p) (move_turn TurnState.thread_started)
machine Call.turn_started p =
    then_move (move_worker WorkerState.turn_active p) (move_turn TurnState.turn_started)
machine Call.turn_completed p = move_turn TurnState.completed p
machine Call.turn_failed p = move_turn TurnState.failed p
machine Call.shutdown p =
    then_move (move_worker WorkerState.shutting_down p) (move_worker WorkerState.stopped)
machine (Call.approval_requested key method) p = move_turn TurnState.awaiting_approval p
machine (Call.approval_decided key method decision source) p =
    if is_model source && is_allow decision then refuse p else move_turn (decided_turn decision) p
machine (Call.interrupt_requested thread_id turn_id) p = move_turn TurnState.interrupted p

abbrev pub accepted : Result StateError (Unit {0}) → Bool
accepted (ok _) = true
accepted (err _) = false

abbrev pub view : Outcome → Move
view r = (accepted r.0, phase r.1)

view-transition_worker :
    (to : WorkerState) (s : SessionState) → view (transition_worker to s) ≡ move_worker to (phase s)
unfolding transition_worker
view-transition_worker to s = elim (Bool-cases (worker_allowed s.worker to)) [
  | inl allowed ↦ simp (allowed, phase-emit)
  | inr refused ↦ simp (refused, phase-poison)
]

view-transition_turn :
    (to : TurnState) (s : SessionState) → view (transition_turn to s) ≡ move_turn to (phase s)
unfolding transition_turn
view-transition_turn to s = elim (Bool-cases (turn_allowed s.turn to)) [
  | inl allowed ↦ simp (allowed, phase-emit)
  | inr refused ↦ simp (refused, phase-poison)
]

view-and_then :
    (r : Outcome) (f : Unit {0} → Method) (g : Phase → Move)
    → ((s : SessionState) → view (f tt s) ≡ g (phase s))
    → view (and_then r f) ≡ then_move (view r) g
view-and_then (ok _, s) f g h = h s
view-and_then (err e, s) f g h = refl

then_move-accept : (m : Move) → then_move m (λ p. (true, p)) ≡ m
then_move-accept (true, p) = refl
then_move-accept (false, p) = refl

-- Every method accepts and moves exactly as the queue-free machine says: neither the queue nor its
-- eviction ever influences the worker, the turn, the poisoning or the outcome of a call.
pub view-call : (c : Call) (s : SessionState) → view (call c s) ≡ machine c (phase s)
unfolding call machine on_thread_started on_turn_started on_approval_requested on_approval_decided
    on_interrupt_requested on_turn_completed on_turn_failed on_shutdown
view-call Call.poison_session s = ap (λ p. (true, p)) (phase-poison s)
view-call Call.thread_started s =
    view-and_then (transition_worker _ s) _ _ (view-transition_turn _)
    ∙ ap (λ m. then_move m (move_turn TurnState.thread_started)) (view-transition_worker _ s)
view-call Call.turn_started s =
    view-and_then (transition_worker _ s) _ _ (view-transition_turn _)
    ∙ ap (λ m. then_move m (move_turn TurnState.turn_started)) (view-transition_worker _ s)
view-call Call.turn_completed s = view-transition_turn _ s
view-call Call.turn_failed s = view-transition_turn _ s
view-call Call.shutdown s =
    view-and_then (transition_worker _ s) _ _ (view-transition_worker _)
    ∙ ap (λ m. then_move m (move_worker WorkerState.stopped)) (view-transition_worker _ s)
view-call (Call.approval_requested key method) s =
    view-and_then (transition_turn _ s) _ (λ p. (true, p))
      (λ t. ap (λ p. (true, p)) (phase-emit _ t))
    ∙ then_move-accept _
    ∙ view-transition_turn _ s
view-call (Call.approval_decided key method decision source) s =
    elim (Bool-cases (is_model source && is_allow decision)) [
      | inl forbidden ↦ simp (forbidden, phase-poison)
      | inr permitted ↦
          simp permitted
            (view-transition_turn _ _ ∙ ap (move_turn (decided_turn decision)) (phase-emit _ s))
    ]
view-call (Call.interrupt_requested thread_id turn_id) s =
    view-transition_turn _ _ ∙ ap (move_turn TurnState.interrupted) (phase-emit _ s)
