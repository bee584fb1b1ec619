-- ===== src/Session/Keeps.antt =====
-- An induction over the methods: src/state.rs, impl SessionState.
use spark_runner.Prelude.{true, List, [], ◌∷◌, Bool, if_elim, not, ◌&&◌}
use spark_runner.Prelude.Exec.{ok, err, and_then}
use spark_runner.Session.{
  SessionState, InternalEventKind, Call, Method, WorkerState, TurnState, Outcome, is_model,
  is_allow, worker_allowed, turn_allowed, emit, poison, transition_worker, transition_turn, call,
  run, on_thread_started, on_turn_started, on_approval_requested, on_approval_decided,
  on_interrupt_requested, on_turn_completed, on_turn_failed, on_shutdown,
}

-- A predicate that `emit` keeps, and that reads none of the fields that the methods set.
module _ (P : SessionState → Type 0)
    (after_emit : (kind : InternalEventKind) (s : SessionState) → P s → P (emit kind s))
    (after_worker : (s : SessionState) (w : WorkerState) → P s → P (record s { worker = w }))
    (after_turn : (s : SessionState) (t : TurnState) → P s → P (record s { turn = t }))
    (after_poisoned : (s : SessionState) (b : Bool) → P s → P (record s { poisoned = b })) where
  poison_keeps : (s : SessionState) → P s → P (poison s)
  unfolding poison
  poison_keeps s v = if_elim P s.poisoned (λ _. v) (λ _. after_emit _ _ (after_poisoned s true v))

  transition_worker_keeps :
      (to : WorkerState) (s : SessionState) → P s → P (transition_worker to s).1
  unfolding transition_worker
  transition_worker_keeps to s v =
      if_elim (λ (r : Outcome). P r.1) (not (worker_allowed s.worker to)) (λ _. poison_keeps s v)
        (λ _. after_emit _ _ (after_worker s to v))

  transition_turn_keeps : (to : TurnState) (s : SessionState) → P s → P (transition_turn to s).1
  unfolding transition_turn
  transition_turn_keeps to s v =
      if_elim (λ (r : Outcome). P r.1) (not (turn_allowed s.turn to)) (λ _. poison_keeps s v)
        (λ _. after_emit _ _ (after_turn s to v))

  and_then_keeps :
      (r : Outcome) (f : Unit {0} → Method)
      → P r.1
      → ((s : SessionState) → P s → P (f tt s).1)
      → P (and_then r f).1
  and_then_keeps (ok _, s) f v keep = keep s v
  and_then_keeps (err e, s) f v keep = v

  pub call_keeps : (c : Call) (s : SessionState) → P s → P (call c s).1
  unfolding call on_thread_started on_turn_started on_approval_requested on_approval_decided
      on_interrupt_requested on_turn_completed on_turn_failed on_shutdown
  call_keeps Call.poison_session s v = poison_keeps s v
  call_keeps Call.thread_started s v =
      and_then_keeps (transition_worker _ s) _ (transition_worker_keeps _ s v)
        (transition_turn_keeps _)
  call_keeps Call.turn_started s v =
      and_then_keeps (transition_worker _ s) _ (transition_worker_keeps _ s v)
        (transition_turn_keeps _)
  call_keeps Call.turn_completed s v = transition_turn_keeps _ s v
  call_keeps Call.turn_failed s v = transition_turn_keeps _ s v
  call_keeps Call.shutdown s v =
      and_then_keeps (transition_worker _ s) _ (transition_worker_keeps _ s v)
        (transition_worker_keeps _)
  call_keeps (Call.approval_requested key method) s v =
      and_then_keeps (transition_turn _ s) _ (transition_turn_keeps _ s v) (after_emit _)
  call_keeps (Call.approval_decided key method decision source) s v =
      if_elim (λ (r : Outcome). P r.1) (is_model source && is_allow decision)
        (λ _. poison_keeps s v) (λ _. transition_turn_keeps _ _ (after_emit _ s v))
  call_keeps (Call.interrupt_requested thread_id turn_id) s v =
      transition_turn_keeps _ _ (after_emit _ s v)

-- Induction over a history.
pub run_keeps :
    (P : SessionState → Type 0)
    → ((c : Call) (s : SessionState) → P s → P (call c s).1)
    → (s : SessionState) (cs : List Call) → P s
    → P (run s cs)
unfolding run
run_keeps P keep s [] v = v
run_keeps P keep s (c ∷ cs) v = run_keeps P keep (call c s).1 cs (keep c s v)
