-- ===== src/Session/Fields.antt =====
-- What the methods do to the state beside the queue: src/state.rs, impl SessionState.
use spark_runner.Prelude.{◌≡◌, Bool, true, arith}
use spark_runner.Session.{
  SessionState, InternalEventKind, WorkerState, TurnState, emit, poison, push_internal,
}

-- `emit` changes the queue alone.
pub worker-emit : (kind : InternalEventKind) (s : SessionState) → (emit kind s).worker ≡ s.worker
unfolding emit push_internal
worker-emit kind s = ground arith

pub turn-emit : (kind : InternalEventKind) (s : SessionState) → (emit kind s).turn ≡ s.turn
unfolding emit push_internal
turn-emit kind s = ground arith

pub poisoned-emit :
    (kind : InternalEventKind) (s : SessionState) → (emit kind s).poisoned ≡ s.poisoned
unfolding emit push_internal
poisoned-emit kind s = ground arith

pub worker-poison : (s : SessionState) → (poison s).worker ≡ s.worker
unfolding poison
worker-poison s =
    ground (arith, worker-emit InternalEventKind.poisoned (record s { poisoned = true }))

pub turn-poison : (s : SessionState) → (poison s).turn ≡ s.turn
unfolding poison
turn-poison s = ground (arith, turn-emit InternalEventKind.poisoned (record s { poisoned = true }))

pub poisoned-poison : (s : SessionState) → (poison s).poisoned ≡ true
unfolding poison
poisoned-poison s =
    ground (arith, poisoned-emit InternalEventKind.poisoned (record s { poisoned = true }))

-- The state beside the queue.
pub record Phase : Type 0 where
  pub worker : WorkerState
  pub turn : TurnState
  pub poisoned : Bool

abbrev pub phase : SessionState → Phase
phase s = record { worker = s.worker; turn = s.turn; poisoned = s.poisoned }

pub phase-emit : (kind : InternalEventKind) (s : SessionState) → phase (emit kind s) ≡ phase s
phase-emit kind s = ground (arith, worker-emit kind s, turn-emit kind s, poisoned-emit kind s)

pub phase-poison : (s : SessionState) → phase (poison s) ≡ record (phase s) { poisoned = true }
phase-poison s = ground (arith, worker-poison s, turn-poison s, poisoned-poison s)
