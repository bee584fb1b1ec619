-- ===== src/Session.antt =====
-- The worker and turn state machine: src/state.rs, SessionState.
pub mod Queue
pub mod Keeps
pub mod Sound
pub mod Fields
pub mod Machine
pub mod Approval
pub mod Terminal
pub mod Resume
pub mod Tests
use spark_runner.Prelude.{
  ℕ, Bool, true, false, not, ◌&&◌, ◌||◌, List, [], ◌∷◌, ◌++◌, ltb, leb, if◌then◌else◌, length,
  saturating_add, saturating_sub, next_u64,
}
use spark_runner.Prelude.Exec.{Result, ok, err, Exec, ◌>>=◌, ◌>>◌, modify}
use spark_runner.Prelude.Text.{Text, byte_len}

abbrev pub max_internal_events : ℕ
max_internal_events = 256

abbrev pub max_internal_event_bytes : ℕ
max_internal_event_bytes = 16384

pub data WorkerState : Type 0 where
  idle thread_active turn_active shutting_down stopped : WorkerState

pub data TurnState : Type 0 where
  idle thread_started turn_started awaiting_approval interrupted completed failed : TurnState

pub data ApprovalDecision : Type 0 where
  allow deny timeout : ApprovalDecision

pub data ApprovalSource : Type 0 where
  owner model system : ApprovalSource

pub data InternalEventKind : Type 0 where
  worker_transition : WorkerState → WorkerState → InternalEventKind
  turn_transition : TurnState → TurnState → InternalEventKind
  approval_requested : Text → Text → InternalEventKind
  approval_decided : Text → Text → ApprovalDecision → InternalEventKind
  interrupt_requested : Text → Text → InternalEventKind
  poisoned : InternalEventKind

pub record InternalEvent : Type 0 where
  pub seq : ℕ
  pub kind : InternalEventKind

pub data StateError : Type 0 where
  invalid_worker_transition : WorkerState → WorkerState → StateError
  invalid_turn_transition : TurnState → TurnState → StateError
  model_self_approval : Text → StateError

pub record SessionState : Type 0 where
  pub worker : WorkerState
  pub turn : TurnState
  pub poisoned : Bool
  pub next_event_seq : ℕ
  pub events : List InternalEvent
  pub event_bytes : ℕ

unfoldable pub new : SessionState
new = record {
  worker = WorkerState.idle;
  turn = TurnState.idle;
  poisoned = false;
  next_event_seq = 1;
  events = [];
  event_bytes = 0;
}

unfoldable pub internal_event_bytes : InternalEventKind → ℕ
internal_event_bytes (approval_requested key method) =
    saturating_add (saturating_add 64 (byte_len key)) (byte_len method)
internal_event_bytes (approval_decided key method decision) =
    saturating_add (saturating_add 64 (byte_len key)) (byte_len method)
internal_event_bytes (interrupt_requested thread_id turn_id) =
    saturating_add (saturating_add 64 (byte_len thread_id)) (byte_len turn_id)
internal_event_bytes (worker_transition from to) = 32
internal_event_bytes (turn_transition from to) = 32
internal_event_bytes poisoned = 32

-- The test of the `while` loop in `emit`, on a queue that is not empty.
abbrev pub over_cap : ℕ → List InternalEvent → ℕ → Bool
over_cap incoming events bytes =
    leb max_internal_events (length events)
    || ltb max_internal_event_bytes (saturating_add bytes incoming)

-- The `while` loop in `emit`: drop the oldest event until the incoming one fits.
unfoldable pub evict : ℕ → List InternalEvent → ℕ → List InternalEvent × ℕ
evict incoming [] bytes = ([], bytes)
evict incoming (e ∷ es) bytes =
    let rest = evict incoming es (saturating_sub bytes (internal_event_bytes e.kind)) in
    if over_cap incoming (e ∷ es) bytes then rest else (e ∷ es, bytes)

-- The rest of `emit`, once the queue has been cut to `kept`.
unfoldable pub push_internal :
    InternalEventKind → ℕ → List InternalEvent × ℕ → SessionState → SessionState
push_internal kind incoming (kept, bytes) s =
    if ltb max_internal_event_bytes incoming
    then record s { events = kept; event_bytes = bytes }
    else record s {
      next_event_seq = next_u64 s.next_event_seq;
      events = kept ++ record { seq = s.next_event_seq; kind = kind } ∷ [];
      event_bytes = saturating_add bytes incoming;
    }

unfoldable pub emit : InternalEventKind → SessionState → SessionState
unfolding push_internal
emit kind s =
    let incoming = internal_event_bytes kind in
    push_internal kind incoming (evict incoming s.events s.event_bytes) s

unfoldable pub poison : SessionState → SessionState
poison s = if s.poisoned then s else emit poisoned (record s { poisoned = true })

-- The `matches!` of `transition_worker`.
unfoldable pub worker_allowed : WorkerState → WorkerState → Bool
worker_allowed WorkerState.idle thread_active = true
worker_allowed thread_active turn_active = true
worker_allowed thread_active shutting_down = true
worker_allowed turn_active shutting_down = true
worker_allowed shutting_down stopped = true
worker_allowed _ _ = false

-- The `matches!` of `transition_turn`.
unfoldable pub turn_allowed : TurnState → TurnState → Bool
turn_allowed TurnState.idle thread_started = true
turn_allowed thread_started turn_started = true
turn_allowed turn_started awaiting_approval = true
turn_allowed awaiting_approval turn_started = true
turn_allowed awaiting_approval interrupted = true
turn_allowed turn_started interrupted = true
turn_allowed turn_started completed = true
turn_allowed turn_started failed = true
turn_allowed interrupted failed = true
turn_allowed _ _ = false

-- The methods, as functions of the state: the result, and the state after it.
abbrev pub Outcome : Type 0
Outcome = Result StateError (Unit {0}) × SessionState

abbrev pub Method : Type 0
Method = Exec SessionState StateError (Unit {0})

unfoldable pub transition_worker : WorkerState → Method
unfolding worker_allowed
transition_worker to s =
    if not (worker_allowed s.worker to)
    then (err (invalid_worker_transition s.worker to), poison s)
    else (ok tt, emit (worker_transition s.worker to) (record s { worker = to }))

unfoldable pub transition_turn : TurnState → Method
unfolding turn_allowed
transition_turn to s =
    if not (turn_allowed s.turn to)
    then (err (invalid_turn_transition s.turn to), poison s)
    else (ok tt, emit (turn_transition s.turn to) (record s { turn = to }))

unfoldable pub on_thread_started : Method
on_thread_started = do transition_worker thread_active; transition_turn thread_started

unfoldable pub on_turn_started : Method
on_turn_started = do transition_worker turn_active; transition_turn turn_started

unfoldable pub on_approval_requested : Text → Text → Method
on_approval_requested key method = do
  transition_turn awaiting_approval
  modify (emit (approval_requested key method))

abbrev pub is_model : ApprovalSource → Bool
is_model model = true
is_model _ = false

abbrev pub is_allow : ApprovalDecision → Bool
is_allow allow = true
is_allow _ = false

-- The turn state that a decision leads to.
unfoldable pub decided_turn : ApprovalDecision → TurnState
decided_turn allow = turn_started
decided_turn deny = interrupted
decided_turn timeout = interrupted

unfoldable pub on_approval_decided : Text → Text → ApprovalDecision → ApprovalSource → Method
unfolding decided_turn
on_approval_decided key method decision source s =
    if is_model source && is_allow decision
    then (err (model_self_approval key), poison s)
    else transition_turn (decided_turn decision) (emit (approval_decided key method decision) s)

unfoldable pub on_interrupt_requested : Text → Text → Method
on_interrupt_requested thread_id turn_id = do
  modify (emit (interrupt_requested thread_id turn_id))
  transition_turn interrupted

unfoldable pub on_turn_completed : Method
on_turn_completed = transition_turn completed

unfoldable pub on_turn_failed : Method
on_turn_failed = transition_turn failed

unfoldable pub on_shutdown : Method
on_shutdown = do transition_worker shutting_down; transition_worker stopped

-- The public methods that change the state, as one sum.
pub data Call : Type 0 where
  poison_session thread_started turn_started turn_completed turn_failed shutdown : Call
  approval_requested : Text → Text → Call
  approval_decided : Text → Text → ApprovalDecision → ApprovalSource → Call
  interrupt_requested : Text → Text → Call

unfoldable pub call : Call → Method
call poison_session = modify poison
call Call.thread_started = on_thread_started
call Call.turn_started = on_turn_started
call turn_completed = on_turn_completed
call turn_failed = on_turn_failed
call shutdown = on_shutdown
call (Call.approval_requested key method) = on_approval_requested key method
call (Call.approval_decided key method decision source) =
    on_approval_decided key method decision source
call (Call.interrupt_requested thread_id turn_id) = on_interrupt_requested thread_id turn_id

-- The state after a history of calls; the callers go on after a failed call too.
unfoldable pub run : SessionState → List Call → SessionState
run s [] = s
run s (c ∷ cs) = run (call c s).1 cs
