-- ===== src/Session/Terminal.antt =====
-- Terminal turns: src/state.rs, SessionState.
use spark_runner.Prelude.{◌≡◌, refl, sym, ◌∙◌, ap, subst, false, List, arith}
use spark_runner.Session.{SessionState, Call, TurnState, turn_allowed, decided_turn, call, run}
use spark_runner.Session.Keeps.{run_keeps}
use spark_runner.Session.Fields.{Phase, phase}
use spark_runner.Session.Machine.{Move, machine, view-call}

abbrev pub IsTerminal : TurnState → Type 0
IsTerminal TurnState.completed = Unit {0}
IsTerminal TurnState.failed = Unit {0}
IsTerminal _ = ⊥

turn_allowed-terminal : (t to : TurnState) → IsTerminal t → turn_allowed t to ≡ false
unfolding turn_allowed
turn_allowed-terminal TurnState.completed to h = ground arith
turn_allowed-terminal TurnState.failed to h = ground arith
turn_allowed-terminal _ to h = absurd h

machine-terminal : (c : Call) (p : Phase) → IsTerminal p.turn → (machine c p).1.turn ≡ p.turn
unfolding machine decided_turn
machine-terminal Call.poison_session p h = refl
machine-terminal _ p h = ground (
  arith,
  turn_allowed-terminal p.turn TurnState.thread_started h,
  turn_allowed-terminal p.turn TurnState.turn_started h,
  turn_allowed-terminal p.turn TurnState.awaiting_approval h,
  turn_allowed-terminal p.turn TurnState.interrupted h,
  turn_allowed-terminal p.turn TurnState.completed h,
  turn_allowed-terminal p.turn TurnState.failed h,
)

call-terminal : (c : Call) (s : SessionState) → IsTerminal s.turn → (call c s).1.turn ≡ s.turn
call-terminal c s h = ap (λ (m : Move). m.1.turn) (view-call c s) ∙ machine-terminal c (phase s) h

-- A turn that has completed or failed keeps that state whatever calls follow.
pub run-terminal :
    (s : SessionState) (cs : List Call) → IsTerminal s.turn → (run s cs).turn ≡ s.turn
run-terminal s cs h =
    run_keeps (λ t. t.turn ≡ s.turn) (λ c t e. call-terminal c t (subst IsTerminal (sym e) h) ∙ e) s
      cs refl
