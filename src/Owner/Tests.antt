-- ===== src/Owner/Tests.antt =====
-- Runs of the owner's replay buffer.
use spark_runner.Prelude.{ℕ, ◌-◌, ◌+◌, ◌≡◌, refl, true, false, [], ◌∷◌, Option, some, arith}
use spark_runner.Prelude.Text.{codes, text_eq}
use spark_runner.Owner.{
  new_owner, approval_decided, TurnEvent, TurnRecord, OwnerState, ApprovalRecord, running, failed,
  completed, pending, approved, denied, is_terminal, find_turn, update_turn, event_count, make_room,
  push_turn, trim_turn, trimmed_len, store_event, new_event, push_event,
}
use spark_runner.Owner.Terminal.{terminalize}
use spark_runner.Prelude.{All}
use spark_runner.Owner.Settled.{AllSettle, IsNotAwaited}
use spark_runner.Owner.Once.{terminalize-Ends, terminalize-terminalize}
use spark_runner.Prelude.Exec.{err}
use spark_runner.Owner.Decide.{find_approval, owner_decide}
use spark_runner.Owner.Decided.{owner_decide-owner_decide}
use spark_runner.Owner.Room.{IsSound}
use spark_runner.Owner.Push.{EndsIn, push_event-IsSound, push_event-EndsIn}

-- An encoding whose payload is its own length.
abbrev encoded : TurnEvent ℕ → Option ℕ
encoded e = some (40 + e.payload)

abbrev started : TurnEvent ℕ
started = record {
  id = 1;
  kind = codes "turn.started";
  turn_id = codes "turn_1";
  payload = 60;
  terminal = false;
}

abbrev turn_one : TurnRecord ℕ
turn_one = record {
  id = codes "turn_1";
  thread_id = codes "thread_1";
  workspace_alias = codes "main";
  status = running;
  events = started ∷ [];
  event_bytes = 100;
  control = true;
  controlling_sse_active = false;
}

abbrev waiting : ApprovalRecord
waiting = record {
  id = codes "approval_1";
  turn_id = codes "turn_1";
  status = pending;
  allow_permitted = true;
  decision = true;
}

abbrev one_turn : OwnerState ℕ
one_turn = record (new_owner false) {
  next_turn = 2;
  next_event = 2;
  active_turns = 1;
  replay_bytes = 100;
  turns = turn_one ∷ [];
  approvals = waiting ∷ [];
}

one_turn-IsSound : IsSound encoded one_turn
unfolding find_turn
one_turn-IsSound = (((refl, (ground arith, tt), ground arith), tt), (refl, tt), refl, ground arith)

one_turn_found : find_turn (codes "turn_1") one_turn.turns ≡ some turn_one
unfolding find_turn text_eq
one_turn_found = refl

pushed_bytes :
    (push_event encoded one_turn (codes "turn_1") (codes "turn.completed") 500 true).replay_bytes
    ≡ 640
unfolding push_event make_room store_event find_turn update_turn push_turn trim_turn trimmed_len
    event_count text_eq
pushed_bytes = refl

push_event-IsSound_example :
    IsSound encoded (push_event encoded one_turn (codes "turn_1") (codes "turn.completed") 500 true)
push_event-IsSound_example =
    push_event-IsSound encoded one_turn (codes "turn_1") (codes "turn.completed") 500 true
      one_turn-IsSound

push_event-EndsIn_example :
    (u : TurnRecord ℕ) × ((find_turn
          (codes "turn_1")
          (push_event encoded one_turn (codes "turn_1") (codes "turn.completed") 500 true).turns
        ≡ some u)
      × EndsIn
          (new_event encoded one_turn (codes "turn_1") (codes "turn.completed") 500 true)
          u.events)
push_event-EndsIn_example =
    push_event-EndsIn encoded one_turn (codes "turn_1") (codes "turn.completed") 500 true 540
      turn_one one_turn-IsSound one_turn_found refl (ground arith)

running_open : is_terminal running ≡ false
unfolding is_terminal
running_open = refl

failed_final : is_terminal failed ≡ true
unfolding is_terminal
failed_final = refl

terminalize-Ends_example :
    ((u : TurnRecord ℕ) × ((find_turn
            (codes "turn_1")
            (terminalize encoded
              (λ id. 70)
              one_turn
              (codes "turn_1")
              failed
              (codes "turn.failed")
              60).turns
          ≡ some u)
        × (u.status ≡ failed)))
    × AllSettle
        (codes "turn_1")
        (waiting ∷ [])
        (terminalize encoded
          (λ id. 70)
          one_turn
          (codes "turn_1")
          failed
          (codes "turn.failed")
          60).approvals
    × All
        (IsNotAwaited (codes "turn_1"))
        (terminalize encoded
          (λ id. 70)
          one_turn
          (codes "turn_1")
          failed
          (codes "turn.failed")
          60).approvals
    × ((terminalize encoded
          (λ id. 70)
          one_turn
          (codes "turn_1")
          failed
          (codes "turn.failed")
          60).active_turns
        ≡ 1 - 1)
terminalize-Ends_example =
    terminalize-Ends encoded (λ id. 70) one_turn (codes "turn_1") failed (codes "turn.failed") 60
      turn_one one_turn_found running_open

terminalize-terminalize_example :
    terminalize encoded
      (λ id. 70)
      (terminalize encoded (λ id. 70) one_turn (codes "turn_1") failed (codes "turn.failed") 60)
      (codes "turn_1")
      completed
      (codes "turn.completed")
      90
    ≡ terminalize encoded (λ id. 70) one_turn (codes "turn_1") failed (codes "turn.failed") 60
terminalize-terminalize_example =
    terminalize-terminalize encoded (λ id. 70) one_turn (codes "turn_1") failed completed
      (codes "turn.failed") (codes "turn.completed") 60 90 failed_final

waiting_found : find_approval (codes "approval_1") one_turn.approvals ≡ some waiting
unfolding find_approval text_eq
waiting_found = refl

owner_decide-owner_decide_example :
    owner_decide encoded
      (λ d. true)
      (λ id status. 80)
      (owner_decide encoded (λ d. true) (λ id status. 80) one_turn (codes "approval_1") approved).1
      (codes "approval_1")
      denied
    ≡ (
      err approval_decided,
      (owner_decide encoded (λ d. true) (λ id status. 80) one_turn (codes "approval_1") approved).1,
    )
owner_decide-owner_decide_example =
    owner_decide-owner_decide encoded (λ d. true) (λ id status. 80) one_turn (codes "approval_1")
      approved denied waiting waiting_found refl
