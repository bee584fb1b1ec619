-- ===== src/Owner/HistoryTests.antt =====
-- Runs of the owner's loop.
use spark_runner.Prelude.{ℕ, ◌+◌, ◌≡◌, refl, true, false, [], ◌∷◌, some, arith, length, List}
use spark_runner.Prelude.Exec.{ok}
use spark_runner.Prelude.Text.{Text, codes, text_eq}
use spark_runner.Owner.{ThreadRecord, OwnerState, new_owner}
use spark_runner.Owner.Names.{turn_name, thread_name}
use spark_runner.Owner.Admit.{
  OwnerLib, owner_create_thread, find_thread, new_turn, respond, owner_create_turn,
}
use spark_runner.Owner.Interrupt.{Answers, confirmed}
use spark_runner.Owner.Loop.{
  Command, create_thread, create_turn, pending_approval, decide, finished, deadline, subscribe, run,
}
use spark_runner.Owner.Invariant.{IsConsistent}
use spark_runner.Owner.History.{run-new_owner-IsConsistent}
use spark_runner.Owner.Liveness.{IsOnlyActive, owner_create_turn-starts}

-- A payload is the length of what it tells, and a descriptor is a text.
abbrev plain : OwnerLib ℕ Text
plain = record {
  encoded_len = λ e. some (80 + e.payload);
  no_fields = 2;
  denied_payload = λ id. 40 + length id;
  decided_payload = λ id status. 40 + length id;
  cancelled_payload = λ id authority. 60 + length id;
  requested_payload =
      λ id key method descriptor. 60 + length id + length key + length method + length descriptor;
  summary_payload = λ summary. 30 + length summary;
  status_payload = λ status. 30;
  error_payload = λ class. 50 + length class;
}

abbrev willing : Answers
willing = record { deliver = λ id decision. true; sent = true; acknowledged = confirmed }

-- One turn is approved and finishes; the next is cancelled at its deadline while it waits.
abbrev two_turns : List (Command Text)
two_turns =
    create_thread (codes "main")
    ∷ create_turn true (codes "thread_1")
    ∷ subscribe (codes "turn_1") 0 false
    ∷ pending_approval (codes "turn_1") (record {
      request_key = codes "key";
      method = codes "exec";
      descriptor = codes "ls";
      allow_permitted = true;
    })
    ∷ decide (codes "approval_1") true (λ d. true)
    ∷ finished (codes "turn_1") (some (codes "turn_status=completed"))
    ∷ create_turn true (codes "thread_1")
    ∷ pending_approval (codes "turn_2") (record {
      request_key = codes "key";
      method = codes "exec";
      descriptor = codes "rm";
      allow_permitted = true;
    })
    ∷ deadline (codes "turn_2") willing
    ∷ []

run-new_owner-IsConsistent_example :
    IsConsistent plain (1 + length two_turns) (run plain (new_owner false) two_turns)
run-new_owner-IsConsistent_example = run-new_owner-IsConsistent plain false two_turns (ground arith)

abbrev one_thread : OwnerState ℕ
one_thread = run plain (new_owner false) (create_thread (codes "main") ∷ [])

abbrev main_thread : ThreadRecord
main_thread = record { id = codes "thread_1"; workspace_alias = codes "main" }

one_thread-IsConsistent : IsConsistent plain 2 one_thread
one_thread-IsConsistent =
    run-new_owner-IsConsistent plain false (create_thread (codes "main") ∷ []) (ground arith)

one_thread_state :
    (one_thread.snapshot.ready ≡ true)
    × (one_thread.active_turns ≡ 0)
    × (find_thread (codes "thread_1") one_thread.threads ≡ some main_thread)
unfolding run new_owner owner_create_thread thread_name find_thread text_eq
one_thread_state = (refl, refl, refl)

owner_create_turn-starts_example :
    ((owner_create_turn plain one_thread (codes "thread_1")).0
      ≡ ok (
          respond
            (new_turn {P = ℕ} (turn_name one_thread.next_turn) main_thread (codes "thread_1"))))
    × IsOnlyActive plain
        (new_turn (turn_name one_thread.next_turn) main_thread (codes "thread_1"))
        (owner_create_turn plain one_thread (codes "thread_1")).1
owner_create_turn-starts_example =
    owner_create_turn-starts plain 2 one_thread (codes "thread_1") main_thread
      one_thread-IsConsistent one_thread_state.0 one_thread_state.1 one_thread_state.2
