-- ===== src/Owner/Admit.antt =====
-- Admission of threads and turns: src/api.rs, prune_terminal_records, owner_create_thread,
-- owner_create_turn, owner_subscribe, turn_response, owner_finished.
use spark_runner.Prelude.{
  ℕ, ◌+◌, Bool, true, false, not, ◌&&◌, ◌||◌, List, [], ◌∷◌, Option, none, some, ltb, leb,
  if◌then◌else◌, length, saturating_sub, next_u64,
}
use spark_runner.Prelude.Exec.{Result, ok, err}
use spark_runner.Prelude.Text.{Text, codes, text_eq, contains}
use spark_runner.Owner.{
  TurnStatus, TurnEvent, TurnRecord, ThreadRecord, ApprovalRecord, ApprovalStatus, OwnerState,
  Rejection, running, interrupted, completed, failed, not_found, thread_capacity, runtime_not_ready,
  saturated, turn_capacity, is_terminal, find_turn, update_turn, push_event,
}
use spark_runner.Owner.Terminal.{is_pending, terminalize}
use spark_runner.Owner.Names.{thread_name, turn_name}

abbrev pub max_concurrent_turns : ℕ
max_concurrent_turns = 1

abbrev pub max_threads : ℕ
max_threads = 128

abbrev pub max_turns : ℕ
max_turns = 256

-- Who cancels a turn.
pub data Authority : Type 0 where
  interrupt approval_timeout turn_deadline controlling_sse_drop shutdown : Authority

-- What the owner takes from serde_json: the length of an encoded event, and the payloads that it
-- makes of what they tell. `D` is the descriptor of an approval.
pub record OwnerLib (P D : Type 0) : Type 0 where
  pub encoded_len : TurnEvent P → Option ℕ
  pub no_fields : P
  pub denied_payload : Text → P
  pub decided_payload : Text → ApprovalStatus → P
  pub cancelled_payload : Text → Authority → P
  pub requested_payload : Text → Text → Text → D → P
  pub summary_payload : Text → P
  pub status_payload : TurnStatus → P
  pub error_payload : Text → P

-- `HashMap::insert`
unfoldable pub insert_by : {A : Type 0} → (A → Text) → A → List A → List A
insert_by id a [] = a ∷ []
insert_by id a (b ∷ bs) = if text_eq (id a) (id b) then a ∷ bs else b ∷ insert_by id a bs

unfoldable pub find_thread : Text → List ThreadRecord → Option ThreadRecord
find_thread key [] = none
find_thread key (t ∷ ts) = if text_eq key t.id then some t else find_thread key ts

abbrev pub is_known {ℓ} : {A : Type ℓ} → Option A → Bool
is_known none = false
is_known (some a) = true

pub record TurnResponse : Type 0 where
  pub id : Text
  pub thread_id : Text
  pub workspace_alias : Text
  pub status : TurnStatus

-- What a subscription is given; its receiver is left out.
pub record Subscription (P : Type 0) : Type 0 where
  pub replay : List (TurnEvent P)
  pub terminal : Bool
  pub controller : Bool

module _ {P : Type 0} where
  -- The turns that the pruning leaves.
  unfoldable pub live_turns : List (TurnRecord P) → List (TurnRecord P)
  live_turns [] = []
  live_turns (t ∷ ts) = let rest = live_turns ts in if is_terminal t.status then rest else t ∷ rest

  -- `replay_bytes` after the removal of the terminal turns.
  unfoldable pub live_bytes : ℕ → List (TurnRecord P) → ℕ
  live_bytes n [] = n
  live_bytes n (t ∷ ts) =
      live_bytes (if is_terminal t.status then saturating_sub n t.event_bytes else n) ts

  -- `approvals.retain`
  unfoldable pub retained : List (TurnRecord P) → List ApprovalRecord → List ApprovalRecord
  retained turns [] = []
  retained turns (a ∷ others) =
      let rest = retained turns others in
      if is_pending a.status || is_known (find_turn a.turn_id turns) then a ∷ rest else rest

  unfoldable pub prune_terminal_records : OwnerState P → OwnerState P
  unfolding live_turns live_bytes retained
  prune_terminal_records s = record s {
    turns = live_turns s.turns;
    replay_bytes = live_bytes s.replay_bytes s.turns;
    approvals = retained (live_turns s.turns) s.approvals;
  }

  -- The pruning at a capacity, which both creations begin with.
  abbrev pub prune_at : Bool → OwnerState P → OwnerState P
  prune_at full s = if full then prune_terminal_records s else s

  unfoldable pub owner_create_thread :
      OwnerState P → Text → Result Rejection ThreadRecord × OwnerState P
  unfolding insert_by
  owner_create_thread s workspace_alias =
      let s' = prune_at (leb max_threads (length s.threads)) s in
      let thread : ThreadRecord = record {
        id = thread_name s'.next_thread;
        workspace_alias = workspace_alias;
      } in
      if leb max_threads (length s'.threads) then (err thread_capacity, s') else (
        ok thread,
        record s' {
          next_thread = next_u64 s'.next_thread;
          threads = insert_by (λ t. t.id) thread s'.threads;
        },
      )

  abbrev pub new_turn : Text → ThreadRecord → Text → TurnRecord P
  new_turn id thread thread_id = record {
    id = id;
    thread_id = thread_id;
    workspace_alias = thread.workspace_alias;
    status = running;
    events = [];
    event_bytes = 0;
    control = true;
    controlling_sse_active = false;
  }

  -- The turn is counted and inserted, before its first event.
  unfoldable pub admit_turn : OwnerState P → Text → ThreadRecord → OwnerState P
  unfolding insert_by
  admit_turn s thread_id thread = record s {
    next_turn = next_u64 s.next_turn;
    active_turns = s.active_turns + 1;
    turns = insert_by (λ t. t.id) (new_turn (turn_name s.next_turn) thread thread_id) s.turns;
  }

  abbrev pub respond : TurnRecord P → TurnResponse
  respond t = record {
    id = t.id;
    thread_id = t.thread_id;
    workspace_alias = t.workspace_alias;
    status = t.status;
  }

  unfoldable pub turn_response : OwnerState P → Text → Result Rejection TurnResponse
  turn_response s id = elim (find_turn id s.turns) [
    | none ↦ err not_found
    | some turn ↦ ok (respond turn)
  ]

  -- `filter(|event| event.id > last_seen)`
  unfoldable pub events_after : ℕ → List (TurnEvent P) → List (TurnEvent P)
  events_after last_seen [] = []
  events_after last_seen (e ∷ es) =
      let rest = events_after last_seen es in if ltb last_seen e.id then e ∷ rest else rest

  abbrev pub set_controller : Bool → TurnRecord P → TurnRecord P
  set_controller active t = record t { controlling_sse_active = active }

  unfoldable pub owner_subscribe :
      OwnerState P → Text → ℕ → Bool → Result Rejection (Subscription P) × OwnerState P
  unfolding events_after
  owner_subscribe s id last_seen observer = elim (find_turn id s.turns) [
    | none ↦ (err not_found, s)
    | some turn ↦
        let terminal = is_terminal turn.status in
        let controller = not observer && not terminal && not turn.controlling_sse_active in
        (
          ok (record {
            replay = events_after last_seen turn.events;
            terminal = terminal;
            controller = controller;
          }),
          if controller
              then record s { turns = update_turn id (set_controller true) s.turns }
              else s,
        )
  ]

  abbrev pub not_ready : OwnerState P → OwnerState P
  not_ready s = record s { snapshot = record { ready = false; quota_available = false } }

module _ {P D : Type 0} (lib : OwnerLib P D) where
  open lib use {
    encoded_len, no_fields, denied_payload, summary_payload, status_payload, error_payload,
  }

  -- `owner_create_turn` without the tasks that it spawns: their messages are commands of the loop.
  unfoldable pub owner_create_turn :
      OwnerState P → Text → Result Rejection TurnResponse × OwnerState P
  unfolding admit_turn
  owner_create_turn s thread_id =
      if not s.snapshot.ready
      then (err runtime_not_ready, s)
      else if leb max_concurrent_turns s.active_turns
      then (err saturated, s)
      else let s' = prune_at (leb max_turns (length s.turns)) s in
        if leb max_turns (length s'.turns)
        then (err turn_capacity, s')
        else elim (find_thread thread_id s'.threads) [
          | none ↦ (err not_found, s')
          | some thread ↦
              let id = turn_name s'.next_turn in
              (
                ok (respond (new_turn {P = P} id thread thread_id)),
                push_event encoded_len (admit_turn s' thread_id thread) id (codes "turn.started")
                    no_fields false,
              )
        ]

  -- The `match` of `owner_finished`: none is an error of the run.
  unfoldable pub finished_as : Option Text → TurnStatus × (Text × P)
  finished_as none = (failed, (codes "turn.failed", error_payload (codes "runtime_failure")))
  finished_as (some summary) =
      if contains summary (codes "turn_status=completed")
      then (completed, (codes "turn.completed", summary_payload summary))
      else if contains summary (codes "turn_status=interrupted")
      then (interrupted, (codes "turn.interrupted", status_payload interrupted))
      else (failed, (codes "turn.failed", error_payload (codes "turn_rejected")))

  unfoldable pub owner_finished : OwnerState P → Text → Option Text → OwnerState P
  unfolding finished_as
  owner_finished s turn_id result =
      let s' = if is_known result then s else not_ready s in
      let (status, (kind, payload)) = finished_as result in
      terminalize encoded_len denied_payload s' turn_id status kind payload
