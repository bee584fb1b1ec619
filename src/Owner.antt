-- ===== src/Owner.antt =====
-- The runtime owner's record of turns and of their replayable events: src/api.rs, OwnerState and
-- push_event.
pub mod Turns
pub mod Updates
pub mod Oldest
pub mod Room
pub mod Replay
pub mod Push
pub mod Terminal
pub mod Same
pub mod Settled
pub mod Once
pub mod Names
pub mod Admit
pub mod Decide
pub mod Interrupt
pub mod Loop
pub mod Keeps
pub mod Pruned
pub mod Changes
pub mod Admitted
pub mod Invariant
pub mod History
pub mod Liveness
pub mod Decided
pub mod Tests
pub mod HistoryTests
use spark_runner.Prelude.{
  ℕ, zero, suc, ◌+◌, ◌*◌, Bool, true, false, not, List, [], ◌∷◌, ◌++◌, Option, none, some, ltb, leb,
  if◌then◌else◌, length, saturating_add, saturating_sub, next_u64,
}
use spark_runner.Prelude.Text.{Text, text_eq}

abbrev pub max_events_per_turn : ℕ
max_events_per_turn = 256

abbrev pub max_event_bytes : ℕ
max_event_bytes = 16 * 1024

abbrev pub max_sse_replay_bytes : ℕ
max_sse_replay_bytes = 1024 * 1024

pub data TurnStatus : Type 0 where
  running waiting_approval interrupted completed failed : TurnStatus

unfoldable pub is_terminal : TurnStatus → Bool
is_terminal interrupted = true
is_terminal completed = true
is_terminal failed = true
is_terminal _ = false

-- The payload is a serde_json value that the owner only stores.
pub record TurnEvent (P : Type 0) : Type 0 where
  pub id : ℕ
  pub kind : Text
  pub turn_id : Text
  pub payload : P
  pub terminal : Bool

-- The broadcast sender is left out; `control` tells whether there is a control channel.
pub record TurnRecord (P : Type 0) : Type 0 where
  pub id : Text
  pub thread_id : Text
  pub workspace_alias : Text
  pub status : TurnStatus
  pub events : List (TurnEvent P)
  pub event_bytes : ℕ
  pub control : Bool
  pub controlling_sse_active : Bool

pub data ApprovalStatus : Type 0 where
  pending delivering approved denied : ApprovalStatus

-- `decision` tells whether the sender of the decision has not been taken yet.
pub record ApprovalRecord : Type 0 where
  pub id : Text
  pub turn_id : Text
  pub status : ApprovalStatus
  pub allow_permitted : Bool
  pub decision : Bool

pub record ThreadRecord : Type 0 where
  pub id : Text
  pub workspace_alias : Text

-- The model's name is there exactly when the quota is, so one Boolean stands for both.
pub record RuntimeSnapshot : Type 0 where
  pub ready : Bool
  pub quota_available : Bool

-- A hash map is the list of its records, each with its key as its id. The journal writer is left
-- out.
pub record OwnerState (P : Type 0) : Type 0 where
  pub snapshot : RuntimeSnapshot
  pub next_thread : ℕ
  pub next_turn : ℕ
  pub next_event : ℕ
  pub next_approval : ℕ
  pub active_turns : ℕ
  pub replay_bytes : ℕ
  pub threads : List ThreadRecord
  pub turns : List (TurnRecord P)
  pub approvals : List ApprovalRecord

-- `OwnerState::new`
unfoldable pub new_owner : {P : Type 0} → Bool → OwnerState P
new_owner live = record {
  snapshot = record { ready = not live; quota_available = not live };
  next_thread = 1;
  next_turn = 1;
  next_event = 1;
  next_approval = 1;
  active_turns = 0;
  replay_bytes = 0;
  threads = [];
  turns = [];
  approvals = [];
}

-- The codes of the rejections.
pub data Rejection : Type 0 where
  not_found approval_decided approval_closed approval_delivery_failed : Rejection
  thread_capacity runtime_not_ready saturated turn_capacity approval_capacity : Rejection
  journal_unavailable turn_terminal turn_closed interrupt_timeout : Rejection

-- The earlier of two, the first one of equals.
abbrev pub older : Option (Text × ℕ) → Option (Text × ℕ) → Option (Text × ℕ)
older none o = o
older (some a) none = some a
older (some a) (some b) = if leb a.1 b.1 then some a else some b

module _ {P : Type 0} where
  -- `turns.get`
  unfoldable pub find_turn : Text → List (TurnRecord P) → Option (TurnRecord P)
  find_turn key [] = none
  find_turn key (t ∷ ts) = if text_eq key t.id then some t else find_turn key ts

  -- What is done to the record that `turns.get_mut` yields.
  unfoldable pub update_turn :
      Text → (TurnRecord P → TurnRecord P) → List (TurnRecord P) → List (TurnRecord P)
  update_turn key f [] = []
  update_turn key f (t ∷ ts) = if text_eq key t.id then f t ∷ ts else t ∷ update_turn key f ts

  -- A turn's key with the id of its first event, if it has one.
  abbrev pub first_event : Text → List (TurnEvent P) → Option (Text × ℕ)
  first_event key [] = none
  first_event key (e ∷ es) = some (key, e.id)

  -- `filter_map(...).min_by_key(...)`
  unfoldable pub oldest_turn : List (TurnRecord P) → Option (Text × ℕ)
  oldest_turn [] = none
  oldest_turn (t ∷ ts) = older (first_event t.id t.events) (oldest_turn ts)

  -- How many events the turns keep: the loop of `push_event` turns no more often.
  unfoldable pub event_count : List (TurnRecord P) → ℕ
  event_count [] = 0
  event_count (t ∷ ts) = length t.events + event_count ts

  -- `encoded_len` is the length of `serde_json::to_vec`, none where it fails.
  module _ (encoded_len : TurnEvent P → Option ℕ) where
    abbrev pub or_zero : Option ℕ → ℕ
    or_zero none = 0
    or_zero (some n) = n

    abbrev pub size : TurnEvent P → ℕ
    size e = or_zero (encoded_len e)

    abbrev pub first_size : List (TurnEvent P) → ℕ
    first_size [] = 0
    first_size (e ∷ es) = size e

    abbrev pub rest : List (TurnEvent P) → List (TurnEvent P)
    rest [] = []
    rest (e ∷ es) = es

    -- `events.remove(0)` with the turn's accounting; nothing on a turn without events.
    unfoldable pub remove_first : TurnRecord P → TurnRecord P
    remove_first t = record t {
      events = rest t.events;
      event_bytes = saturating_sub t.event_bytes (first_size t.events);
    }

    -- The body of the loop of `push_event`, once the oldest turn is known.
    unfoldable pub remove_oldest : Text → OwnerState P → OwnerState P
    unfolding find_turn update_turn remove_first
    remove_oldest key s = elim (find_turn key s.turns) [
      | none ↦ s
      | some t ↦ record s {
        replay_bytes = saturating_sub s.replay_bytes (first_size t.events);
        turns = update_turn key remove_first s.turns;
      }
    ]

    abbrev pub over_budget : ℕ → OwnerState P → Bool
    over_budget incoming s = ltb max_sse_replay_bytes (saturating_add s.replay_bytes incoming)

    -- The loop of `push_event`, on fuel that counts the events left: false is its `return`, where no
    -- turn has an event left.
    unfoldable pub make_room : ℕ → ℕ → OwnerState P → Bool × OwnerState P
    unfolding oldest_turn
    make_room zero incoming s = (not (over_budget incoming s), s)
    make_room (suc fuel) incoming s =
        if over_budget incoming s
        then elim (oldest_turn s.turns) [
          | none ↦ (false, s)
          | some oldest ↦ make_room fuel incoming (remove_oldest oldest.0 s)
        ]
        else (true, s)

    -- The turn with the event at its end, before the oldest one is dropped.
    unfoldable pub push_turn : TurnEvent P → ℕ → TurnRecord P → TurnRecord P
    push_turn e n t = record t {
      events = t.events ++ e ∷ [];
      event_bytes = saturating_add t.event_bytes n;
    }

    abbrev pub too_many : TurnRecord P → Bool
    too_many t = ltb max_events_per_turn (length t.events)

    unfoldable pub trim_turn : TurnRecord P → TurnRecord P
    trim_turn t = if too_many t then remove_first t else t

    -- `removed_len`
    unfoldable pub trimmed_len : TurnRecord P → ℕ
    trimmed_len t = if too_many t then first_size t.events else 0

    -- The end of `push_event`, after its loop.
    unfoldable pub store_event : Text → TurnEvent P → ℕ → Bool × OwnerState P → OwnerState P
    unfolding push_turn trim_turn trimmed_len
    store_event key e n (false, s) = s
    store_event key e n (true, s) = elim (find_turn key s.turns) [
      | none ↦ s
      | some t ↦ record s {
        turns = update_turn key (λ u. trim_turn (push_turn e n u)) s.turns;
        replay_bytes =
            saturating_sub (saturating_add s.replay_bytes n) (trimmed_len (push_turn e n t));
      }
    ]

    abbrev pub new_event : OwnerState P → Text → Text → P → Bool → TurnEvent P
    new_event s key kind payload terminal = record {
      id = s.next_event;
      kind = kind;
      turn_id = key;
      payload = payload;
      terminal = terminal;
    }

    unfoldable pub push_event : OwnerState P → Text → Text → P → Bool → OwnerState P
    unfolding make_room store_event
    push_event s key kind payload terminal =
        let e = new_event s key kind payload terminal in
        let s' = record s { next_event = next_u64 s.next_event } in
        elim (encoded_len e) [
          | none ↦ s'
          | some n ↦
              if ltb max_event_bytes n
              then s'
              else store_event key e n (make_room (event_count s'.turns) n s')
        ]
