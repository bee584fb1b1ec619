-- ===== src/Owner/Invariant.antt =====
-- The invariant of the owner over every history of commands: src/api.rs, owner_loop.
use spark_runner.Prelude.{
  ℕ, suc, ◌+◌, ◌≤◌, ◌<◌, ◌≡◌, refl, sym, ap, ◌∙◌, subst, Bool, true, false, List, [], ◌∷◌, some,
  arith, length, All, All-append, ◌++◌, next_u64, u64_max,
}
use spark_runner.Prelude.Text.{Text}
use spark_runner.Owner.{
  TurnStatus, TurnRecord, ThreadRecord, ApprovalRecord, OwnerState, max_event_bytes,
  max_events_per_turn, size, waiting_approval, running, is_terminal, find_turn, update_turn,
  push_event,
}
use spark_runner.Owner.Terminal.{deny_pending, set_status}
use spark_runner.Owner.Turns.{weigh, weigh-update_turn, All-update_turn, AreDistinct-update_turn}
use spark_runner.Owner.Updates.{weigh-update_same}
use spark_runner.Owner.Room.{bytes, IsExact, IsSound}
use spark_runner.Owner.Push.{push_event-IsSound}
use spark_runner.Owner.Same.{Same-push_event}
use spark_runner.Owner.Names.{turn_name}
use spark_runner.Owner.Admit.{
  OwnerLib, max_concurrent_turns, live_turns, prune_terminal_records, new_turn, admit_turn,
  set_controller,
}
use spark_runner.Owner.Interrupt.{new_approval, is_open}
use spark_runner.Owner.Keeps.{ended, registered}
use spark_runner.Owner.Pruned.{
  active, All-live_turns, weigh-active-live_turns, weigh-live_turns_le, live_bytes-weigh,
  AreDistinct-live_turns, find_turn-live_turns, All-retained,
}
use spark_runner.Owner.Changes.{
  IsBacked, All-map, All-weaken, All-insert_by, is_open-found, is_open_of_found, IsBacked-turns,
  is_open-update_turn, IsBacked-deny_pending,
}
use spark_runner.Owner.Admitted.{
  IsNamed, find_turn-fresh, insert_by-append, weigh-append, find_turn-append, AreDistinct-append,
}

module _ {P D : Type 0} (lib : OwnerLib P D) where
  open lib use {encoded_len, denied_payload}

  -- The replay buffer is accounted for, the active turns are those that are not terminal and at most
  -- one, every turn has a name that was given out, and every pending approval is backed. `limit`
  -- bounds the counter of the names.
  pub record IsConsistent (limit : ℕ) (s : OwnerState P) : Type 0 where
    pub sound : IsSound encoded_len s
    pub counted : s.active_turns ≡ weigh (λ t. active t.status) s.turns
    pub single : s.active_turns ≤ max_concurrent_turns
    pub named : All (λ t. IsNamed s.next_turn t.id) s.turns
    pub backed : All (IsBacked s.turns) s.approvals
    pub bounded : s.next_turn ≤ limit

  -- A change of approvals alone.
  pub with_approvals :
      (limit : ℕ) (s : OwnerState P) (approvals : List ApprovalRecord)
      → IsConsistent limit s
      → All (IsBacked s.turns) approvals
      → IsConsistent limit (record s { approvals = approvals })
  with_approvals limit s approvals h backed = record {
    sound = h.sound;
    counted = h.counted;
    single = h.single;
    named = h.named;
    backed = backed;
    bounded = h.bounded;
  }

  -- An update of a turn that leaves its id and its events alone.
  IsSound-update_turn :
      (s : OwnerState P) (key : Text) (f : TurnRecord P → TurnRecord P)
      → ((t : TurnRecord P) → (f t).id ≡ t.id)
      → ((t : TurnRecord P) → (f t).event_bytes ≡ t.event_bytes)
      → ((t : TurnRecord P) → (f t).events ≡ t.events)
      → IsSound encoded_len s
      → IsSound encoded_len (record s { turns = update_turn key f s.turns })
  IsSound-update_turn s key f ids same_bytes same_events (exact, distinct, total, bounded) = (
    All-update_turn (IsExact encoded_len) key f s.turns exact (λ t h. (
      same_bytes t ∙ h.0 ∙ ap (bytes encoded_len) (sym (same_events t)),
      subst (All (λ e. size encoded_len e ≤ max_event_bytes)) (sym (same_events t)) h.1,
      subst (λ es. length es ≤ max_events_per_turn) (sym (same_events t)) h.2,
    )),
    AreDistinct-update_turn key f s.turns ids distinct,
    total ∙ sym (weigh-update_same (λ t. t.event_bytes) key f s.turns same_bytes),
    bounded,
  )

  pub IsConsistent-pushed :
      (limit : ℕ) (s : OwnerState P) (key kind : Text) (payload : P) (terminal : Bool)
      → IsConsistent limit s
      → IsConsistent limit (push_event encoded_len s key kind payload terminal)
  IsConsistent-pushed limit s key kind payload terminal h =
      let r = push_event encoded_len s key kind payload terminal in
      let same = Same-push_event encoded_len s key kind payload terminal in
      record {
        sound = push_event-IsSound encoded_len s key kind payload terminal h.sound;
        counted = same.active_turns ∙ h.counted ∙ sym (same.weights active);
        single = subst (λ n. n ≤ max_concurrent_turns) (sym same.active_turns) h.single;
        named =
            subst (λ n. All (λ t. IsNamed n t.id) r.turns) (sym same.next_turn)
              (same.every (λ r. IsNamed s.next_turn r.id) h.named);
        backed = subst (All (IsBacked r.turns)) (sym same.approvals) (
            IsBacked-turns s.turns r.turns s.approvals
              (λ j e.
                let (t, (found, open_turn)) = is_open-found s.turns j e in
                let (v, (there, status)) = same.heads j t found in
                is_open_of_found r.turns j v there
                  (ap (λ r. is_terminal r.status) status ∙ open_turn))
              h.backed);
        bounded = subst (λ n. n ≤ limit) (sym same.next_turn) h.bounded;
      }

  active-open : (status : TurnStatus) → is_terminal status ≡ false → active status ≡ 1
  active-open status h = rw h refl

  active-terminal : (status : TurnStatus) → is_terminal status ≡ true → active status ≡ 0
  active-terminal status h = rw h refl

  waiting_open : is_terminal waiting_approval ≡ false
  unfolding is_terminal
  waiting_open = refl

  running_open : is_terminal running ≡ false
  unfolding is_terminal
  running_open = refl

  pub IsConsistent-waits :
      (limit : ℕ) (s : OwnerState P) (turn_id id : Text) (next : ℕ)
      → is_open s.turns turn_id ≡ true
      → IsConsistent limit s
      → IsConsistent limit (registered lib s turn_id id true next)
  IsConsistent-waits limit s turn_id id next open_turn h =
      let waiting = set_status encoded_len denied_payload waiting_approval in
      let us = update_turn turn_id waiting s.turns in
      let stays_open : (j : Text) → is_open s.turns j ≡ true → is_open us j ≡ true =
        λ j. is_open-update_turn s.turns turn_id j waiting (λ t. refl) (λ t _. waiting_open) in
      let (t, (found, not_ended)) = is_open-found s.turns turn_id open_turn in
      let sums = weigh-update_turn (λ u. active u.status) turn_id waiting s.turns t found in
      record {
        sound = IsSound-update_turn s turn_id waiting (λ t. refl) (λ t. refl) (λ t. refl) h.sound;
        counted = omega (
          arith,
          h.counted,
          sums,
          active-open t.status not_ended,
          active-open waiting_approval waiting_open,
        );
        single = h.single;
        named =
            All-update_turn (λ u. IsNamed s.next_turn u.id) turn_id waiting s.turns h.named
              (λ u n. n);
        backed =
            All-insert_by (IsBacked us) (λ a. a.id) (new_approval id turn_id true) s.approvals
              (refl, refl, stays_open turn_id open_turn)
              (IsBacked-turns s.turns us s.approvals stays_open h.backed);
        bounded = h.bounded;
      }

  pub IsConsistent-ends :
      (limit : ℕ) (s : OwnerState P) (key : Text) (status : TurnStatus) (t : TurnRecord P)
      → find_turn key s.turns ≡ some t
      → is_terminal t.status ≡ false
      → is_terminal status ≡ true
      → IsConsistent limit s
      → IsConsistent limit (ended lib s key status)
  IsConsistent-ends limit s key status t found open_turn final h =
      let ends = set_status encoded_len denied_payload status in
      let sums = weigh-update_turn (λ u. active u.status) key ends s.turns t found in
      record {
        sound = IsSound-update_turn s key ends (λ t. refl) (λ t. refl) (λ t. refl) h.sound;
        counted =
            omega (
              arith,
              h.counted,
              sums,
              active-open t.status open_turn,
              active-terminal status final,
            );
        single = omega (arith, h.single);
        named = All-update_turn (λ u. IsNamed s.next_turn u.id) key ends s.turns h.named (λ u n. n);
        backed =
            All-map (IsBacked s.turns) (IsBacked (update_turn key ends s.turns)) (deny_pending key)
              s.approvals (λ a. IsBacked-deny_pending s.turns key ends a (λ t. refl)) h.backed;
        bounded = h.bounded;
      }

  pub IsConsistent-pruned :
      (limit : ℕ) (s : OwnerState P)
      → IsConsistent limit s
      → IsConsistent limit (prune_terminal_records s)
  unfolding prune_terminal_records
  IsConsistent-pruned limit s h =
      let (exact, distinct, total, room) = h.sound in
      let left = live_bytes-weigh s.replay_bytes s.turns (omega (arith, total)) in
      record {
        sound = (
          All-live_turns (IsExact encoded_len) s.turns exact,
          AreDistinct-live_turns s.turns distinct,
          omega (arith, left, total),
          omega (arith, left, total, room, weigh-live_turns_le (λ t. t.event_bytes) s.turns),
        );
        counted = h.counted ∙ sym (weigh-active-live_turns s.turns);
        single = h.single;
        named = All-live_turns (λ t. IsNamed s.next_turn t.id) s.turns h.named;
        backed = All-retained (IsBacked (live_turns s.turns)) (live_turns s.turns) s.approvals (
            IsBacked-turns s.turns (live_turns s.turns) s.approvals
              (λ j e.
                let (t, (found, open_turn)) = is_open-found s.turns j e in
                is_open_of_found (live_turns s.turns) j t
                  (find_turn-live_turns j s.turns t found open_turn) open_turn)
              h.backed);
        bounded = h.bounded;
      }

  pub IsConsistent-controlled :
      (limit : ℕ) (s : OwnerState P) (id : Text) (on : Bool)
      → IsConsistent limit s
      → IsConsistent limit (record s { turns = update_turn id (set_controller on) s.turns })
  IsConsistent-controlled limit s id on h =
      let us = update_turn id (set_controller on) s.turns in
      record {
        sound =
            IsSound-update_turn s id (set_controller on) (λ t. refl) (λ t. refl) (λ t. refl)
              h.sound;
        counted =
            h.counted
            ∙ sym (
                weigh-update_same (λ t. active t.status) id (set_controller on) s.turns
                  (λ t. refl));
        single = h.single;
        named =
            All-update_turn (λ u. IsNamed s.next_turn u.id) id (set_controller on) s.turns h.named
              (λ u n. n);
        backed =
            IsBacked-turns s.turns us s.approvals
              (λ j. is_open-update_turn s.turns id j (set_controller on) (λ t. refl) (λ t o. o))
              h.backed;
        bounded = h.bounded;
      }

  pub IsConsistent-admitted :
      (limit : ℕ) (s : OwnerState P) (thread_id : Text) (thread : ThreadRecord)
      → limit < u64_max
      → s.active_turns ≡ 0
      → s.next_turn ≤ limit
      → IsConsistent (suc limit) s
      → IsConsistent (suc limit) (admit_turn s thread_id thread)
  unfolding admit_turn
  IsConsistent-admitted limit s thread_id thread room none_active below h =
      let u = new_turn {P = P} (turn_name s.next_turn) thread thread_id in
      let fresh = find_turn-fresh s.next_turn s.turns h.named in
      let (exact, distinct, total, bounded) = h.sound in
      let grown = insert_by-append u s.turns fresh in
      let next : next_u64 s.next_turn ≡ suc s.next_turn = omega (arith, room, below) in
      let ts = s.turns ++ u ∷ [] in
      record {
        sound =
            subst (λ us. IsSound encoded_len (record s { turns = us })) (sym grown)
              (
                All-append (IsExact encoded_len) s.turns (u ∷ []) exact
                    ((refl, tt, omega arith), tt),
                AreDistinct-append s.turns u distinct fresh,
                omega (arith, total, weigh-append (λ t. t.event_bytes) s.turns u),
                bounded,
              );
        counted =
            subst (λ us. s.active_turns + 1 ≡ weigh (λ t. active t.status) us) (sym grown)
              (omega (
                arith,
                h.counted,
                weigh-append (λ t. active t.status) s.turns u,
                active-open running running_open,
              ));
        single = omega (arith, none_active);
        named =
            subst (λ us. All (λ t. IsNamed (next_u64 s.next_turn) t.id) us) (sym grown)
              (All-append (λ t. IsNamed (next_u64 s.next_turn) t.id) s.turns (u ∷ [])
                (All-weaken (λ t. IsNamed s.next_turn t.id)
                  (λ t. IsNamed (next_u64 s.next_turn) t.id) s.turns
                  (λ t (k, (lt, e)). (k, (omega (arith, lt, next), e))) h.named)
                ((s.next_turn, (omega (arith, next), refl)), tt));
        backed =
            subst (λ us. All (IsBacked us) s.approvals) (sym grown)
              (IsBacked-turns s.turns ts s.approvals
                (λ j e.
                  let (t, (found, open_turn)) = is_open-found s.turns j e in
                  is_open_of_found ts j t (find_turn-append j s.turns u t found) open_turn)
                h.backed);
        bounded = omega (arith, next, below);
      }
