-- ===== src/Owner/Same.antt =====
-- What push_event leaves alone: src/api.rs, push_event.
use spark_runner.Prelude.{
  ℕ, zero, suc, ◌≡◌, refl, sym, ap, All, ◌∙◌, subst, inl, inr, Bool, true, false, Option, none,
  some, Bool-cases, Option-cases, ltb,
}
use spark_runner.Prelude.Text.{Text}
use spark_runner.Owner.{
  TurnStatus, TurnEvent, TurnRecord, OwnerState, max_event_bytes, find_turn, update_turn,
  oldest_turn, event_count, remove_first, remove_oldest, over_budget, make_room, trim_turn,
  push_turn, too_many, store_event, new_event, push_event,
}
use spark_runner.Owner.Admit.{TurnResponse, respond}
use spark_runner.Owner.Turns.{weigh, All-update_turn}
use spark_runner.Owner.Updates.{find_turn-kept, weigh-update_same}
use spark_runner.Owner.Room.{remove_oldest-without, make_room-enough}
use spark_runner.Owner.Replay.{stored, stored_id, store_event-found, store_event-missing}
use spark_runner.Owner.Push.{next, push_event-unencoded, push_event-large, push_event-stores}

module _ {P : Type 0} where
  -- The approvals, the count of active turns, and what a client is told of every turn: its id, its
  -- thread, its workspace and its status.
  pub record Same (s r : OwnerState P) : Type 1 where
    pub approvals : r.approvals ≡ s.approvals
    pub active_turns : r.active_turns ≡ s.active_turns
    pub next_turn : r.next_turn ≡ s.next_turn
    pub weights :
        (w : TurnStatus → ℕ) → weigh (λ t. w t.status) r.turns ≡ weigh (λ t. w t.status) s.turns
    pub every :
        (N : TurnResponse → Type 0)
        → All (λ t. N (respond t)) s.turns
        → All (λ t. N (respond t)) r.turns
    pub heads :
        (key : Text) (u : TurnRecord P)
        → find_turn key s.turns ≡ some u
        → (v : TurnRecord P) × ((find_turn key r.turns ≡ some v) × (respond v ≡ respond u))

  pub Same-refl : (s : OwnerState P) → Same s s
  Same-refl s = record {
    approvals = refl;
    active_turns = refl;
    next_turn = refl;
    weights = λ w. refl;
    every = λ N h. h;
    heads = λ key u e. (u, (e, refl));
  }

  pub Same-trans : (s r q : OwnerState P) → Same s r → Same r q → Same s q
  Same-trans s r q a b = record {
    approvals = b.approvals ∙ a.approvals;
    active_turns = b.active_turns ∙ a.active_turns;
    next_turn = b.next_turn ∙ a.next_turn;
    weights = λ w. b.weights w ∙ a.weights w;
    every = λ N h. b.every N (a.every N h);
    heads = λ key u e.
        let (v, (there, same)) = a.heads key u e in
        let (w, (there', same')) = b.heads key v there in (w, (there', same' ∙ same));
  }

  -- An update of a turn that keeps its id and what a client is told of it.
  Same-update_turn :
      (s : OwnerState P) (key : Text) (f : TurnRecord P → TurnRecord P) (n : ℕ)
      → ((t : TurnRecord P) → (f t).id ≡ t.id)
      → ((t : TurnRecord P) → respond (f t) ≡ respond t)
      → Same s (record s { turns = update_turn key f s.turns; replay_bytes = n })
  Same-update_turn s key f n ids heads = record {
    approvals = refl;
    active_turns = refl;
    next_turn = refl;
    weights = λ w.
        weigh-update_same (λ t. w t.status) key f s.turns (λ t. ap (λ r. w r.status) (heads t));
    every = λ N h.
        All-update_turn (λ t. N (respond t)) key f s.turns h (λ t n. subst N (sym (heads t)) n);
    heads = λ j u e. find_turn-kept j key f s.turns u ids heads e;
  }

module _ {P : Type 0} (encoded_len : TurnEvent P → Option ℕ) where
  remove_first_id : (t : TurnRecord P) → (remove_first encoded_len t).id ≡ t.id
  unfolding remove_first
  remove_first_id t = refl

  remove_first_head : (t : TurnRecord P) → respond (remove_first encoded_len t) ≡ respond t
  unfolding remove_first
  remove_first_head t = refl

  remove_oldest-missing :
      (key : Text) (s : OwnerState P)
      → find_turn key s.turns ≡ none
      → remove_oldest encoded_len key s ≡ s
  unfolding remove_oldest
  remove_oldest-missing key s e = rw (e, remove_oldest)

  Same-remove_oldest : (key : Text) (s : OwnerState P) → Same s (remove_oldest encoded_len key s)
  Same-remove_oldest key s = elim (Option-cases (find_turn key s.turns)) [
    | inl e ↦ subst (Same s) (sym (remove_oldest-missing key s e)) (Same-refl s)
    | inr (t, e) ↦
        subst (Same s) (sym (remove_oldest-without encoded_len key s t e))
          (Same-update_turn s key (remove_first encoded_len) _ remove_first_id remove_first_head)
  ]

  make_room-stuck :
      (fuel n : ℕ) (s : OwnerState P)
      → over_budget encoded_len n s ≡ true
      → oldest_turn s.turns ≡ none
      → make_room encoded_len (suc fuel) n s ≡ (false, s)
  unfolding make_room
  make_room-stuck fuel n s h e = rw (h, make_room, e)

  make_room-again :
      (fuel n : ℕ) (s : OwnerState P) (o : Text × ℕ)
      → over_budget encoded_len n s ≡ true
      → oldest_turn s.turns ≡ some o
      → make_room encoded_len (suc fuel) n s
        ≡ make_room encoded_len fuel n (remove_oldest encoded_len o.0 s)
  unfolding make_room
  make_room-again fuel n s o h e = rw (h, make_room, e)

  make_room-zero : (n : ℕ) (s : OwnerState P) → (make_room encoded_len zero n s).1 ≡ s
  unfolding make_room
  make_room-zero n s = refl

  Same-make_room : (fuel n : ℕ) (s : OwnerState P) → Same s (make_room encoded_len fuel n s).1
  Same-make_room zero n s = subst (Same s) (sym (make_room-zero n s)) (Same-refl s)
  Same-make_room (suc fuel) n s = elim (Bool-cases (over_budget encoded_len n s)) [
    | inl h ↦ elim (Option-cases (oldest_turn s.turns)) [
      | inl e ↦ subst (λ r. Same s r.1) (sym (make_room-stuck fuel n s h e)) (Same-refl s)
      | inr (o, e) ↦
          let s' = remove_oldest encoded_len o.0 s in
          subst (λ r. Same s r.1) (sym (make_room-again fuel n s o h e))
            (Same-trans s s' (make_room encoded_len fuel n s').1 (Same-remove_oldest o.0 s)
              (Same-make_room fuel n s'))
    ]
    | inr h ↦
        subst (λ r. Same s r.1) (sym (make_room-enough encoded_len (suc fuel) n s h)) (Same-refl s)
  ]

  trim_turn_head : (t : TurnRecord P) → respond (trim_turn encoded_len t) ≡ respond t
  unfolding trim_turn remove_first
  trim_turn_head t = elim (Bool-cases (too_many encoded_len t)) [ inl h ↦ rw h | inr h ↦ rw h ]

  stored_head :
      (e : TurnEvent P) (n : ℕ) (t : TurnRecord P) → respond (stored encoded_len e n t) ≡ respond t
  unfolding push_turn
  stored_head e n t = trim_turn_head (push_turn encoded_len e n t)

  store_event-gone :
      (key : Text) (e : TurnEvent P) (n : ℕ) (s : OwnerState P)
      → store_event encoded_len key e n (false, s) ≡ s
  unfolding store_event
  store_event-gone key e n s = refl

  Same-store_event :
      (key : Text) (e : TurnEvent P) (n : ℕ) (b : Bool) (s : OwnerState P)
      → Same s (store_event encoded_len key e n (b, s))
  Same-store_event key e n false s = subst (Same s) (sym (store_event-gone key e n s)) (Same-refl s)
  Same-store_event key e n true s = elim (Option-cases (find_turn key s.turns)) [
    | inl missing ↦
        subst (Same s) (sym (store_event-missing encoded_len key e n s missing)) (Same-refl s)
    | inr (t, found) ↦ subst (Same s) (sym (store_event-found encoded_len key e n s t found)) (
        Same-update_turn s key (stored encoded_len e n) _ (stored_id encoded_len e n)
          (stored_head e n))
  ]

  Same-next : (s : OwnerState P) → Same s (next encoded_len s)
  Same-next s = record {
    approvals = refl;
    active_turns = refl;
    next_turn = refl;
    weights = λ w. refl;
    every = λ N h. h;
    heads = λ key u e. (u, (e, refl));
  }

  pub Same-push_event :
      (s : OwnerState P) (key kind : Text) (payload : P) (terminal : Bool)
      → Same s (push_event encoded_len s key kind payload terminal)
  Same-push_event s key kind payload terminal =
      let e = new_event encoded_len s key kind payload terminal in
      let s' = next encoded_len s in
      elim (Option-cases (encoded_len e)) [
        | inl enc ↦
            subst (Same s) (sym (push_event-unencoded encoded_len s key kind payload terminal enc))
              (Same-next s)
        | inr (n, enc) ↦ elim (Bool-cases (ltb max_event_bytes n)) [
          | inl h ↦
              subst (Same s)
                (sym (push_event-large encoded_len s key kind payload terminal n enc h))
                (Same-next s)
          | inr h ↦
              let room = make_room encoded_len (event_count s.turns) n s' in
              subst (Same s)
                (sym (push_event-stores encoded_len s key kind payload terminal n enc h))
                (Same-trans s room.1 (store_event encoded_len key e n room)
                  (Same-trans s s' room.1 (Same-next s) (Same-make_room (event_count s.turns) n s'))
                  (Same-store_event key e n room.0 room.1))
        ]
      ]
