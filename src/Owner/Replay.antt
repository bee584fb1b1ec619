-- ===== src/Owner/Replay.antt =====
-- Appending an event to a turn: src/api.rs, push_event.
use spark_runner.Prelude.{
  ℕ, suc, ◌+◌, ◌-◌, ◌*◌, ◌≤◌, ◌≡◌, refl, sym, subst, inl, inr, true, List, [], ◌∷◌, ◌++◌, Option,
  none, some, arith, length, length-append, All, All-append, Bool-cases, Option-cases,
  saturating_add,
}
use spark_runner.Prelude.Text.{Text}
use spark_runner.Owner.{
  TurnEvent, TurnRecord, OwnerState, max_events_per_turn, max_event_bytes, max_sse_replay_bytes,
  find_turn, update_turn, size, remove_first, push_turn, trim_turn, trimmed_len, too_many,
  store_event,
}
use spark_runner.Owner.Turns.{
  weigh-update_turn, All-update_turn, All-find_turn, AreDistinct-update_turn,
}
use spark_runner.Owner.Room.{bytes, bytes-rest, small-rest, length-rest, IsExact, IsSound}

module _ {P : Type 0} (encoded_len : TurnEvent P → Option ℕ) where
  bytes-append :
      (xs ys : List (TurnEvent P))
      → bytes encoded_len (xs ++ ys) ≡ bytes encoded_len xs + bytes encoded_len ys
  bytes-append [] ys = omega arith
  bytes-append (x ∷ xs) ys = omega (arith, bytes-append xs ys)

  -- One event above the limit is let in, and then the first one goes.
  trim_turn-IsExact :
      (t : TurnRecord P)
      → t.event_bytes ≡ bytes encoded_len t.events
      → All (λ e. size encoded_len e ≤ max_event_bytes) t.events
      → length t.events ≤ suc max_events_per_turn
      → IsExact encoded_len (trim_turn encoded_len t)
        × ((trim_turn encoded_len t).event_bytes + trimmed_len encoded_len t ≡ t.event_bytes)
  unfolding trim_turn trimmed_len remove_first
  trim_turn-IsExact t exact small few = elim (Bool-cases (too_many encoded_len t)) [
    | inl h ↦ rw h (
      (
        omega (arith, exact, bytes-rest encoded_len t.events),
        small-rest encoded_len (λ e. size encoded_len e ≤ max_event_bytes) t.events small,
        omega (arith, few, length-rest encoded_len t.events),
      ),
      omega (arith, exact, bytes-rest encoded_len t.events),
    )
    | inr h ↦ rw h ((exact, small, ground (arith, h)), omega arith)
  ]

  bytes_bounded :
      (es : List (TurnEvent P))
      → All (λ e. size encoded_len e ≤ max_event_bytes) es
      → bytes encoded_len es ≤ max_event_bytes * length es
  bytes_bounded [] h = omega arith
  bytes_bounded (e ∷ es) (small, h) = omega (arith, small, bytes_bounded es h)

  -- The turn after the event.
  abbrev pub stored : TurnEvent P → ℕ → TurnRecord P → TurnRecord P
  stored e n t = trim_turn encoded_len (push_turn encoded_len e n t)

  stored-IsExact :
      (e : TurnEvent P) (n : ℕ) (t : TurnRecord P)
      → encoded_len e ≡ some n
      → n ≤ max_event_bytes
      → IsExact encoded_len t
      → IsExact encoded_len (stored e n t)
        × ((stored e n t).event_bytes + trimmed_len encoded_len (push_turn encoded_len e n t)
            ≡ t.event_bytes + n)
  unfolding push_turn
  stored-IsExact e n t enc small (exact, all_small, few) =
      let e_size : size encoded_len e ≡ n = rw enc refl in
      let bounded = bytes_bounded t.events all_small in
      let (exact', counted) =
        trim_turn-IsExact (push_turn encoded_len e n t)
          (omega (arith, exact, bounded, few, small, e_size, bytes-append t.events (e ∷ [])))
          (All-append (λ x. size encoded_len x ≤ max_event_bytes) t.events (e ∷ []) all_small
            (omega (arith, e_size, small), tt))
          (omega (arith, few, length-append t.events (e ∷ []))) in
      (exact', omega (arith, counted, exact, bounded, few, small))

  pub store_event-found :
      (key : Text) (e : TurnEvent P) (n : ℕ) (s : OwnerState P) (t : TurnRecord P)
      → find_turn key s.turns ≡ some t
      → store_event encoded_len key e n (true, s) ≡ record s {
        turns = update_turn key (stored e n) s.turns;
        replay_bytes =
            saturating_add s.replay_bytes n - trimmed_len encoded_len (push_turn encoded_len e n t);
      }
  unfolding store_event
  store_event-found key e n s t found = rw (found, store_event)

  pub store_event-missing :
      (key : Text) (e : TurnEvent P) (n : ℕ) (s : OwnerState P)
      → find_turn key s.turns ≡ none
      → store_event encoded_len key e n (true, s) ≡ s
  unfolding store_event
  store_event-missing key e n s missing = rw (missing, store_event)

  trim_turn_id : (t : TurnRecord P) → (trim_turn encoded_len t).id ≡ t.id
  unfolding trim_turn remove_first
  trim_turn_id t = elim (Bool-cases (too_many encoded_len t)) [ inl h ↦ rw h | inr h ↦ rw h ]

  pub stored_id : (e : TurnEvent P) (n : ℕ) (t : TurnRecord P) → (stored e n t).id ≡ t.id
  unfolding push_turn
  stored_id e n t = trim_turn_id (push_turn encoded_len e n t)

  pub store_event-IsSound :
      (key : Text) (e : TurnEvent P) (n : ℕ) (s : OwnerState P)
      → encoded_len e ≡ some n
      → n ≤ max_event_bytes
      → IsSound encoded_len s
      → s.replay_bytes + n ≤ max_sse_replay_bytes
      → IsSound encoded_len (store_event encoded_len key e n (true, s))
  store_event-IsSound key e n s enc small (exact, distinct, total, bounded) fits =
      elim (Option-cases (find_turn key s.turns)) [
        | inl missing ↦
            subst (IsSound encoded_len) (sym (store_event-missing key e n s missing))
              (exact, distinct, total, bounded)
        | inr (t, found) ↦
            let t_exact = All-find_turn (IsExact encoded_len) key s.turns t exact found in
            let counted = stored-IsExact e n t enc small t_exact in
            let sums = weigh-update_turn (λ u. u.event_bytes) key (stored e n) s.turns t found in
            subst (IsSound encoded_len) (sym (store_event-found key e n s t found)) (
              All-update_turn (IsExact encoded_len) key (stored e n) s.turns exact
                  (λ u h. (stored-IsExact e n u enc small h).0),
              AreDistinct-update_turn key (stored e n) s.turns (stored_id e n) distinct,
              omega (arith, total, bounded, small, fits, counted.1, sums),
              omega (arith, bounded, fits),
            )
      ]
