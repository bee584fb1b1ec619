-- ===== src/Owner/Room.antt =====
-- The accounting of the replayable events, and the loop that makes room: src/api.rs, push_event.
use spark_runner.Prelude.{
  ℕ, zero, suc, ◌+◌, ◌-◌, ◌≤◌, ◌≡◌, refl, ◌∙◌, inl, inr, true, false, List, [], ◌∷◌, Option, some,
  arith, length, All, Bool-cases, Option-cases,
}
use spark_runner.Prelude.Text.{Text}
use spark_runner.Owner.{
  TurnEvent, TurnRecord, OwnerState, max_events_per_turn, max_event_bytes, max_sse_replay_bytes,
  find_turn, update_turn, oldest_turn, event_count, size, first_size, rest, remove_first,
  remove_oldest, over_budget, make_room,
}
use spark_runner.Owner.Turns.{
  weigh, event_count-weigh, weigh-update_turn, All-update_turn, All-find_turn, AreDistinct,
  AreDistinct-update_turn,
}
use spark_runner.Owner.Updates.{find_turn-kept}
use spark_runner.Owner.Oldest.{oldest_turn-none, oldest_turn-found}

module _ {P : Type 0} (encoded_len : TurnEvent P → Option ℕ) where
  abbrev pub bytes : List (TurnEvent P) → ℕ
  bytes [] = 0
  bytes (e ∷ es) = size encoded_len e + bytes es

  -- A turn counts the bytes of the events that it keeps; each event and their number are bounded.
  abbrev pub IsExact : TurnRecord P → Type 0
  IsExact t =
      (t.event_bytes ≡ bytes t.events)
      × All (λ e. size encoded_len e ≤ max_event_bytes) t.events
      × (length t.events ≤ max_events_per_turn)

  -- The owner counts the bytes of all turns, and they are bounded.
  abbrev pub IsSound : OwnerState P → Type 0
  IsSound s =
      All IsExact s.turns
      × AreDistinct s.turns
      × (s.replay_bytes ≡ weigh (λ t. t.event_bytes) s.turns)
      × (s.replay_bytes ≤ max_sse_replay_bytes)

  pub bytes-rest :
      (es : List (TurnEvent P)) → first_size encoded_len es + bytes (rest encoded_len es) ≡ bytes es
  bytes-rest [] = refl
  bytes-rest (e ∷ es) = refl

  pub small-rest :
      (Q : TurnEvent P → Type 0) (es : List (TurnEvent P)) → All Q es → All Q (rest encoded_len es)
  small-rest Q [] h = h
  small-rest Q (e ∷ es) h = h.1

  pub length-rest : (es : List (TurnEvent P)) → length (rest encoded_len es) ≡ length es - 1
  length-rest [] = refl
  length-rest (e ∷ es) = omega arith

  pub remove_first-IsExact : (t : TurnRecord P) → IsExact t → IsExact (remove_first encoded_len t)
  unfolding remove_first
  remove_first-IsExact t (exact, small, few) = (
    omega (arith, exact, bytes-rest t.events),
    small-rest (λ e. size encoded_len e ≤ max_event_bytes) t.events small,
    omega (arith, few, length-rest t.events),
  )

  -- What `remove_oldest` does where the turn is there.
  abbrev pub without : Text → TurnRecord P → OwnerState P → OwnerState P
  without key t s = record s {
    replay_bytes = s.replay_bytes - first_size encoded_len t.events;
    turns = update_turn key (remove_first encoded_len) s.turns;
  }

  pub remove_oldest-without :
      (key : Text) (s : OwnerState P) (t : TurnRecord P)
      → find_turn key s.turns ≡ some t
      → remove_oldest encoded_len key s ≡ without key t s
  unfolding remove_oldest
  remove_oldest-without key s t found = rw (found, remove_oldest)

  without-IsSound :
      (key : Text) (s : OwnerState P) (t : TurnRecord P)
      → IsSound s
      → find_turn key s.turns ≡ some t
      → IsSound (without key t s)
  unfolding remove_first
  without-IsSound key s t (exact, distinct, total, bounded) found =
      let t_exact = All-find_turn IsExact key s.turns t exact found in
      let sums =
        weigh-update_turn (λ u. u.event_bytes) key (remove_first encoded_len) s.turns t found in
      (
        All-update_turn IsExact key (remove_first encoded_len) s.turns exact remove_first-IsExact,
        AreDistinct-update_turn key (remove_first encoded_len) s.turns (λ u. refl) distinct,
        omega (arith, sums, total, t_exact.0, bytes-rest t.events),
        omega (arith, bounded),
      )

  event_count-without :
      (key : Text) (s : OwnerState P) (t : TurnRecord P)
      → find_turn key s.turns ≡ some t
      → 1 ≤ length t.events
      → suc (event_count (without key t s).turns) ≡ event_count s.turns
  unfolding remove_first
  event_count-without key s t found some_left = omega (
    arith,
    weigh-update_turn (λ u. length u.events) key (remove_first encoded_len) s.turns t found,
    event_count-weigh s.turns,
    event_count-weigh (update_turn key (remove_first encoded_len) s.turns),
    length-rest t.events,
    some_left,
  )

  -- Without events no bytes are counted.
  no_bytes :
      (ts : List (TurnRecord P))
      → All IsExact ts
      → event_count ts ≡ 0
      → weigh (λ t. t.event_bytes) ts ≡ 0
  unfolding event_count
  no_bytes [] h none_left = refl
  no_bytes (t ∷ ts) ((exact, _, _), h) none_left = omega (
    arith,
    exact,
    bytes_empty t.events (omega (arith, none_left)),
    no_bytes ts h (omega (arith, none_left)),
  )
    where
      bytes_empty : (es : List (TurnEvent P)) → length es ≡ 0 → bytes es ≡ 0
      bytes_empty [] e = refl
      bytes_empty (x ∷ es) e = absurd (omega arith)

  pub make_room-enough :
      (fuel n : ℕ) (s : OwnerState P)
      → over_budget encoded_len n s ≡ false
      → make_room encoded_len fuel n s ≡ (true, s)
  unfolding make_room
  make_room-enough zero n s h = rw h
  make_room-enough (suc fuel) n s h = rw (h, make_room)

  make_room-without :
      (fuel n : ℕ) (s : OwnerState P) (o : Text × ℕ) (t : TurnRecord P)
      → over_budget encoded_len n s ≡ true
      → oldest_turn s.turns ≡ some o
      → find_turn o.0 s.turns ≡ some t
      → make_room encoded_len (suc fuel) n s ≡ make_room encoded_len fuel n (without o.0 t s)
  unfolding make_room
  make_room-without fuel n s o t h e found =
      rw (h, make_room, e, remove_oldest-without o.0 s t found)

  -- The budget holds every event on its own.
  over_budget-count :
      (n : ℕ) (s : OwnerState P)
      → IsSound s
      → n ≤ max_event_bytes
      → over_budget encoded_len n s ≡ true
      → 1 ≤ event_count s.turns
  over_budget-count n s (exact, _, total, _) small h =
      let none_over : (event_count s.turns ≡ 0) → ⊥ =
        λ none_left. ground (arith, no_bytes s.turns exact none_left, total, small, h) in
      grind (arith, none_over)

  find_turn-without :
      (key old : Text) (s : OwnerState P) (u : TurnRecord P)
      → find_turn key s.turns ≡ some u
      → (v : TurnRecord P) × (find_turn key (update_turn old (remove_first encoded_len) s.turns)
          ≡ some v)
  unfolding remove_first
  find_turn-without key old s u here =
      let (v, (there, _)) =
        find_turn-kept key old (remove_first encoded_len) s.turns u (λ t. refl) (λ t. refl) here in
      (v, there)

  -- Room is found, whatever it takes: no turn is lost, and the accounting stays exact.
  pub make_room-IsSound :
      (fuel n : ℕ) (s : OwnerState P)
      → IsSound s
      → n ≤ max_event_bytes
      → event_count s.turns ≤ fuel
      → (r : OwnerState P) × ((make_room encoded_len fuel n s ≡ (true, r))
          × IsSound r
          × (r.replay_bytes + n ≤ max_sse_replay_bytes)
          × ((key : Text) (u : TurnRecord P)
              → find_turn key s.turns ≡ some u
              → (v : TurnRecord P) × (find_turn key r.turns ≡ some v)))
  make_room-IsSound zero n s sound small enough = elim (Bool-cases (over_budget encoded_len n s)) [
    | inl h ↦ absurd (omega (arith, over_budget-count n s sound small h, enough))
    | inr h ↦
        (s, (make_room-enough zero n s h, sound, ground (arith, h, sound.3), λ key u e. (u, e)))
  ]
  make_room-IsSound (suc fuel) n s sound small enough =
      elim (Bool-cases (over_budget encoded_len n s)) [
        | inl h ↦ elim (Option-cases (oldest_turn s.turns)) [
          | inl e ↦
              absurd
                (omega (arith, over_budget-count n s sound small h, oldest_turn-none s.turns e))
          | inr (o, e) ↦
              let (t, (found, some_left)) = oldest_turn-found s.turns o sound.1 e in
              let (r, (eq, r_sound, fits, kept)) =
                make_room-IsSound fuel n (without o.0 t s) (without-IsSound o.0 s t sound found)
                  small (omega (arith, enough, event_count-without o.0 s t found some_left)) in
              (
                r,
                (
                  make_room-without fuel n s o t h e found ∙ eq,
                  r_sound,
                  fits,
                  λ key u here.
                      let (v, there) = find_turn-without key o.0 s u here in kept key v there,
                ),
              )
        ]
        | inr h ↦ (
          s,
          (make_room-enough (suc fuel) n s h, sound, ground (arith, h, sound.3), λ key u e. (u, e)),
        )
      ]
