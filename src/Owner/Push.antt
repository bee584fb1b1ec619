-- ===== src/Owner/Push.antt =====
-- What push_event guarantees: src/api.rs, push_event.
use spark_runner.Prelude.{
  ℕ, ◌≤◌, ◌<◌, ◌≡◌, refl, sym, ap, ◌∙◌, subst, inl, inr, Bool, true, false, List, [], ◌∷◌, ◌++◌,
  Option, none, some, arith, length, Bool-cases, Option-cases, ltb, next_u64,
}
use spark_runner.Prelude.Text.{Text}
use spark_runner.Owner.{
  TurnEvent, TurnRecord, OwnerState, max_events_per_turn, max_event_bytes, find_turn, event_count,
  rest, remove_first, make_room, push_turn, trim_turn, too_many, store_event, new_event, push_event,
}
use spark_runner.Owner.Turns.{find_turn-update_turn}
use spark_runner.Owner.Room.{IsSound, make_room-IsSound}
use spark_runner.Owner.Replay.{stored, stored_id, store_event-found, store_event-IsSound}

-- A list that ends in an element.
abbrev pub EndsIn : {A : Type 0} → A → List A → Type 0
EndsIn a xs = (ys : List _) × (xs ≡ ys ++ a ∷ [])

module _ {P : Type 0} (encoded_len : TurnEvent P → Option ℕ) where
  abbrev pub next : OwnerState P → OwnerState P
  next s = record s { next_event = next_u64 s.next_event }

  pub push_event-unencoded :
      (s : OwnerState P) (key kind : Text) (payload : P) (terminal : Bool)
      → encoded_len (new_event encoded_len s key kind payload terminal) ≡ none
      → push_event encoded_len s key kind payload terminal ≡ next s
  unfolding push_event
  push_event-unencoded s key kind payload terminal e = rw (e, push_event)

  pub push_event-large :
      (s : OwnerState P) (key kind : Text) (payload : P) (terminal : Bool) (n : ℕ)
      → encoded_len (new_event encoded_len s key kind payload terminal) ≡ some n
      → ltb max_event_bytes n ≡ true
      → push_event encoded_len s key kind payload terminal ≡ next s
  unfolding push_event
  push_event-large s key kind payload terminal n e h = rw (e, h, push_event)

  pub push_event-stores :
      (s : OwnerState P) (key kind : Text) (payload : P) (terminal : Bool) (n : ℕ)
      → encoded_len (new_event encoded_len s key kind payload terminal) ≡ some n
      → ltb max_event_bytes n ≡ false
      → push_event encoded_len s key kind payload terminal
        ≡ store_event encoded_len key
            (new_event encoded_len s key kind payload terminal)
            n
            (make_room encoded_len (event_count s.turns) n (next s))
  unfolding push_event
  push_event-stores s key kind payload terminal n e h = rw (e, h, push_event)

  -- Where the accounting is exact and the budget of replayable bytes is kept, they are after any event
  -- too, whichever turn it is for and whatever its size: every turn counts the bytes of its at most
  -- 256 events, the owner counts those of all turns, and they are at most 1 MiB.
  pub push_event-IsSound :
      (s : OwnerState P) (key kind : Text) (payload : P) (terminal : Bool)
      → IsSound encoded_len s
      → IsSound encoded_len (push_event encoded_len s key kind payload terminal)
  push_event-IsSound s key kind payload terminal sound =
      let e = new_event encoded_len s key kind payload terminal in
      elim (Option-cases (encoded_len e)) [
        | inl enc ↦
            subst (IsSound encoded_len) (sym (push_event-unencoded s key kind payload terminal enc))
              sound
        | inr (n, enc) ↦ elim (Bool-cases (ltb max_event_bytes n)) [
          | inl h ↦
              subst (IsSound encoded_len)
                (sym (push_event-large s key kind payload terminal n enc h)) sound
          | inr h ↦
              let small : n ≤ max_event_bytes = ground (arith, h) in
              let (r, (eq, r_sound, fits, _)) =
                make_room-IsSound encoded_len (event_count s.turns) n (next s) sound small
                  (omega arith) in
              subst (IsSound encoded_len)
                (sym (
                  push_event-stores s key kind payload terminal n enc h
                  ∙ ap (store_event encoded_len key e n) eq))
                (store_event-IsSound encoded_len key e n r enc small r_sound fits)
        ]
      ]

  EndsIn-rest :
      (e : TurnEvent P) (xs : List (TurnEvent P))
      → max_events_per_turn < length (xs ++ e ∷ [])
      → EndsIn e (rest encoded_len (xs ++ e ∷ []))
  EndsIn-rest e [] h = absurd (omega arith)
  EndsIn-rest e (x ∷ xs) h = (xs, refl)

  EndsIn-stored :
      (e : TurnEvent P) (n : ℕ) (t : TurnRecord P) → EndsIn e (stored encoded_len e n t).events
  unfolding trim_turn push_turn remove_first
  EndsIn-stored e n t = elim (Bool-cases (too_many encoded_len (push_turn encoded_len e n t))) [
    | inl h ↦ rw h (EndsIn-rest e t.events (ground (arith, h)))
    | inr h ↦ rw h (t.events, refl)
  ]

  -- Where the accounting is exact, an event for a known turn that encodes to at most 16 KiB is
  -- stored, as the last one of its turn: making room for it never fails and never takes the turn away.
  pub push_event-EndsIn :
      (s : OwnerState P) (key kind : Text) (payload : P) (terminal : Bool) (n : ℕ)
      (t : TurnRecord P)
      → IsSound encoded_len s
      → find_turn key s.turns ≡ some t
      → encoded_len (new_event encoded_len s key kind payload terminal) ≡ some n
      → n ≤ max_event_bytes
      → (u : TurnRecord P) × ((find_turn key
              (push_event encoded_len s key kind payload terminal).turns
            ≡ some u)
          × EndsIn (new_event encoded_len s key kind payload terminal) u.events)
  push_event-EndsIn s key kind payload terminal n t sound found enc small =
      let e = new_event encoded_len s key kind payload terminal in
      let (r, (eq, r_sound, fits, kept)) =
        make_room-IsSound encoded_len (event_count s.turns) n (next s) sound small (omega arith) in
      let (v, there) = kept key t found in
      let result =
        push_event-stores s key kind payload terminal n enc (ground (arith, small))
        ∙ ap (store_event encoded_len key e n) eq
        ∙ store_event-found encoded_len key e n r v there in
      (
        stored encoded_len e n v,
        (
          ap (λ o. find_turn key o.turns) result
              ∙ find_turn-update_turn key (stored encoded_len e n) r.turns v
                  (stored_id encoded_len e n) there,
          EndsIn-stored e n v,
        ),
      )
