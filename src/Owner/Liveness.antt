-- ===== src/Owner/Liveness.antt =====
-- A turn can always be started again: src/api.rs, owner_create_turn.
use spark_runner.Prelude.{
  ℕ, ◌≡◌, ◌⊎◌, refl, sym, ap, subst, ◌∙◌, inl, inr, Bool, true, false, not, List, [], ◌∷◌, some,
  arith, leb, length, All, All-append, Bool-cases, if_elim, option_elim,
}
use spark_runner.Prelude.Exec.{Result, ok}
use spark_runner.Prelude.Text.{Text, codes}
use spark_runner.Owner.{
  TurnRecord, ThreadRecord, OwnerState, Rejection, is_terminal, find_turn, push_event,
}
use spark_runner.Owner.Turns.{weigh}
use spark_runner.Owner.Same.{Same-push_event}
use spark_runner.Owner.Names.{turn_name}
use spark_runner.Owner.Admit.{
  OwnerLib, TurnResponse, max_turns, max_concurrent_turns, live_turns, find_thread,
  prune_terminal_records, prune_at, new_turn, admit_turn, owner_create_turn, respond,
}
use spark_runner.Owner.Pruned.{active, live_turns-terminal}
use spark_runner.Owner.Changes.{All-weaken}
use spark_runner.Owner.Admitted.{IsNamed, find_turn-fresh, insert_by-append, find_turn-append_self}
use spark_runner.Owner.Invariant.{IsConsistent}

module _ {P : Type 0} where
  -- Where no turn is active, pruning leaves none.
  live_turns-none :
      (ts : List (TurnRecord P)) → weigh (λ t. active t.status) ts ≡ 0 → live_turns ts ≡ []
  unfolding live_turns
  live_turns-none [] h = refl
  live_turns-none (t ∷ ts) h = elim (Bool-cases (is_terminal t.status)) [
    | inl e ↦ live_turns-terminal t ts e ∙ live_turns-none ts (omega (arith, h))
    | inr e ↦ absurd (ground (arith, e, h))
  ]

  none_active_ended :
      (ts : List (TurnRecord P))
      → weigh (λ t. active t.status) ts ≡ 0
      → All (λ t. is_terminal t.status ≡ true) ts
  none_active_ended [] h = tt
  none_active_ended (t ∷ ts) h = elim (Bool-cases (is_terminal t.status)) [
    | inl e ↦ (e, none_active_ended ts (omega (arith, h)))
    | inr e ↦ absurd (ground (arith, e, h))
  ]

  prune_at-room :
      (s : OwnerState P)
      → weigh (λ t. active t.status) s.turns ≡ 0
      → leb max_turns (length (prune_at (leb max_turns (length s.turns)) s).turns) ≡ false
  unfolding prune_terminal_records
  prune_at-room s h = elim (Bool-cases (leb max_turns (length s.turns))) [
    | inl e ↦ rw e (rw (live_turns-none s.turns h) refl)
    | inr e ↦ rw e e
  ]

  threads-prune_at : (b : Bool) (s : OwnerState P) → (prune_at b s).threads ≡ s.threads
  unfolding prune_terminal_records
  threads-prune_at true s = refl
  threads-prune_at false s = refl

  next_turn-prune_at : (b : Bool) (s : OwnerState P) → (prune_at b s).next_turn ≡ s.next_turn
  unfolding prune_terminal_records
  next_turn-prune_at true s = refl
  next_turn-prune_at false s = refl

  active_turns-prune_at :
      (b : Bool) (s : OwnerState P) → (prune_at b s).active_turns ≡ s.active_turns
  unfolding prune_terminal_records
  active_turns-prune_at true s = refl
  active_turns-prune_at false s = refl

module _ {P D : Type 0} (lib : OwnerLib P D) where
  open lib use {encoded_len, no_fields}

  abbrev admitted :
      OwnerState P → Text → ThreadRecord → Result Rejection TurnResponse × OwnerState P
  admitted s thread_id thread =
      let s' = prune_at (leb max_turns (length s.turns)) s in
      let id = turn_name s'.next_turn in
      (
        ok (respond (new_turn {P = P} id thread thread_id)),
        push_event encoded_len (admit_turn s' thread_id thread) id (codes "turn.started") no_fields
            false,
      )

  owner_create_turn-admitted :
      (s : OwnerState P) (thread_id : Text) (thread : ThreadRecord)
      → s.snapshot.ready ≡ true
      → leb max_concurrent_turns s.active_turns ≡ false
      → leb max_turns (length (prune_at (leb max_turns (length s.turns)) s).turns) ≡ false
      → find_thread thread_id (prune_at (leb max_turns (length s.turns)) s).threads ≡ some thread
      → owner_create_turn lib s thread_id ≡ admitted s thread_id thread
  unfolding owner_create_turn
  owner_create_turn-admitted s thread_id thread ready free room known =
      let full = leb max_turns (length s.turns) in
      if_elim IsAdmitted (not s.snapshot.ready) (λ e. absurd (ground (arith, ready, e)))
        (λ _.
          if_elim IsAdmitted (leb max_concurrent_turns s.active_turns)
            (λ e. absurd (ground (arith, free, e)))
            (λ _.
              if_elim IsAdmitted (leb max_turns (length (prune_at full s).turns))
                (λ e. absurd (ground (arith, room, e)))
                (λ _.
                  option_elim IsAdmitted (find_thread thread_id (prune_at full s).threads) _ _
                    (λ e. absurd (ground (arith, known, e)))
                    (λ t e.
                      let same : t ≡ thread = ground (arith, known, e) in
                      ap (admitted s thread_id) same))))
    where
      IsAdmitted : Result Rejection TurnResponse × OwnerState P → Type 0
      IsAdmitted r = r ≡ admitted s thread_id thread

  -- Where no turn is active, every turn has ended, before and after the pruning.
  prune_at-ended :
      (limit : ℕ) (s : OwnerState P)
      → IsConsistent lib limit s
      → weigh (λ t. active t.status) s.turns ≡ 0
      → (b : Bool)
      → All (λ t. IsNamed (prune_at b s).next_turn t.id) (prune_at b s).turns
        × All (λ t. is_terminal t.status ≡ true) (prune_at b s).turns
  unfolding prune_terminal_records
  prune_at-ended limit s h none_live true = rw (live_turns-none s.turns none_live) (tt, tt)
  prune_at-ended limit s h none_live false = (h.named, none_active_ended s.turns none_live)

  -- The turn is in the record under its name, as a client is told of it, and every other turn there
  -- has ended.
  abbrev pub IsOnlyActive : TurnRecord P → OwnerState P → Type 0
  IsOnlyActive u s =
      ((v : TurnRecord P) × ((find_turn u.id s.turns ≡ some v) × (respond v ≡ respond u)))
      × All (λ t. (t.id ≡ u.id) ⊎ (is_terminal t.status ≡ true)) s.turns
      × (s.active_turns ≡ 1)

  IsOnlyActive-admit_turn :
      (s : OwnerState P) (thread_id : Text) (thread : ThreadRecord)
      → All (λ t. IsNamed s.next_turn t.id) s.turns
      → All (λ t. is_terminal t.status ≡ true) s.turns
      → s.active_turns ≡ 0
      → IsOnlyActive
          (new_turn (turn_name s.next_turn) thread thread_id)
          (admit_turn s thread_id thread)
  unfolding admit_turn
  IsOnlyActive-admit_turn s thread_id thread named ended idle =
      let u = new_turn {P = P} (turn_name s.next_turn) thread thread_id in
      let fresh = find_turn-fresh s.next_turn s.turns named in
      rw (insert_by-append u s.turns fresh) (
        (u, (find_turn-append_self s.turns u fresh, refl)),
        All-append _ s.turns (u ∷ [])
            (All-weaken (λ t. is_terminal t.status ≡ true) _ s.turns (λ t e. inr e) ended)
            (inl refl, tt),
        omega (arith, idle),
      )

  IsOnlyActive-push_event :
      (u : TurnRecord P) (s : OwnerState P) (key kind : Text)
      → IsOnlyActive u s
      → IsOnlyActive u (push_event encoded_len s key kind no_fields false)
  IsOnlyActive-push_event u s key kind ((v, (there, head)), others, one) =
      let same = Same-push_event encoded_len s key kind no_fields false in
      let (w, (there', head')) = same.heads u.id v there in
      (
        (w, (there', head' ∙ head)),
        same.every (λ r. (r.id ≡ u.id) ⊎ (is_terminal r.status ≡ true)) others,
        same.active_turns ∙ one,
      )

  -- In a consistent state that is ready and has no active turn, a turn on a known thread is always
  -- started, however many turns are recorded: the client is told of it as running, on that thread and
  -- under the next name, it is recorded as such under that name, every other turn that is recorded has
  -- ended, and one turn is counted as active.
  pub owner_create_turn-starts :
      (limit : ℕ) (s : OwnerState P) (thread_id : Text) (thread : ThreadRecord)
      → IsConsistent lib limit s
      → s.snapshot.ready ≡ true
      → s.active_turns ≡ 0
      → find_thread thread_id s.threads ≡ some thread
      → ((owner_create_turn lib s thread_id).0
          ≡ ok (respond (new_turn {P = P} (turn_name s.next_turn) thread thread_id)))
        × IsOnlyActive
            (new_turn (turn_name s.next_turn) thread thread_id)
            (owner_create_turn lib s thread_id).1
  owner_create_turn-starts limit s thread_id thread consistent ready idle known =
      let full = leb max_turns (length s.turns) in
      let s' = prune_at full s in
      let none_live : weigh (λ t. active t.status) s.turns ≡ 0 = sym consistent.counted ∙ idle in
      let (named, ended) = prune_at-ended limit s consistent none_live full in
      let result =
        owner_create_turn-admitted s thread_id thread ready (ground (arith, idle))
          (prune_at-room s none_live)
          (ap (find_thread thread_id) (threads-prune_at full s) ∙ known) in
      let next = next_turn-prune_at full s in
      (
        ap (λ r. r.0) result
            ∙ ap (λ n. ok (respond (new_turn {P = P} (turn_name n) thread thread_id))) next,
        subst (λ r. IsOnlyActive (new_turn (turn_name s.next_turn) thread thread_id) r.1)
            (sym result)
            (subst
              (λ n.
                IsOnlyActive (new_turn (turn_name n) thread thread_id)
                  (admitted s thread_id thread).1)
              next
              (IsOnlyActive-push_event (new_turn (turn_name s'.next_turn) thread thread_id)
                (admit_turn s' thread_id thread) (turn_name s'.next_turn) (codes "turn.started")
                (IsOnlyActive-admit_turn s' thread_id thread named ended
                  (active_turns-prune_at full s ∙ idle)))),
      )
