-- ===== src/Owner/History.antt =====
-- Histories of commands: src/api.rs, owner_loop.
use spark_runner.Prelude.{
  ℕ, suc, ◌+◌, ◌≤◌, ◌<◌, ◌≡◌, refl, ◌∙◌, subst, Bool, true, false, List, [], ◌∷◌, arith, length,
  u64_max,
}
use spark_runner.Owner.{OwnerState, new_owner}
use spark_runner.Owner.Admit.{OwnerLib, prune_terminal_records, prune_at}
use spark_runner.Owner.Loop.{Command, step, run}
use spark_runner.Owner.Keeps.{IsKept, keeps-step}
use spark_runner.Owner.Changes.{
  All-update_approval, All-map, IsBacked, IsBacked-claim_pending, IsBacked-settled,
}
use spark_runner.Owner.Decide.{claim, with_status, set_approval_status}
use spark_runner.Owner.Interrupt.{claim_pending}
use spark_runner.Owner.Invariant.{
  IsConsistent, with_approvals, IsConsistent-pushed, IsConsistent-waits, IsConsistent-ends,
  IsConsistent-pruned, IsConsistent-controlled, IsConsistent-admitted,
}

module _ {P D : Type 0} (lib : OwnerLib P D) where
  open lib use {encoded_len, no_fields}

  IsConsistent-IsKept : (limit : ℕ) → IsKept lib (IsConsistent lib limit)
  unfolding set_approval_status
  IsConsistent-IsKept limit = record {
    pushed = IsConsistent-pushed lib limit;
    cancelled = λ s key h. with_approvals lib limit s _ h (
        All-map (IsBacked s.turns) (IsBacked s.turns) (claim_pending key) s.approvals
          (IsBacked-claim_pending s.turns key) h.backed);
    claimed = λ s id h.
        with_approvals lib limit s _ h
          (All-update_approval (IsBacked s.turns) id claim s.approvals (λ a _. tt) h.backed);
    settled = λ s id status final h. with_approvals lib limit s _ h (
        All-update_approval (IsBacked s.turns) id (with_status status) s.approvals
          (λ a _. IsBacked-settled s.turns status a final) h.backed);
    waits = IsConsistent-waits lib limit;
    ends = IsConsistent-ends lib limit;
    pruned = IsConsistent-pruned lib limit;
    controlled = IsConsistent-controlled lib limit;
    snapshot_set = λ s snapshot h. record {
      sound = h.sound;
      counted = h.counted;
      single = h.single;
      named = h.named;
      backed = h.backed;
      bounded = h.bounded;
    };
    threads_set = λ s n threads h. record {
      sound = h.sound;
      counted = h.counted;
      single = h.single;
      named = h.named;
      backed = h.backed;
      bounded = h.bounded;
    };
  }

  IsConsistent-suc :
      (limit : ℕ) (s : OwnerState P) → IsConsistent lib limit s → IsConsistent lib (suc limit) s
  IsConsistent-suc limit s h = record {
    sound = h.sound;
    counted = h.counted;
    single = h.single;
    named = h.named;
    backed = h.backed;
    bounded = omega (arith, h.bounded);
  }

  next_turn-prune_at : (b : Bool) (s : OwnerState P) → (prune_at b s).next_turn ≡ s.next_turn
  unfolding prune_terminal_records
  next_turn-prune_at true s = refl
  next_turn-prune_at false s = refl

  active_turns-prune_at :
      (b : Bool) (s : OwnerState P) → (prune_at b s).active_turns ≡ s.active_turns
  unfolding prune_terminal_records
  active_turns-prune_at true s = refl
  active_turns-prune_at false s = refl

  step-IsConsistent :
      (limit : ℕ) (s : OwnerState P) (c : Command D)
      → limit < u64_max
      → IsConsistent lib limit s
      → IsConsistent lib (suc limit) (step lib s c)
  step-IsConsistent limit s c room h =
      keeps-step lib (IsConsistent lib (suc limit)) (IsConsistent-IsKept (suc limit)) s c
        (λ b thread_id thread none_active k.
          IsConsistent-admitted lib limit (prune_at b s) thread_id thread room
            (active_turns-prune_at b s ∙ none_active)
            (omega (arith, next_turn-prune_at b s, h.bounded)) k)
        (IsConsistent-suc limit s h)

  run-IsConsistent :
      (cs : List (Command D)) (limit : ℕ) (s : OwnerState P)
      → limit + length cs ≤ u64_max
      → IsConsistent lib limit s
      → IsConsistent lib (limit + length cs) (run lib s cs)
  unfolding run
  run-IsConsistent [] limit s room h = subst (λ n. IsConsistent lib n s) (omega arith) h
  run-IsConsistent (c ∷ cs) limit s room h =
      subst (λ n. IsConsistent lib n (run lib (step lib s c) cs)) (omega arith)
        (run-IsConsistent cs (suc limit) (step lib s c) (omega (arith, room))
          (step-IsConsistent limit s c (omega (arith, room)) h))

  new_owner-IsConsistent : (live : Bool) → IsConsistent lib 1 (new_owner live)
  unfolding new_owner
  new_owner-IsConsistent live = record {
    sound = (tt, tt, refl, omega arith);
    counted = refl;
    single = omega arith;
    named = tt;
    backed = tt;
    bounded = omega arith;
  }

  -- After any history of fewer than 2 ^ 64 - 1 commands, whatever the running turns answer:
  -- `active_turns` is the number of turns that are not terminal, and at most one; the replay buffer
  -- is accounted for byte by byte and within its bounds; the names of the turns differ; and
  -- every pending approval has its sender, may be granted, and belongs to a turn that is not terminal.
  pub run-new_owner-IsConsistent :
      (live : Bool) (cs : List (Command D))
      → length cs < u64_max
      → IsConsistent lib (1 + length cs) (run lib (new_owner live) cs)
  run-new_owner-IsConsistent live cs room =
      run-IsConsistent cs 1 (new_owner live) (omega (arith, room)) (new_owner-IsConsistent live)
