-- ===== src/Owner/Pruned.antt =====
-- What pruning removes: src/api.rs, prune_terminal_records.
use spark_runner.Prelude.{
  ℕ, ◌+◌, ◌-◌, ◌≤◌, ◌≡◌, refl, sym, ap, ◌∙◌, subst, inl, inr, true, false, ◌||◌, List, [], ◌∷◌,
  none, some, arith, if◌then◌else◌, All, Bool-cases,
}
use spark_runner.Prelude.Text.{Text, text_eq}
use spark_runner.Owner.{TurnStatus, TurnRecord, ApprovalRecord, is_terminal, find_turn}
use spark_runner.Owner.Terminal.{is_pending}
use spark_runner.Owner.Turns.{weigh, AreDistinct, find_turn-here, find_turn-there}
use spark_runner.Owner.Admit.{live_turns, live_bytes, retained, is_known}

-- How a turn counts among the active ones.
abbrev pub active : TurnStatus → ℕ
active status = if is_terminal status then 0 else 1

module _ {P : Type 0} where
  pub live_turns-terminal :
      (t : TurnRecord P) (ts : List (TurnRecord P))
      → is_terminal t.status ≡ true
      → live_turns (t ∷ ts) ≡ live_turns ts
  unfolding live_turns
  live_turns-terminal t ts h = rw h

  live_turns-open :
      (t : TurnRecord P) (ts : List (TurnRecord P))
      → is_terminal t.status ≡ false
      → live_turns (t ∷ ts) ≡ t ∷ live_turns ts
  unfolding live_turns
  live_turns-open t ts h = rw h

  pub All-live_turns :
      (Q : TurnRecord P → Type 0) (ts : List (TurnRecord P)) → All Q ts → All Q (live_turns ts)
  unfolding live_turns
  All-live_turns Q [] h = tt
  All-live_turns Q (t ∷ ts) (ht, h) = elim (Bool-cases (is_terminal t.status)) [
    | inl e ↦ rw (live_turns-terminal t ts e) (All-live_turns Q ts h)
    | inr e ↦ rw (live_turns-open t ts e) (ht, All-live_turns Q ts h)
  ]

  pub weigh-active-live_turns :
      (ts : List (TurnRecord P))
      → weigh (λ t. active t.status) (live_turns ts) ≡ weigh (λ t. active t.status) ts
  unfolding live_turns
  weigh-active-live_turns [] = refl
  weigh-active-live_turns (t ∷ ts) = elim (Bool-cases (is_terminal t.status)) [
    | inl e ↦ rw (live_turns-terminal t ts e) (rw e (omega (arith, weigh-active-live_turns ts)))
    | inr e ↦
        rw (live_turns-open t ts e) (ap (λ n. active t.status + n) (weigh-active-live_turns ts))
  ]

  pub weigh-live_turns_le :
      (w : TurnRecord P → ℕ) (ts : List (TurnRecord P)) → weigh w (live_turns ts) ≤ weigh w ts
  unfolding live_turns
  weigh-live_turns_le w [] = omega arith
  weigh-live_turns_le w (t ∷ ts) = elim (Bool-cases (is_terminal t.status)) [
    | inl e ↦ rw (live_turns-terminal t ts e) (omega (arith, weigh-live_turns_le w ts))
    | inr e ↦ rw (live_turns-open t ts e) (omega (arith, weigh-live_turns_le w ts))
  ]

  -- The bytes that stay counted are those of the turns that stay.
  pub live_bytes-weigh :
      (n : ℕ) (ts : List (TurnRecord P))
      → weigh (λ t. t.event_bytes) ts ≤ n
      → live_bytes n ts + weigh (λ t. t.event_bytes) ts
        ≡ n + weigh (λ t. t.event_bytes) (live_turns ts)
  unfolding live_bytes live_turns
  live_bytes-weigh n [] h = refl
  live_bytes-weigh n (t ∷ ts) h = elim (Bool-cases (is_terminal t.status)) [
    | inl e ↦
        let rest = live_bytes-weigh (n - t.event_bytes) ts (omega (arith, h)) in
        rw (live_turns-terminal t ts e) (rw e (omega (arith, rest, h)))
    | inr e ↦
        let rest = live_bytes-weigh n ts (omega (arith, h)) in
        rw (live_turns-open t ts e) (rw e (omega (arith, rest, h)))
  ]

  find_turn-live_turns-missing :
      (j : Text) (ts : List (TurnRecord P))
      → find_turn j ts ≡ none
      → find_turn j (live_turns ts) ≡ none
  unfolding find_turn live_turns
  find_turn-live_turns-missing j [] e = e
  find_turn-live_turns-missing j (t ∷ ts) e = elim (Bool-cases (text_eq j t.id)) [
    | inl h ↦ absurd (ground (arith, find_turn-here j t ts h, e))
    | inr h ↦
        let deeper = find_turn-live_turns-missing j ts (sym (find_turn-there j t ts h) ∙ e) in
        elim (Bool-cases (is_terminal t.status)) [
          | inl k ↦ rw (live_turns-terminal t ts k) deeper
          | inr k ↦ rw (live_turns-open t ts k) (find_turn-there j t (live_turns ts) h ∙ deeper)
        ]
  ]

  pub AreDistinct-live_turns :
      (ts : List (TurnRecord P)) → AreDistinct ts → AreDistinct (live_turns ts)
  unfolding live_turns
  AreDistinct-live_turns [] d = tt
  AreDistinct-live_turns (t ∷ ts) (new, d) = elim (Bool-cases (is_terminal t.status)) [
    | inl k ↦ rw (live_turns-terminal t ts k) (AreDistinct-live_turns ts d)
    | inr k ↦
        rw (live_turns-open t ts k)
          (find_turn-live_turns-missing t.id ts new, AreDistinct-live_turns ts d)
  ]

  -- A turn that is not terminal stays.
  pub find_turn-live_turns :
      (j : Text) (ts : List (TurnRecord P)) (u : TurnRecord P)
      → find_turn j ts ≡ some u
      → is_terminal u.status ≡ false
      → find_turn j (live_turns ts) ≡ some u
  unfolding find_turn live_turns
  find_turn-live_turns j [] u e open_turn = e
  find_turn-live_turns j (t ∷ ts) u e open_turn = elim (Bool-cases (text_eq j t.id)) [
    | inl h ↦
        let is_u : u ≡ t = ground (arith, find_turn-here j t ts h, e) in
        let k : is_terminal t.status ≡ false =
          subst (λ x. is_terminal x.status ≡ false) is_u open_turn in
        rw (live_turns-open t ts k)
          (find_turn-here j t (live_turns ts) h ∙ sym (find_turn-here j t ts h) ∙ e)
    | inr h ↦
        let deeper = find_turn-live_turns j ts u (sym (find_turn-there j t ts h) ∙ e) open_turn in
        elim (Bool-cases (is_terminal t.status)) [
          | inl k ↦ rw (live_turns-terminal t ts k) deeper
          | inr k ↦ rw (live_turns-open t ts k) (find_turn-there j t (live_turns ts) h ∙ deeper)
        ]
  ]

  pub All-retained :
      (Q : ApprovalRecord → Type 0) (ts : List (TurnRecord P)) (approvals : List ApprovalRecord)
      → All Q approvals
      → All Q (retained ts approvals)
  unfolding retained
  All-retained Q ts [] h = tt
  All-retained Q ts (a ∷ others) (ha, h) =
      elim (Bool-cases (is_pending a.status || is_known (find_turn a.turn_id ts))) [
        | inl e ↦ rw e (ha, All-retained Q ts others h)
        | inr e ↦ rw e (All-retained Q ts others h)
      ]
