-- ===== src/Owner/Updates.antt =====
-- What an update of one turn leaves of the map of turns: src/api.rs, `turns.get_mut`.
use spark_runner.Prelude.{
  ℕ, ◌≡◌, refl, sym, ap, ◌∙◌, subst, inl, inr, false, List, [], ◌∷◌, some, arith, Bool-cases,
}
use spark_runner.Prelude.Text.{Text, text_eq, text_eq_iff}
use spark_runner.Owner.{TurnRecord, find_turn, update_turn}
use spark_runner.Owner.Admit.{respond}
use spark_runner.Owner.Turns.{
  weigh, find_turn-here, find_turn-there, update_turn-here, update_turn-there,
}

module _ {P : Type 0} where
  pub find_turn-kept :
      (j key : Text) (f : TurnRecord P → TurnRecord P) (ts : List (TurnRecord P)) (u : TurnRecord P)
      → ((t : TurnRecord P) → (f t).id ≡ t.id)
      → ((t : TurnRecord P) → respond (f t) ≡ respond t)
      → find_turn j ts ≡ some u
      → (v : TurnRecord P) × ((find_turn j (update_turn key f ts) ≡ some v)
          × (respond v ≡ respond u))
  unfolding find_turn
  find_turn-kept j key f [] u same heads e = absurd (ground arith)
  find_turn-kept j key f (t ∷ ts) u same heads e = elim (Bool-cases (text_eq j t.id)) [
    | inl h ↦
        let is_u : t ≡ u = ground (arith, find_turn-here j t ts h, e) in
        elim (Bool-cases (text_eq key t.id)) [
          | inl k ↦
              rw (update_turn-here key f t ts k)
                (f t, (find_turn-here j (f t) ts (rw (same t) h), heads t ∙ ap respond is_u))
          | inr k ↦
              rw (update_turn-there key f t ts k)
                (t, (find_turn-here j t (update_turn key f ts) h, ap respond is_u))
        ]
    | inr h ↦
        let (v, (deeper, kept)) =
          find_turn-kept j key f ts u same heads (sym (find_turn-there j t ts h) ∙ e) in
        elim (Bool-cases (text_eq key t.id)) [
          | inl k ↦ rw (update_turn-here key f t ts k) (
            u,
            (find_turn-there j (f t) ts (rw (same t) h) ∙ sym (find_turn-there j t ts h) ∙ e, refl),
          )
          | inr k ↦
              rw (update_turn-there key f t ts k)
                (v, (find_turn-there j t (update_turn key f ts) h ∙ deeper, kept))
        ]
  ]

  -- An update that leaves a weight alone leaves the sum alone.
  pub weigh-update_same :
      (w : TurnRecord P → ℕ) (key : Text) (f : TurnRecord P → TurnRecord P)
      (ts : List (TurnRecord P))
      → ((t : TurnRecord P) → w (f t) ≡ w t)
      → weigh w (update_turn key f ts) ≡ weigh w ts
  unfolding update_turn
  weigh-update_same w key f [] same = refl
  weigh-update_same w key f (t ∷ ts) same = elim (Bool-cases (text_eq key t.id)) [
    | inl h ↦ rw (update_turn-here key f t ts h) (omega (arith, same t))
    | inr h ↦
        let deeper = weigh-update_same w key f ts same in
        rw (update_turn-there key f t ts h) (omega (arith, deeper))
  ]

  -- The other turns are found as before.
  pub find_turn-other :
      (j key : Text) (f : TurnRecord P → TurnRecord P) (ts : List (TurnRecord P))
      → ((t : TurnRecord P) → (f t).id ≡ t.id)
      → text_eq key j ≡ false
      → find_turn j (update_turn key f ts) ≡ find_turn j ts
  unfolding find_turn update_turn
  find_turn-other j key f [] same apart = refl
  find_turn-other j key f (t ∷ ts) same apart = elim (Bool-cases (text_eq j t.id)) [
    | inl h ↦
        let k : text_eq key t.id ≡ false =
          subst (λ x. text_eq key x ≡ false) ((text_eq_iff j t.id).0 h) apart in
        rw (update_turn-there key f t ts k)
          (find_turn-here j t (update_turn key f ts) h ∙ sym (find_turn-here j t ts h))
    | inr h ↦ elim (Bool-cases (text_eq key t.id)) [
      | inl k ↦
          rw (update_turn-here key f t ts k)
            (find_turn-there j (f t) ts (rw (same t) h) ∙ sym (find_turn-there j t ts h))
      | inr k ↦ rw (update_turn-there key f t ts k) (
          find_turn-there j t (update_turn key f ts) h
          ∙ find_turn-other j key f ts same apart
          ∙ sym (find_turn-there j t ts h))
    ]
  ]
