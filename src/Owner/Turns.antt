-- ===== src/Owner/Turns.antt =====
-- The map of turns: src/api.rs, the uses of OwnerState's `turns`.
use spark_runner.Prelude.{
  ℕ, ◌+◌, ◌≤◌, ◌≡◌, refl, sym, ap, ◌∙◌, subst, inl, inr, true, false, List, [], ◌∷◌, none, some,
  arith, length, All, Bool-cases,
}
use spark_runner.Prelude.Text.{Text, text_eq}
use spark_runner.Owner.{TurnRecord, find_turn, update_turn, event_count}

module _ {P : Type 0} where
  -- A sum over the turns.
  abbrev pub weigh : (TurnRecord P → ℕ) → List (TurnRecord P) → ℕ
  weigh w [] = 0
  weigh w (t ∷ ts) = w t + weigh w ts

  pub event_count-weigh :
      (ts : List (TurnRecord P)) → event_count ts ≡ weigh (λ t. length t.events) ts
  unfolding event_count
  event_count-weigh [] = refl
  event_count-weigh (t ∷ ts) = ap (λ n. length t.events + n) (event_count-weigh ts)

  pub find_turn-here :
      (key : Text) (t : TurnRecord P) (ts : List (TurnRecord P))
      → text_eq key t.id ≡ true
      → find_turn key (t ∷ ts) ≡ some t
  unfolding find_turn
  find_turn-here key t ts h = rw h

  pub find_turn-there :
      (key : Text) (t : TurnRecord P) (ts : List (TurnRecord P))
      → text_eq key t.id ≡ false
      → find_turn key (t ∷ ts) ≡ find_turn key ts
  unfolding find_turn
  find_turn-there key t ts h = rw h

  pub update_turn-here :
      (key : Text) (f : TurnRecord P → TurnRecord P) (t : TurnRecord P) (ts : List (TurnRecord P))
      → text_eq key t.id ≡ true
      → update_turn key f (t ∷ ts) ≡ f t ∷ ts
  unfolding update_turn
  update_turn-here key f t ts h = rw h

  pub update_turn-there :
      (key : Text) (f : TurnRecord P → TurnRecord P) (t : TurnRecord P) (ts : List (TurnRecord P))
      → text_eq key t.id ≡ false
      → update_turn key f (t ∷ ts) ≡ t ∷ update_turn key f ts
  unfolding update_turn
  update_turn-there key f t ts h = rw h

  pub weigh-update_turn :
      (w : TurnRecord P → ℕ) (key : Text) (f : TurnRecord P → TurnRecord P)
      (ts : List (TurnRecord P)) (u : TurnRecord P)
      → find_turn key ts ≡ some u
      → weigh w (update_turn key f ts) + w u ≡ weigh w ts + w (f u)
  unfolding find_turn update_turn
  weigh-update_turn w key f [] u e = absurd (ground arith)
  weigh-update_turn w key f (t ∷ ts) u e = elim (Bool-cases (text_eq key t.id)) [
    | inl h ↦
        let same : t ≡ u = ground (arith, find_turn-here key t ts h, e) in
        rw (update_turn-here key f t ts h, sym same) (omega arith)
    | inr h ↦
        let deeper = weigh-update_turn w key f ts u (sym (find_turn-there key t ts h) ∙ e) in
        rw (update_turn-there key f t ts h) (omega (arith, deeper))
  ]

  pub All-update_turn :
      (Q : TurnRecord P → Type 0) (key : Text) (f : TurnRecord P → TurnRecord P)
      (ts : List (TurnRecord P))
      → All Q ts
      → ((t : TurnRecord P) → Q t → Q (f t))
      → All Q (update_turn key f ts)
  unfolding update_turn
  All-update_turn Q key f [] h step = tt
  All-update_turn Q key f (t ∷ ts) (ht, hts) step = elim (Bool-cases (text_eq key t.id)) [
    | inl h ↦ rw (update_turn-here key f t ts h) (step t ht, hts)
    | inr h ↦ rw (update_turn-there key f t ts h) (ht, All-update_turn Q key f ts hts step)
  ]

  pub All-find_turn :
      (Q : TurnRecord P → Type 0) (key : Text) (ts : List (TurnRecord P)) (u : TurnRecord P)
      → All Q ts
      → find_turn key ts ≡ some u
      → Q u
  unfolding find_turn
  All-find_turn Q key [] u h e = absurd (ground arith)
  All-find_turn Q key (t ∷ ts) u (ht, hts) e = elim (Bool-cases (text_eq key t.id)) [
    | inl h ↦ let same : t ≡ u = ground (arith, find_turn-here key t ts h, e) in subst Q same ht
    | inr h ↦ All-find_turn Q key ts u hts (sym (find_turn-there key t ts h) ∙ e)
  ]

  -- A map holds a key once.
  abbrev pub AreDistinct : List (TurnRecord P) → Type 0
  AreDistinct [] = Unit
  AreDistinct (t ∷ ts) = (find_turn t.id ts ≡ none) × AreDistinct ts

  pub find_turn-update_turn :
      (key : Text) (f : TurnRecord P → TurnRecord P) (ts : List (TurnRecord P)) (u : TurnRecord P)
      → ((t : TurnRecord P) → (f t).id ≡ t.id)
      → find_turn key ts ≡ some u
      → find_turn key (update_turn key f ts) ≡ some (f u)
  unfolding find_turn
  find_turn-update_turn key f [] u same e = absurd (ground arith)
  find_turn-update_turn key f (t ∷ ts) u same e = elim (Bool-cases (text_eq key t.id)) [
    | inl h ↦
        let is_u : t ≡ u = ground (arith, find_turn-here key t ts h, e) in
        rw (update_turn-here key f t ts h)
          (find_turn-here key (f t) ts (rw (same t) h) ∙ ap (λ x. some (f x)) is_u)
    | inr h ↦
        let deeper = find_turn-update_turn key f ts u same (sym (find_turn-there key t ts h) ∙ e) in
        rw (update_turn-there key f t ts h)
          (find_turn-there key t (update_turn key f ts) h ∙ deeper)
  ]

  pub find_turn-missing :
      (j key : Text) (f : TurnRecord P → TurnRecord P) (ts : List (TurnRecord P))
      → ((t : TurnRecord P) → (f t).id ≡ t.id)
      → find_turn j ts ≡ none
      → find_turn j (update_turn key f ts) ≡ none
  unfolding find_turn update_turn
  find_turn-missing j key f [] same e = e
  find_turn-missing j key f (t ∷ ts) same e = elim (Bool-cases (text_eq j t.id)) [
    | inl h ↦ absurd (ground (arith, find_turn-here j t ts h, e))
    | inr h ↦
        let deeper = find_turn-missing j key f ts same (sym (find_turn-there j t ts h) ∙ e) in
        elim (Bool-cases (text_eq key t.id)) [
          | inl k ↦
              rw (update_turn-here key f t ts k)
                (find_turn-there j (f t) ts (rw (same t) h) ∙ sym (find_turn-there j t ts h) ∙ e)
          | inr k ↦
              rw (update_turn-there key f t ts k)
                (find_turn-there j t (update_turn key f ts) h ∙ deeper)
        ]
  ]

  pub AreDistinct-update_turn :
      (key : Text) (f : TurnRecord P → TurnRecord P) (ts : List (TurnRecord P))
      → ((t : TurnRecord P) → (f t).id ≡ t.id)
      → AreDistinct ts
      → AreDistinct (update_turn key f ts)
  unfolding find_turn update_turn
  AreDistinct-update_turn key f [] same d = d
  AreDistinct-update_turn key f (t ∷ ts) same (new, d) = elim (Bool-cases (text_eq key t.id)) [
    | inl h ↦ rw (update_turn-here key f t ts h) (rw (same t) new, d)
    | inr h ↦
        rw (update_turn-there key f t ts h)
          (find_turn-missing t.id key f ts same new, AreDistinct-update_turn key f ts same d)
  ]

  pub weigh-find_turn :
      (w : TurnRecord P → ℕ) (key : Text) (ts : List (TurnRecord P)) (u : TurnRecord P)
      → find_turn key ts ≡ some u
      → w u ≤ weigh w ts
  unfolding find_turn
  weigh-find_turn w key [] u e = absurd (ground arith)
  weigh-find_turn w key (t ∷ ts) u e = elim (Bool-cases (text_eq key t.id)) [
    | inl h ↦
        let same : t ≡ u = ground (arith, find_turn-here key t ts h, e) in
        rw (sym same) (omega arith)
    | inr h ↦
        let deeper = weigh-find_turn w key ts u (sym (find_turn-there key t ts h) ∙ e) in
        omega (arith, deeper)
  ]
