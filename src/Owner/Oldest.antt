-- ===== src/Owner/Oldest.antt =====
-- The turn whose event is the oldest: src/api.rs, the search in push_event's loop.
use spark_runner.Prelude.{
  ℕ, ◌≤◌, ◌≡◌, refl, sym, ap, ◌∙◌, subst, inl, inr, ◌⊎◌, List, [], ◌∷◌, Option, none, some, arith,
  length, Bool-cases, leb,
}
use spark_runner.Prelude.Text.{Text, text_eq, text_eq_iff, text_eq_refl}
use spark_runner.Owner.{
  TurnEvent, TurnRecord, find_turn, older, first_event, oldest_turn, event_count,
}
use spark_runner.Owner.Turns.{AreDistinct, find_turn-here, find_turn-there}

older-none : (a b : Option (Text × ℕ)) → older a b ≡ none → (a ≡ none) × (b ≡ none)
older-none none b e = (refl, e)
older-none (some a) none e = absurd (ground arith)
older-none (some a) (some b) e = absurd (ground arith)

older-some :
    (a b : Option (Text × ℕ)) (o : Text × ℕ) → older a b ≡ some o → (a ≡ some o) ⊎ (b ≡ some o)
older-some none b o e = inr e
older-some (some a) none o e = inl e
older-some (some a) (some b) o e = elim (Bool-cases (leb a.1 b.1)) [
  | inl h ↦ inl (ground arith)
  | inr h ↦ inr (ground arith)
]

module _ {P : Type 0} where
  first_event-none :
      (key : Text) (es : List (TurnEvent P)) → first_event key es ≡ none → length es ≡ 0
  first_event-none key [] e = refl
  first_event-none key (x ∷ es) e = absurd (ground arith)

  first_event-some :
      (key : Text) (es : List (TurnEvent P)) (o : Text × ℕ)
      → first_event key es ≡ some o
      → (key ≡ o.0) × (1 ≤ length es)
  first_event-some key [] o e = absurd (ground arith)
  first_event-some key (x ∷ es) o e =
      let same : (key, x.id) ≡ o = ground (arith, e) in (ap (λ q. q.0) same, omega arith)

  pub oldest_turn-none : (ts : List (TurnRecord P)) → oldest_turn ts ≡ none → event_count ts ≡ 0
  unfolding oldest_turn event_count
  oldest_turn-none [] e = refl
  oldest_turn-none (t ∷ ts) e =
      let (empty, nothing_left) = older-none (first_event t.id t.events) (oldest_turn ts) e in
      omega (arith, first_event-none t.id t.events empty, oldest_turn-none ts nothing_left)

  -- The turn that is named has an event.
  pub oldest_turn-found :
      (ts : List (TurnRecord P)) (o : Text × ℕ)
      → AreDistinct ts
      → oldest_turn ts ≡ some o
      → (t : TurnRecord P) × ((find_turn o.0 ts ≡ some t) × (1 ≤ length t.events))
  unfolding oldest_turn
  oldest_turn-found [] o d e = absurd (ground arith)
  oldest_turn-found (t ∷ ts) o (new, d) e =
      elim (older-some (first_event t.id t.events) (oldest_turn ts) o e) [
        | inl here ↦
            let (same, some_left) = first_event-some t.id t.events o here in
            (
              t,
              (
                subst (λ key. find_turn key (t ∷ ts) ≡ some t) same
                    (find_turn-here t.id t ts (text_eq_refl t.id)),
                some_left,
              ),
            )
        | inr later ↦
            let (u, (found, some_left)) = oldest_turn-found ts o d later in
            elim (Bool-cases (text_eq o.0 t.id)) [
              | inl h ↦
                  let same = (text_eq_iff o.0 t.id).0 h in
                  let gone : find_turn o.0 ts ≡ none =
                    subst (λ key. find_turn key ts ≡ none) (sym same) new in
                  absurd (ground (arith, gone, found))
              | inr h ↦ (u, (find_turn-there o.0 t ts h ∙ found, some_left))
            ]
      ]
