-- ===== src/Owner/Admitted.antt =====
-- A turn that is admitted has a name of its own: src/api.rs, owner_create_turn.
use spark_runner.Prelude.{
  ℕ, ◌+◌, ◌<◌, ◌≡◌, refl, sym, ap, ◌∙◌, inl, inr, false, List, [], ◌∷◌, ◌++◌, none, some, arith,
  All, Bool-cases,
}
use spark_runner.Prelude.Text.{Text, text_eq, text_eq_iff, text_eq_refl}
use spark_runner.Owner.{TurnRecord, find_turn}
use spark_runner.Owner.Names.{turn_name, turn_name-injective}
use spark_runner.Owner.Turns.{weigh, AreDistinct, find_turn-here, find_turn-there}
use spark_runner.Owner.Changes.{text_eq_sym}
use spark_runner.Owner.Admit.{insert_by}

-- The name of a turn that was admitted before.
abbrev pub IsNamed : ℕ → Text → Type 0
IsNamed next name = (k : ℕ) × ((k < next) × (name ≡ turn_name k))

module _ {P : Type 0} where
  pub find_turn-fresh :
      (next : ℕ) (ts : List (TurnRecord P))
      → All (λ t. IsNamed next t.id) ts
      → find_turn (turn_name next) ts ≡ none
  unfolding find_turn
  find_turn-fresh next [] h = refl
  find_turn-fresh next (t ∷ ts) ((k, (lt, e)), h) =
      elim (Bool-cases (text_eq (turn_name next) t.id)) [
        | inl same ↦
            let names = (text_eq_iff (turn_name next) t.id).0 same ∙ e in
            absurd (omega (arith, lt, turn_name-injective next k names))
        | inr apart ↦ find_turn-there (turn_name next) t ts apart ∙ find_turn-fresh next ts h
      ]

  insert_by-fresh :
      (u t : TurnRecord P) (ts : List (TurnRecord P))
      → find_turn u.id (t ∷ ts) ≡ none
      → (text_eq u.id t.id ≡ false) × (find_turn u.id ts ≡ none)
  insert_by-fresh u t ts e = elim (Bool-cases (text_eq u.id t.id)) [
    | inl h ↦ absurd (ground (arith, find_turn-here u.id t ts h, e))
    | inr h ↦ (h, sym (find_turn-there u.id t ts h) ∙ e)
  ]

  -- Under a fresh name the map grows at its end.
  pub insert_by-append :
      (u : TurnRecord P) (ts : List (TurnRecord P))
      → find_turn u.id ts ≡ none
      → insert_by (λ t. t.id) u ts ≡ ts ++ u ∷ []
  unfolding insert_by
  insert_by-append u [] e = refl
  insert_by-append u (t ∷ ts) e =
      let (apart, fresh) = insert_by-fresh u t ts e in
      rw apart (ap (λ r. t ∷ r) (insert_by-append u ts fresh))

  pub weigh-append :
      (w : TurnRecord P → ℕ) (ts : List (TurnRecord P)) (u : TurnRecord P)
      → weigh w (ts ++ u ∷ []) ≡ weigh w ts + w u
  weigh-append w [] u = omega arith
  weigh-append w (t ∷ ts) u = omega (arith, weigh-append w ts u)

  pub find_turn-append :
      (j : Text) (ts : List (TurnRecord P)) (u t : TurnRecord P)
      → find_turn j ts ≡ some t
      → find_turn j (ts ++ u ∷ []) ≡ some t
  unfolding find_turn
  find_turn-append j [] u t e = absurd (ground arith)
  find_turn-append j (x ∷ ts) u t e = elim (Bool-cases (text_eq j x.id)) [
    | inl h ↦ find_turn-here j x (ts ++ u ∷ []) h ∙ sym (find_turn-here j x ts h) ∙ e
    | inr h ↦
        find_turn-there j x (ts ++ u ∷ []) h
        ∙ find_turn-append j ts u t (sym (find_turn-there j x ts h) ∙ e)
  ]

  pub find_turn-append_self :
      (ts : List (TurnRecord P)) (u : TurnRecord P)
      → find_turn u.id ts ≡ none
      → find_turn u.id (ts ++ u ∷ []) ≡ some u
  unfolding find_turn
  find_turn-append_self [] u e = find_turn-here u.id u [] (text_eq_refl u.id)
  find_turn-append_self (t ∷ ts) u e =
      let (apart, fresh) = insert_by-fresh u t ts e in
      find_turn-there u.id t (ts ++ u ∷ []) apart ∙ find_turn-append_self ts u fresh

  find_turn-append-missing :
      (j : Text) (ts : List (TurnRecord P)) (u : TurnRecord P)
      → find_turn j ts ≡ none
      → text_eq j u.id ≡ false
      → find_turn j (ts ++ u ∷ []) ≡ none
  unfolding find_turn
  find_turn-append-missing j [] u e apart = find_turn-there j u [] apart
  find_turn-append-missing j (x ∷ ts) u e apart = elim (Bool-cases (text_eq j x.id)) [
    | inl h ↦ absurd (ground (arith, find_turn-here j x ts h, e))
    | inr h ↦
        find_turn-there j x (ts ++ u ∷ []) h
        ∙ find_turn-append-missing j ts u (sym (find_turn-there j x ts h) ∙ e) apart
  ]

  find_turn-nil : (j : Text) → find_turn {P = P} j [] ≡ none
  unfolding find_turn
  find_turn-nil j = refl

  pub AreDistinct-append :
      (ts : List (TurnRecord P)) (u : TurnRecord P)
      → AreDistinct ts
      → find_turn u.id ts ≡ none
      → AreDistinct (ts ++ u ∷ [])
  AreDistinct-append [] u d e = (find_turn-nil u.id, tt)
  AreDistinct-append (t ∷ ts) u (new, d) e =
      let (apart, fresh) = insert_by-fresh u t ts e in
      (
        find_turn-append-missing t.id ts u new (text_eq_sym u.id t.id apart),
        AreDistinct-append ts u d fresh,
      )
