-- ===== src/Owner/Settled.antt =====
-- What the end of a turn does to the approvals, read off the records alone: src/api.rs, terminalize.
use spark_runner.Prelude.{
  ◌≡◌, ◌≢◌, ◌⊎◌, refl, sym, subst, inl, inr, true, false, List, [], ◌∷◌, map, arith, Bool-cases,
  All,
}
use spark_runner.Prelude.Text.{Text, text_eq, text_eq_iff}
use spark_runner.Owner.{ApprovalRecord, pending, denied}
use spark_runner.Owner.Terminal.{awaits, deny_pending}

-- The turn waits for the approval.
abbrev pub IsAwaited : Text → ApprovalRecord → Type 0
IsAwaited key a = (a.turn_id ≡ key) × (a.status ≡ pending)

-- The turn does not wait for the approval.
abbrev pub IsNotAwaited : Text → ApprovalRecord → Type 0
IsNotAwaited key a = (a.turn_id ≢ key) ⊎ (a.status ≢ pending)

-- An approval that the turn waits for is denied, with its decision gone and all else as it was; any
-- other is left alone.
abbrev pub Settles : Text → ApprovalRecord → ApprovalRecord → Type 0
Settles key a b =
    (IsAwaited key a × (b ≡ record a { status = denied; decision = false }))
    ⊎ (IsNotAwaited key a × (b ≡ a))

-- The approvals after, one for each of those before.
abbrev pub AllSettle : Text → List ApprovalRecord → List ApprovalRecord → Type 0
AllSettle key [] [] = Unit
AllSettle key [] (b ∷ bs) = ⊥
AllSettle key (a ∷ others) [] = ⊥
AllSettle key (a ∷ others) (b ∷ bs) = Settles key a b × AllSettle key others bs

awaits-IsAwaited : (key : Text) (a : ApprovalRecord) → awaits key a ≡ true → IsAwaited key a
awaits-IsAwaited key a h = ((text_eq_iff a.turn_id key).0 (ground (arith, h)), ground (arith, h))

awaits-IsNotAwaited : (key : Text) (a : ApprovalRecord) → awaits key a ≡ false → IsNotAwaited key a
awaits-IsNotAwaited key a h = elim (Bool-cases (text_eq a.turn_id key)) [
  | inl same ↦ inr (λ e. ground (arith, h, same, e))
  | inr apart ↦ inl (λ e. ground (arith, apart, (text_eq_iff a.turn_id key).1 e))
]

deny_pending-Settles : (key : Text) (a : ApprovalRecord) → Settles key a (deny_pending key a)
unfolding deny_pending
deny_pending-Settles key a = elim (Bool-cases (awaits key a)) [
  | inl h ↦ rw h (inl (awaits-IsAwaited key a h, refl))
  | inr h ↦ rw h (inr (awaits-IsNotAwaited key a h, refl))
]

Settles-IsNotAwaited : (key : Text) (a b : ApprovalRecord) → Settles key a b → IsNotAwaited key b
Settles-IsNotAwaited key a b (inl (waits, e)) = inr (λ h. ground (arith, e, h))
Settles-IsNotAwaited key a b (inr (apart, e)) = subst (IsNotAwaited key) (sym e) apart

pub deny_pending-AllSettle :
    (key : Text) (approvals : List ApprovalRecord)
    → AllSettle key approvals (map (deny_pending key) approvals)
deny_pending-AllSettle key [] = tt
deny_pending-AllSettle key (a ∷ others) =
    (deny_pending-Settles key a, deny_pending-AllSettle key others)

pub AllSettle-IsNotAwaited :
    (key : Text) (before after : List ApprovalRecord)
    → AllSettle key before after
    → All (IsNotAwaited key) after
AllSettle-IsNotAwaited key [] [] h = tt
AllSettle-IsNotAwaited key [] (b ∷ bs) h = absurd h
AllSettle-IsNotAwaited key (a ∷ others) [] h = absurd h
AllSettle-IsNotAwaited key (a ∷ others) (b ∷ bs) (h, hs) =
    (Settles-IsNotAwaited key a b h, AllSettle-IsNotAwaited key others bs hs)
