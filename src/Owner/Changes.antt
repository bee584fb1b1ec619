-- ===== src/Owner/Changes.antt =====
-- What the owner's approvals rest on, and how changes of approvals and of turns keep it: src/api.rs,
-- owner_loop.
use spark_runner.Prelude.{
  ◌≡◌, refl, sym, ◌∙◌, subst, inl, inr, Bool, true, false, ◌&&◌, List, [], ◌∷◌, map, some, arith,
  All, Bool-cases, Option-cases,
}
use spark_runner.Prelude.Text.{Text, text_eq, text_eq_iff}
use spark_runner.Owner.{
  TurnRecord, ApprovalRecord, ApprovalStatus, pending, delivering, approved, denied, is_terminal,
  find_turn, update_turn,
}
use spark_runner.Owner.Terminal.{is_pending, awaits, deny_pending}
use spark_runner.Owner.Turns.{find_turn-update_turn}
use spark_runner.Owner.Updates.{find_turn-other}
use spark_runner.Owner.Decide.{update_approval, with_status}
use spark_runner.Owner.Admit.{insert_by}
use spark_runner.Owner.Interrupt.{claim_pending, is_open}

abbrev pub WhilePending : ApprovalStatus → Type 0 → Type 0
WhilePending pending B = B
WhilePending delivering B = Unit
WhilePending approved B = Unit
WhilePending denied B = Unit

-- While an approval is pending it can be answered and may be granted, and its turn is not terminal.
abbrev pub IsBacked : {P : Type 0} → List (TurnRecord P) → ApprovalRecord → Type 0
IsBacked turns a =
    WhilePending a.status
      ((a.decision ≡ true) × (a.allow_permitted ≡ true) × (is_open turns a.turn_id ≡ true))

WhilePending-settled :
    (status : ApprovalStatus) (B : Type 0) → is_pending status ≡ false → WhilePending status B
WhilePending-settled pending B h = absurd (cc)
WhilePending-settled delivering B h = tt
WhilePending-settled approved B h = tt
WhilePending-settled denied B h = tt

WhilePending-map :
    (status : ApprovalStatus) (b : Bool) (B C : Type 0)
    → (b && is_pending status) ≡ false
    → (b ≡ false → B → C)
    → WhilePending status B
    → WhilePending status C
WhilePending-map pending true B C h f x = absurd (cc)
WhilePending-map pending false B C h f x = f refl x
WhilePending-map delivering b B C h f x = tt
WhilePending-map approved b B C h f x = tt
WhilePending-map denied b B C h f x = tt

pub text_eq_sym : (s t : Text) → text_eq s t ≡ false → text_eq t s ≡ false
text_eq_sym s t h = elim (Bool-cases (text_eq t s)) [
  | inl e ↦ absurd (ground (arith, (text_eq_iff s t).1 (sym ((text_eq_iff t s).0 e)), h))
  | inr e ↦ e
]

pub All-map {ℓ κ μ} :
    {A : Type ℓ} {B : Type κ} (Q : A → Type μ) (R : B → Type μ) (f : A → B) (xs : List A)
    → ((x : A) → Q x → R (f x))
    → All Q xs
    → All R (map f xs)
All-map Q R f [] step h = tt
All-map Q R f (x ∷ xs) step (hx, h) = (step x hx, All-map Q R f xs step h)

pub All-weaken {ℓ μ} :
    {A : Type ℓ} (Q R : A → Type μ) (xs : List A) → ((x : A) → Q x → R x) → All Q xs → All R xs
All-weaken Q R [] step h = tt
All-weaken Q R (x ∷ xs) step (hx, h) = (step x hx, All-weaken Q R xs step h)

pub All-insert_by :
    {A : Type 0} (Q : A → Type 0) (id : A → Text) (a : A) (xs : List A)
    → Q a
    → All Q xs
    → All Q (insert_by id a xs)
unfolding insert_by
All-insert_by Q id a [] ha h = (ha, tt)
All-insert_by Q id a (x ∷ xs) ha (hx, h) = elim (Bool-cases (text_eq (id a) (id x))) [
  | inl e ↦ rw e (ha, h)
  | inr e ↦ rw e (hx, All-insert_by Q id a xs ha h)
]

pub All-update_approval :
    (Q : ApprovalRecord → Type 0) (key : Text) (f : ApprovalRecord → ApprovalRecord)
    (approvals : List ApprovalRecord)
    → ((a : ApprovalRecord) → Q a → Q (f a))
    → All Q approvals
    → All Q (update_approval key f approvals)
unfolding update_approval
All-update_approval Q key f [] step h = tt
All-update_approval Q key f (a ∷ others) step (ha, h) = elim (Bool-cases (text_eq key a.id)) [
  | inl e ↦ rw e (step a ha, h)
  | inr e ↦ rw e (ha, All-update_approval Q key f others step h)
]

module _ {P : Type 0} where
  pub is_open-found :
      (ts : List (TurnRecord P)) (j : Text)
      → is_open ts j ≡ true
      → (t : TurnRecord P) × ((find_turn j ts ≡ some t) × (is_terminal t.status ≡ false))
  is_open-found ts j h = elim (Option-cases (find_turn j ts)) [
    | inl e ↦ absurd (ground (arith, e, h))
    | inr (t, e) ↦ (t, (e, ground (arith, e, h)))
  ]

  pub is_open_of_found :
      (ts : List (TurnRecord P)) (j : Text) (t : TurnRecord P)
      → find_turn j ts ≡ some t
      → is_terminal t.status ≡ false
      → is_open ts j ≡ true
  is_open_of_found ts j t e h = rw (e, is_open, h)

  -- Where open turns stay open, approvals stay backed.
  pub IsBacked-turns :
      (ts us : List (TurnRecord P)) (approvals : List ApprovalRecord)
      → ((j : Text) → is_open ts j ≡ true → is_open us j ≡ true)
      → All (IsBacked ts) approvals
      → All (IsBacked us) approvals
  IsBacked-turns ts us approvals kept h =
      All-weaken (IsBacked ts) (IsBacked us) approvals
        (λ a. WhilePending-map a.status false _ _ refl (λ _ b. (b.0, b.1, kept a.turn_id b.2))) h

  pub IsBacked-claim_pending :
      (ts : List (TurnRecord P)) (key : Text) (a : ApprovalRecord)
      → IsBacked ts a
      → IsBacked ts (claim_pending key a)
  unfolding claim_pending
  IsBacked-claim_pending ts key a h = elim (Bool-cases (awaits key a)) [
    | inl e ↦ rw e tt
    | inr e ↦ rw e h
  ]

  pub IsBacked-settled :
      (ts : List (TurnRecord P)) (status : ApprovalStatus) (a : ApprovalRecord)
      → is_pending status ≡ false
      → IsBacked ts (with_status status a)
  IsBacked-settled ts status a settled = WhilePending-settled status _ settled

  -- A turn that stays open keeps every turn open.
  pub is_open-update_turn :
      (ts : List (TurnRecord P)) (key j : Text) (f : TurnRecord P → TurnRecord P)
      → ((t : TurnRecord P) → (f t).id ≡ t.id)
      → ((t : TurnRecord P) → is_terminal t.status ≡ false → is_terminal (f t).status ≡ false)
      → is_open ts j ≡ true
      → is_open (update_turn key f ts) j ≡ true
  is_open-update_turn ts key j f same still h =
      let (t, (e, open_turn)) = is_open-found ts j h in
      elim (Bool-cases (text_eq key j)) [
        | inl k ↦
            let is_key : j ≡ key = sym ((text_eq_iff key j).0 k) in
            let e' = subst (λ x. find_turn x ts ≡ some t) is_key e in
            subst (λ x. is_open (update_turn key f ts) x ≡ true) (sym is_key)
              (is_open_of_found (update_turn key f ts) key (f t)
                (find_turn-update_turn key f ts t same e') (still t open_turn))
        | inr k ↦
            is_open_of_found (update_turn key f ts) j t (find_turn-other j key f ts same k ∙ e)
              open_turn
      ]

  -- The end of a turn: what was pending for it is denied, and the others still have their turns.
  pub IsBacked-deny_pending :
      (ts : List (TurnRecord P)) (key : Text) (f : TurnRecord P → TurnRecord P) (a : ApprovalRecord)
      → ((t : TurnRecord P) → (f t).id ≡ t.id)
      → IsBacked ts a
      → IsBacked (update_turn key f ts) (deny_pending key a)
  unfolding deny_pending
  IsBacked-deny_pending ts key f a same h = elim (Bool-cases (awaits key a)) [
    | inl e ↦ rw e tt
    | inr e ↦ rw e (
        WhilePending-map a.status (text_eq a.turn_id key) _ _ e
          (λ apart b.
            let (t, (found, open_turn)) = is_open-found ts a.turn_id b.2 in
            (
              b.0,
              b.1,
              is_open_of_found (update_turn key f ts) a.turn_id t
                  (find_turn-other a.turn_id key f ts same (text_eq_sym a.turn_id key apart)
                    ∙ found)
                  open_turn,
            ))
          h)
  ]
