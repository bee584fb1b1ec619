-- ===== src/Owner/Decided.antt =====
-- An approval is decided once: src/api.rs, owner_decide.
use spark_runner.Prelude.{
  ℕ, ◌≡◌, refl, sym, ap, ◌∙◌, subst, inl, inr, Bool, true, false, List, [], ◌∷◌, Option, some,
  arith, if◌then◌else◌, Bool-cases,
}
use spark_runner.Prelude.Exec.{Result, ok, err}
use spark_runner.Prelude.Text.{Text, codes, text_eq}
use spark_runner.Session.{ApprovalDecision}
use spark_runner.Owner.{
  TurnEvent, ApprovalRecord, ApprovalStatus, OwnerState, Rejection, approval_decided,
  approval_closed, pending, delivering, approved, denied, push_event,
}
use spark_runner.Owner.Same.{Same-push_event}
use spark_runner.Owner.Terminal.{is_pending}
use spark_runner.Owner.Decide.{
  find_approval, update_approval, claim, with_status, delivered_status, protocol_decision,
  claim_approval, set_approval_status, decide_claimed, owner_decide,
}

find_approval-here :
    (key : Text) (a : ApprovalRecord) (others : List ApprovalRecord)
    → text_eq key a.id ≡ true
    → find_approval key (a ∷ others) ≡ some a
unfolding find_approval
find_approval-here key a others h = rw h

find_approval-there :
    (key : Text) (a : ApprovalRecord) (others : List ApprovalRecord)
    → text_eq key a.id ≡ false
    → find_approval key (a ∷ others) ≡ find_approval key others
unfolding find_approval
find_approval-there key a others h = rw h

update_approval-here :
    (key : Text) (f : ApprovalRecord → ApprovalRecord) (a : ApprovalRecord)
    (others : List ApprovalRecord)
    → text_eq key a.id ≡ true
    → update_approval key f (a ∷ others) ≡ f a ∷ others
unfolding update_approval
update_approval-here key f a others h = rw h

update_approval-there :
    (key : Text) (f : ApprovalRecord → ApprovalRecord) (a : ApprovalRecord)
    (others : List ApprovalRecord)
    → text_eq key a.id ≡ false
    → update_approval key f (a ∷ others) ≡ a ∷ update_approval key f others
unfolding update_approval
update_approval-there key f a others h = rw h

find_approval-update_approval :
    (key : Text) (f : ApprovalRecord → ApprovalRecord) (approvals : List ApprovalRecord)
    (a : ApprovalRecord)
    → ((b : ApprovalRecord) → (f b).id ≡ b.id)
    → find_approval key approvals ≡ some a
    → find_approval key (update_approval key f approvals) ≡ some (f a)
unfolding find_approval
find_approval-update_approval key f [] a same e = absurd (ground arith)
find_approval-update_approval key f (b ∷ others) a same e = elim (Bool-cases (text_eq key b.id)) [
  | inl h ↦
      let is_a : b ≡ a = ground (arith, find_approval-here key b others h, e) in
      rw (update_approval-here key f b others h)
        (find_approval-here key (f b) others (rw (same b) h) ∙ ap (λ x. some (f x)) is_a)
  | inr h ↦
      let deeper =
        find_approval-update_approval key f others a same
          (sym (find_approval-there key b others h) ∙ e) in
      rw (update_approval-there key f b others h)
        (find_approval-there key b (update_approval key f others) h ∙ deeper)
]

-- An approval that is there and no longer pending.
abbrev pub IsDecided : {P : Type 0} → OwnerState P → Text → Type 0
IsDecided s id =
    (a : ApprovalRecord) × ((find_approval id s.approvals ≡ some a) × (is_pending a.status ≡ false))

IsDecided-claim_approval :
    {P : Type 0} (s : OwnerState P) (id : Text)
    → IsDecided s id
    → claim_approval s id ≡ (err approval_decided, s)
unfolding claim_approval
IsDecided-claim_approval s id (a, (e, h)) = rw (e, h, claim_approval)

pub delivered_status_settled :
    (decision : ApprovalStatus) (b : Bool)
    → is_pending decision ≡ false
    → is_pending (delivered_status decision b) ≡ false
unfolding delivered_status
delivered_status_settled approved true h = refl
delivered_status_settled approved false h = refl
delivered_status_settled pending b h = h
delivered_status_settled delivering b h = h
delivered_status_settled denied b h = h

module _ {P : Type 0} (encoded_len : TurnEvent P → Option ℕ) (deliver : ApprovalDecision → Bool)
    (decided_payload : Text → ApprovalStatus → P) where
  -- A status that is not pending settles the approval.
  IsDecided-update_approval :
      (s : OwnerState P) (id : Text) (f : ApprovalRecord → ApprovalRecord) (a : ApprovalRecord)
      → ((b : ApprovalRecord) → (f b).id ≡ b.id)
      → is_pending (f a).status ≡ false
      → find_approval id s.approvals ≡ some a
      → IsDecided (record s { approvals = update_approval id f s.approvals }) id
  IsDecided-update_approval s id f a same h e =
      (f a, (find_approval-update_approval id f s.approvals a same e, h))

  IsDecided-set_approval_status :
      (s : OwnerState P) (id : Text) (status : ApprovalStatus)
      → is_pending status ≡ false
      → IsDecided s id
      → IsDecided (set_approval_status s id status) id
  unfolding set_approval_status
  IsDecided-set_approval_status s id status h (a, (e, _)) =
      IsDecided-update_approval s id (with_status status) a (λ b. refl) h e

  IsDecided-push_event :
      (s : OwnerState P) (id key kind : Text) (payload : P) (terminal : Bool)
      → IsDecided s id
      → IsDecided (push_event encoded_len s key kind payload terminal) id
  IsDecided-push_event s id key kind payload terminal (a, (e, h)) =
      let same = Same-push_event encoded_len s key kind payload terminal in
      (a, (ap (find_approval id) same.approvals ∙ e, h))

  IsDecided-decide_claimed :
      (decision : ApprovalStatus) (id : Text) (r : Result Rejection ApprovalRecord)
      (s : OwnerState P)
      → is_pending decision ≡ false
      → IsDecided s id
      → IsDecided (decide_claimed encoded_len deliver decided_payload decision id (r, s)).1 id
  unfolding decide_claimed
  IsDecided-decide_claimed decision id (err e) s h settled = settled
  IsDecided-decide_claimed decision id (ok a) s h settled =
      let status = delivered_status decision a.allow_permitted in
      elim (Bool-cases (deliver (protocol_decision status))) [
        | inl d ↦ rw d (
            IsDecided-push_event (set_approval_status s id status) id a.turn_id
              (codes "approval.decided") (decided_payload a.id status) false
              (IsDecided-set_approval_status s id status
                (delivered_status_settled decision a.allow_permitted h) settled))
        | inr d ↦ rw d (IsDecided-set_approval_status s id denied refl settled)
      ]

  claim_approval-pending :
      (s : OwnerState P) (id : Text) (a : ApprovalRecord)
      → find_approval id s.approvals ≡ some a
      → is_pending a.status ≡ true
      → claim_approval s id ≡ (
        if a.decision then ok a else err approval_closed,
        record s { approvals = update_approval id claim s.approvals },
      )
  unfolding claim_approval
  claim_approval-pending s id a e h = rw (e, h, claim_approval)

  IsDecided-claim :
      (s : OwnerState P) (id : Text) (a : ApprovalRecord)
      → find_approval id s.approvals ≡ some a
      → IsDecided (claim_approval s id).1 id
  IsDecided-claim s id a e = elim (Bool-cases (is_pending a.status)) [
    | inl h ↦
        subst (λ r. IsDecided r.1 id) (sym (claim_approval-pending s id a e h))
          (IsDecided-update_approval s id claim a (λ b. refl) refl e)
    | inr h ↦
        subst (λ r. IsDecided r.1 id) (sym (IsDecided-claim_approval s id (a, (e, h)))) (a, (e, h))
  ]

  IsDecided-owner_decide :
      (s : OwnerState P) (id : Text) (decision : ApprovalStatus) (a : ApprovalRecord)
      → find_approval id s.approvals ≡ some a
      → is_pending decision ≡ false
      → IsDecided (owner_decide encoded_len deliver decided_payload s id decision).1 id
  unfolding owner_decide
  IsDecided-owner_decide s id decision a e h =
      let claimed = claim_approval s id in
      IsDecided-decide_claimed decision id claimed.0 claimed.1 h (IsDecided-claim s id a e)

  decided_again :
      (s : OwnerState P) (id : Text) (later : ApprovalStatus)
      → IsDecided s id
      → owner_decide encoded_len deliver decided_payload s id later ≡ (err approval_decided, s)
  unfolding owner_decide decide_claimed
  decided_again s id later settled = rw (IsDecided-claim_approval s id settled)

  -- A known approval is decided once: after a decision other than pending, whether it was delivered
  -- or not, any later one is refused as decided already and changes nothing.
  pub owner_decide-owner_decide :
      (s : OwnerState P) (id : Text) (decision later : ApprovalStatus) (a : ApprovalRecord)
      → find_approval id s.approvals ≡ some a
      → is_pending decision ≡ false
      → owner_decide encoded_len deliver decided_payload
          (owner_decide encoded_len deliver decided_payload s id decision).1
          id
          later
        ≡ (err approval_decided, (owner_decide encoded_len deliver decided_payload s id decision).1)
  owner_decide-owner_decide s id decision later a e h =
      decided_again (owner_decide encoded_len deliver decided_payload s id decision).1 id later
        (IsDecided-owner_decide s id decision a e h)
