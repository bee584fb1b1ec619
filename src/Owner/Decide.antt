-- ===== src/Owner/Decide.antt =====
-- Deciding an approval: src/api.rs, claim_approval, set_approval_status, owner_decide.
use spark_runner.Prelude.{ℕ, Bool, false, not, List, [], ◌∷◌, Option, none, some, if◌then◌else◌}
use spark_runner.Prelude.Exec.{Result, ok, err}
use spark_runner.Prelude.Text.{Text, codes, text_eq}
use spark_runner.Session.{ApprovalDecision, allow, deny}
use spark_runner.Owner.{
  TurnEvent, ApprovalRecord, ApprovalStatus, OwnerState, Rejection, not_found, approval_decided,
  approval_closed, approval_delivery_failed, pending, delivering, approved, denied, push_event,
}
use spark_runner.Owner.Terminal.{is_pending}

unfoldable pub find_approval : Text → List ApprovalRecord → Option ApprovalRecord
find_approval key [] = none
find_approval key (a ∷ others) = if text_eq key a.id then some a else find_approval key others

-- What is done to the record that `approvals.get_mut` yields.
unfoldable pub update_approval :
    Text → (ApprovalRecord → ApprovalRecord) → List ApprovalRecord → List ApprovalRecord
update_approval key f [] = []
update_approval key f (a ∷ others) =
    if text_eq key a.id then f a ∷ others else a ∷ update_approval key f others

-- The status is set before the sender is taken, and stays where there is none to take.
abbrev pub claim : ApprovalRecord → ApprovalRecord
claim a = record a { status = delivering; decision = false }

abbrev pub with_status : ApprovalStatus → ApprovalRecord → ApprovalRecord
with_status status a = record a { status = status }

-- `delivered_status` in `owner_decide`.
unfoldable pub delivered_status : ApprovalStatus → Bool → ApprovalStatus
delivered_status approved allow_permitted = if allow_permitted then approved else denied
delivered_status pending allow_permitted = pending
delivered_status delivering allow_permitted = delivering
delivered_status denied allow_permitted = denied

unfoldable pub protocol_decision : ApprovalStatus → ApprovalDecision
protocol_decision approved = allow
protocol_decision _ = deny

module _ {P : Type 0} where
  unfoldable pub claim_approval :
      OwnerState P → Text → Result Rejection ApprovalRecord × OwnerState P
  unfolding find_approval update_approval
  claim_approval s id = elim (find_approval id s.approvals) [
    | none ↦ (err not_found, s)
    | some a ↦ if not (is_pending a.status) then (err approval_decided, s) else (
      if a.decision then ok a else err approval_closed,
      record s { approvals = update_approval id claim s.approvals },
    )
  ]

  unfoldable pub set_approval_status : OwnerState P → Text → ApprovalStatus → OwnerState P
  unfolding update_approval
  set_approval_status s id status = record s {
    approvals = update_approval id (with_status status) s.approvals;
  }

  -- `deliver` is whether the runtime takes the decision in time, and `decided_payload` the event's
  -- payload.
  module _ (encoded_len : TurnEvent P → Option ℕ) (deliver : ApprovalDecision → Bool)
      (decided_payload : Text → ApprovalStatus → P) where
    -- `owner_decide`, once the approval has been claimed.
    unfoldable pub decide_claimed :
        ApprovalStatus
        → Text
        → Result Rejection ApprovalRecord × OwnerState P
        → Result Rejection ApprovalStatus × OwnerState P
    unfolding delivered_status protocol_decision set_approval_status
    decide_claimed decision id (err e, s) = (err e, s)
    decide_claimed decision id (ok a, s) =
        let status = delivered_status decision a.allow_permitted in
        if not (deliver (protocol_decision status))
        then (err approval_delivery_failed, set_approval_status s id denied)
        else (
          ok status,
          push_event encoded_len (set_approval_status s id status) a.turn_id
              (codes "approval.decided") (decided_payload a.id status) false,
        )

    unfoldable pub owner_decide :
        OwnerState P → Text → ApprovalStatus → Result Rejection ApprovalStatus × OwnerState P
    unfolding claim_approval decide_claimed
    owner_decide s id decision = decide_claimed decision id (claim_approval s id)
