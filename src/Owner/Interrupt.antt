-- ===== src/Owner/Interrupt.antt =====
-- Approvals that arrive and turns that are cancelled: src/api.rs, event_fits,
-- owner_register_pending, cancellation_terminal, owner_interrupt.
use spark_runner.Prelude.{
  ℕ, Bool, true, false, not, ◌&&◌, ◌||◌, List, [], ◌∷◌, map, none, some, leb, if◌then◌else◌, length,
  next_u64,
}
use spark_runner.Prelude.Exec.{Result, ok, err}
use spark_runner.Prelude.Text.{Text, codes}
use spark_runner.Session.{ApprovalDecision, deny, timeout}
use spark_runner.Owner.{
  TurnStatus, TurnRecord, ApprovalRecord, OwnerState, Rejection, waiting_approval, interrupted,
  failed, pending, delivering, denied, not_found, approval_capacity, turn_terminal, turn_closed,
  interrupt_timeout, approval_delivery_failed, max_event_bytes, is_terminal, find_turn, update_turn,
  new_event, push_event,
}
use spark_runner.Owner.Terminal.{awaits, set_status, terminalize}
use spark_runner.Owner.Names.{approval_name}
use spark_runner.Owner.Decide.{set_approval_status}
use spark_runner.Owner.Admit.{
  OwnerLib, Authority, TurnResponse, interrupt, approval_timeout, turn_deadline,
  controlling_sse_drop, shutdown, insert_by, turn_response,
}

abbrev pub max_approvals : ℕ
max_approvals = 256

-- PendingApproval, without its deadline, which comes back as a command, and its sender.
pub record PendingApproval (D : Type 0) : Type 0 where
  pub request_key : Text
  pub method : Text
  pub descriptor : D
  pub allow_permitted : Bool

unfoldable pub cancellation_terminal : Authority → TurnStatus × Text
cancellation_terminal approval_timeout = (failed, codes "turn.failed")
cancellation_terminal turn_deadline = (failed, codes "turn.failed")
cancellation_terminal interrupt = (interrupted, codes "turn.interrupted")
cancellation_terminal controlling_sse_drop = (interrupted, codes "turn.interrupted")
cancellation_terminal shutdown = (interrupted, codes "turn.interrupted")

-- The decision that a cancellation delivers.
unfoldable pub cancellation_decision : Authority → ApprovalDecision
cancellation_decision approval_timeout = timeout
cancellation_decision turn_deadline = timeout
cancellation_decision interrupt = deny
cancellation_decision controlling_sse_drop = deny
cancellation_decision shutdown = deny

-- What becomes of the acknowledgement of an interrupt.
pub data Acknowledged : Type 0 where
  confirmed unknown dropped late : Acknowledged

-- How the running turn answers: whether it takes the decision on an approval, whether its control
-- channel is open, and its acknowledgement.
pub record Answers : Type 0 where
  pub deliver : Text → ApprovalDecision → Bool
  pub sent : Bool
  pub acknowledged : Acknowledged

-- What the loop over the approvals does to those of the turn that are pending.
unfoldable pub claim_pending : Text → ApprovalRecord → ApprovalRecord
claim_pending key a = if awaits key a then record a { status = delivering; decision = false } else a

-- The approvals whose senders the loop takes.
unfoldable pub claimed_ids : Text → List ApprovalRecord → List Text
claimed_ids key [] = []
claimed_ids key (a ∷ others) =
    let ids = claimed_ids key others in if awaits key a && a.decision then a.id ∷ ids else ids

-- A turn that is known and not terminal.
abbrev pub is_open : {P : Type 0} → List (TurnRecord P) → Text → Bool
is_open turns turn_id = elim (find_turn turn_id turns) [
  | none ↦ false
  | some turn ↦ not (is_terminal turn.status)
]

abbrev pub new_approval : Text → Text → Bool → ApprovalRecord
new_approval id turn_id allow_permitted = record {
  id = id;
  turn_id = turn_id;
  status = pending;
  allow_permitted = allow_permitted;
  decision = true;
}

module _ {P D : Type 0} (lib : OwnerLib P D) where
  open lib use {
    encoded_len, denied_payload, cancelled_payload, requested_payload, status_payload,
    error_payload,
  }

  unfoldable pub event_fits : OwnerState P → Text → Text → P → Bool → Bool
  event_fits s turn_id kind payload terminal =
      elim (encoded_len (new_event encoded_len s turn_id kind payload terminal)) [
        | none ↦ false
        | some n ↦ leb n max_event_bytes
      ]

  -- The end of `owner_register_pending`, from the point where the approval becomes actionable.
  unfoldable pub register : OwnerState P → Text → Text → Bool → P → OwnerState P
  unfolding insert_by
  register s turn_id id allow_permitted payload =
      let approval = new_approval id turn_id allow_permitted in
      let s' = record s {
        next_approval = next_u64 s.next_approval;
        approvals = insert_by (λ a. a.id) approval s.approvals;
        turns =
            update_turn turn_id (set_status encoded_len denied_payload waiting_approval) s.turns;
      } in
      push_event encoded_len s' turn_id (codes "approval.requested") payload false

  -- Where it denies the request on the spot, the state stays.
  unfoldable pub owner_register_pending :
      OwnerState P → Text → PendingApproval D → Result Rejection (Unit {0}) × OwnerState P
  unfolding register event_fits
  owner_register_pending s turn_id request =
      if not request.allow_permitted
      then (ok tt, s)
      else if leb max_approvals (length s.approvals) || not (is_open s.turns turn_id)
      then (err approval_capacity, s)
      else let id = approval_name s.next_approval in
        let payload = requested_payload id request.request_key request.method request.descriptor in
        if not (event_fits s turn_id (codes "approval.requested") payload false)
        then (ok tt, s)
        else (ok tt, register s turn_id id request.allow_permitted payload)

  -- The loop over the claimed approvals: true where every decision was delivered.
  unfoldable pub cancel_approvals :
      (Text → ApprovalDecision → Bool)
      → Authority
      → Text
      → List Text
      → OwnerState P
      → Bool × OwnerState P
  cancel_approvals deliver authority turn_id [] s = (true, s)
  cancel_approvals deliver authority turn_id (id ∷ ids) s =
      let s' =
        push_event encoded_len (set_approval_status s id denied) turn_id (codes "approval.decided")
          (cancelled_payload id authority) false in
      let rest = cancel_approvals deliver authority turn_id ids s' in
      if deliver id (cancellation_decision authority) then rest else (false, s')

  abbrev pub end_with : OwnerState P → Text → TurnStatus → Text → P → OwnerState P
  end_with = terminalize encoded_len denied_payload

  -- An interrupt whose outcome is not known.
  abbrev pub end_ambiguous : OwnerState P → Text → Result Rejection TurnResponse × OwnerState P
  end_ambiguous s turn_id =
      let s' =
        end_with s turn_id failed (codes "turn.failed")
          (error_payload (codes "delivery_ambiguous")) in
      (turn_response s' turn_id, s')

  abbrev pub end_cancelled :
      OwnerState P → Text → Authority → Result Rejection TurnResponse × OwnerState P
  end_cancelled s turn_id authority =
      let (status, kind) = cancellation_terminal authority in
      let s' = end_with s turn_id status kind (status_payload status) in
      (turn_response s' turn_id, s')

  -- The match on the acknowledgement.
  unfoldable pub acknowledge :
      Acknowledged → Text → Authority → OwnerState P → Result Rejection TurnResponse × OwnerState P
  unfolding cancellation_terminal
  acknowledge confirmed turn_id authority s = end_cancelled s turn_id authority
  acknowledge unknown turn_id authority s = end_ambiguous s turn_id
  acknowledge dropped turn_id authority s = end_ambiguous s turn_id
  acknowledge late turn_id authority s = (err interrupt_timeout, s)

  -- The end of `owner_interrupt`, once the approvals have been told.
  unfoldable pub send_interrupt :
      Answers
      → Bool
      → Text
      → Authority
      → OwnerState P
      → Result Rejection TurnResponse × OwnerState P
  unfolding acknowledge
  send_interrupt answers control turn_id authority s =
      if not control
      then (err turn_closed, s)
      else if not answers.sent
      then end_ambiguous s turn_id
      else acknowledge answers.acknowledged turn_id authority s

  unfoldable pub interrupt_claimed :
      Answers
      → Bool
      → Text
      → Authority
      → Bool × OwnerState P
      → Result Rejection TurnResponse × OwnerState P
  unfolding send_interrupt
  interrupt_claimed answers control turn_id authority (false, s) = (err approval_delivery_failed, s)
  interrupt_claimed answers control turn_id authority (true, s) =
      send_interrupt answers control turn_id authority s

  unfoldable pub owner_interrupt :
      OwnerState P → Text → Authority → Answers → Result Rejection TurnResponse × OwnerState P
  unfolding interrupt_claimed cancel_approvals
  owner_interrupt s turn_id authority answers = elim (find_turn turn_id s.turns) [
    | none ↦ (err not_found, s)
    | some turn ↦
        if is_terminal turn.status
        then (err turn_terminal, s)
        else let s' = record s { approvals = map (claim_pending turn_id) s.approvals } in
          interrupt_claimed answers turn.control turn_id authority (
            cancel_approvals answers.deliver authority turn_id (claimed_ids turn_id s.approvals) s')
  ]
