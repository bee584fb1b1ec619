-- ===== src/Owner/Terminal.antt =====
-- The end of a turn: src/api.rs, terminalize.
use spark_runner.Prelude.{
  ℕ, Bool, true, false, ◌&&◌, List, [], ◌∷◌, map, Option, none, some, if◌then◌else◌, saturating_sub,
}
use spark_runner.Prelude.Text.{Text, codes, text_eq}
use spark_runner.Owner.{
  TurnStatus, TurnEvent, TurnRecord, ApprovalRecord, OwnerState, pending, denied, ApprovalStatus,
  is_terminal, find_turn, update_turn, push_event,
}

abbrev pub is_pending : ApprovalStatus → Bool
is_pending pending = true
is_pending _ = false

-- The test of `filter_map` in `terminalize`.
abbrev pub awaits : Text → ApprovalRecord → Bool
awaits key a = text_eq a.turn_id key && is_pending a.status

-- The ids that the `filter_map` collects.
unfoldable pub pending_ids : Text → List ApprovalRecord → List Text
pending_ids key [] = []
pending_ids key (a ∷ others) =
    let ids = pending_ids key others in if awaits key a then a.id ∷ ids else ids

-- What the `filter_map` does to a record on its way.
unfoldable pub deny_pending : Text → ApprovalRecord → ApprovalRecord
deny_pending key a = if awaits key a then record a { status = denied; decision = false } else a

module _ {P : Type 0} (encoded_len : TurnEvent P → Option ℕ) (denied_payload : Text → P) where
  -- The loop over the approvals that were pending.
  unfoldable pub push_denials : Text → List Text → OwnerState P → OwnerState P
  push_denials key [] s = s
  push_denials key (id ∷ ids) s =
      push_denials key ids
        (push_event encoded_len s key (codes "approval.decided") (denied_payload id) false)

  abbrev pub set_status : TurnStatus → TurnRecord P → TurnRecord P
  set_status status t = record t { status = status }

  -- `terminalize` once the turn has been found not to be terminal.
  unfoldable pub end_turn : OwnerState P → Text → TurnStatus → Text → P → OwnerState P
  unfolding pending_ids deny_pending push_denials
  end_turn s key status kind payload =
      let s' = record s {
        turns = update_turn key (set_status status) s.turns;
        active_turns = saturating_sub s.active_turns 1;
        approvals = map (deny_pending key) s.approvals;
      } in
      push_event encoded_len (push_denials key (pending_ids key s.approvals) s') key kind payload
        true

  unfoldable pub terminalize : OwnerState P → Text → TurnStatus → Text → P → OwnerState P
  unfolding end_turn
  terminalize s key status kind payload = elim (find_turn key s.turns) [
    | none ↦ s
    | some t ↦ if is_terminal t.status then s else end_turn s key status kind payload
  ]
