-- ===== src/Owner/Once.antt =====
-- What the end of a turn settles: src/api.rs, terminalize.
use spark_runner.Prelude.{
  ℕ, ◌-◌, ◌≡◌, refl, ap, sym, subst, All, ◌∙◌, inl, inr, true, false, List, [], ◌∷◌, map, Option,
  none, some, Bool-cases, Option-cases,
}
use spark_runner.Prelude.Text.{Text, codes}
use spark_runner.Owner.{
  TurnStatus, TurnEvent, TurnRecord, OwnerState, is_terminal, find_turn, update_turn, push_event,
}
use spark_runner.Owner.Turns.{find_turn-update_turn}
use spark_runner.Owner.Same.{Same, Same-refl, Same-trans, Same-push_event}
use spark_runner.Owner.Settled.{
  AllSettle, IsNotAwaited, deny_pending-AllSettle, AllSettle-IsNotAwaited,
}
use spark_runner.Owner.Terminal.{
  pending_ids, deny_pending, push_denials, set_status, end_turn, terminalize,
}

module _ {P : Type 0} (encoded_len : TurnEvent P → Option ℕ) (denied_payload : Text → P) where
  Same-push_denials :
      (key : Text) (ids : List Text) (s : OwnerState P)
      → Same s (push_denials encoded_len denied_payload key ids s)
  unfolding push_denials
  Same-push_denials key [] s = Same-refl s
  Same-push_denials key (id ∷ ids) s =
      let s' = push_event encoded_len s key (codes "approval.decided") (denied_payload id) false in
      Same-trans s s' (push_denials encoded_len denied_payload key ids s')
        (Same-push_event encoded_len s key (codes "approval.decided") (denied_payload id) false)
        (Same-push_denials key ids s')

  -- The state in which `end_turn` pushes its events.
  abbrev ended : OwnerState P → Text → TurnStatus → OwnerState P
  ended s key status = record s {
    turns = update_turn key (set_status encoded_len denied_payload status) s.turns;
    active_turns = s.active_turns - 1;
    approvals = map (deny_pending key) s.approvals;
  }

  Same-end_turn :
      (s : OwnerState P) (key : Text) (status : TurnStatus) (kind : Text) (payload : P)
      → Same (ended s key status) (end_turn encoded_len denied_payload s key status kind payload)
  unfolding end_turn
  Same-end_turn s key status kind payload =
      let s' = ended s key status in
      let r = push_denials encoded_len denied_payload key (pending_ids key s.approvals) s' in
      Same-trans s' r (push_event encoded_len r key kind payload true)
        (Same-push_denials key (pending_ids key s.approvals) s')
        (Same-push_event encoded_len r key kind payload true)

  terminalize-missing :
      (s : OwnerState P) (key : Text) (status : TurnStatus) (kind : Text) (payload : P)
      → find_turn key s.turns ≡ none
      → terminalize encoded_len denied_payload s key status kind payload ≡ s
  unfolding terminalize
  terminalize-missing s key status kind payload e = rw (e, terminalize)

  terminalize-terminal :
      (s : OwnerState P) (key : Text) (status : TurnStatus) (kind : Text) (payload : P)
      (t : TurnRecord P)
      → find_turn key s.turns ≡ some t
      → is_terminal t.status ≡ true
      → terminalize encoded_len denied_payload s key status kind payload ≡ s
  unfolding terminalize
  terminalize-terminal s key status kind payload t e h = rw (e, h, terminalize)

  terminalize-end_turn :
      (s : OwnerState P) (key : Text) (status : TurnStatus) (kind : Text) (payload : P)
      (t : TurnRecord P)
      → find_turn key s.turns ≡ some t
      → is_terminal t.status ≡ false
      → terminalize encoded_len denied_payload s key status kind payload
        ≡ end_turn encoded_len denied_payload s key status kind payload
  unfolding terminalize
  terminalize-end_turn s key status kind payload t e h = rw (e, h, terminalize)

  -- Ending a turn that is not terminal gives it the status and counts one active turn less. Each
  -- approval of that turn that was pending is denied and its decision is gone; every other approval,
  -- of another turn or decided before, is as it was, in its place; so none of the turn is pending.
  pub terminalize-Ends :
      (s : OwnerState P) (key : Text) (status : TurnStatus) (kind : Text) (payload : P)
      (t : TurnRecord P)
      → find_turn key s.turns ≡ some t
      → is_terminal t.status ≡ false
      → ((u : TurnRecord P) × ((find_turn key
                (terminalize encoded_len denied_payload s key status kind payload).turns
              ≡ some u)
            × (u.status ≡ status)))
        × AllSettle key s.approvals
            (terminalize encoded_len denied_payload s key status kind payload).approvals
        × All
            (IsNotAwaited key)
            (terminalize encoded_len denied_payload s key status kind payload).approvals
        × ((terminalize encoded_len denied_payload s key status kind payload).active_turns
            ≡ s.active_turns - 1)
  terminalize-Ends s key status kind payload t found open_turn =
      rw (terminalize-end_turn s key status kind payload t found open_turn) (
        let (u, (there, head)) = same.heads key (set_status encoded_len denied_payload status t) (
              find_turn-update_turn key (set_status encoded_len denied_payload status) s.turns t
                (λ u. refl) found) in
            (u, (there, ap (λ r. r.status) head)),
        settled,
        AllSettle-IsNotAwaited key s.approvals _ settled,
        same.active_turns,
      )
    where
      same :
          Same (ended s key status) (end_turn encoded_len denied_payload s key status kind payload)
      same = Same-end_turn s key status kind payload

      settled :
          AllSettle key s.approvals
            (end_turn encoded_len denied_payload s key status kind payload).approvals
      settled =
          subst (AllSettle key s.approvals) (sym same.approvals)
            (deny_pending-AllSettle key s.approvals)

  -- The first terminal verdict on a turn is final: any later one changes nothing, in the turn, its
  -- events, its approvals or the count of active turns.
  pub terminalize-terminalize :
      (s : OwnerState P) (key : Text) (status later : TurnStatus) (kind kind' : Text)
      (payload payload' : P)
      → is_terminal status ≡ true
      → terminalize encoded_len denied_payload
          (terminalize encoded_len denied_payload s key status kind payload)
          key
          later
          kind'
          payload'
        ≡ terminalize encoded_len denied_payload s key status kind payload
  terminalize-terminalize s key status later kind kind' payload payload' final =
      elim (Option-cases (find_turn key s.turns)) [
        | inl e ↦
            rw (terminalize-missing s key status kind payload e)
              (terminalize-missing s key later kind' payload' e)
        | inr (t, e) ↦ elim (Bool-cases (is_terminal t.status)) [
          | inl h ↦
              rw (terminalize-terminal s key status kind payload t e h)
                (terminalize-terminal s key later kind' payload' t e h)
          | inr h ↦
              let ((u, (there, same)), _, _, _) =
                terminalize-Ends s key status kind payload t e h in
              terminalize-terminal
                (terminalize encoded_len denied_payload s key status kind payload) key later kind'
                payload' u there (ap is_terminal same ∙ final)
        ]
      ]
