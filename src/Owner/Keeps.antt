-- ===== src/Owner/Keeps.antt =====
-- What every command of the owner keeps, it keeps by the few changes of state that the handlers are
-- made of: src/api.rs, owner_loop.
use spark_runner.Prelude.{
  ℕ, ◌-◌, ◌≡◌, refl, subst, Bool, true, false, not, ◌&&◌, ◌||◌, List, [], ◌∷◌, map, Option, none,
  some, arith, leb, length, next_u64, if_elim, option_elim,
}
use spark_runner.Prelude.Exec.{Result, ok, err}
use spark_runner.Prelude.Text.{Text, codes}
use spark_runner.Session.{ApprovalDecision}
use spark_runner.Owner.{
  TurnStatus, TurnRecord, ThreadRecord, ApprovalRecord, ApprovalStatus, RuntimeSnapshot, OwnerState,
  Rejection, failed, waiting_approval, denied, is_terminal, find_turn, update_turn, push_event,
}
use spark_runner.Owner.Terminal.{
  is_pending, deny_pending, push_denials, set_status, pending_ids, end_turn, terminalize,
}
use spark_runner.Owner.Decide.{
  find_approval, update_approval, claim, delivered_status, protocol_decision, set_approval_status,
  claim_approval, decide_claimed, owner_decide,
}
use spark_runner.Owner.Admit.{
  OwnerLib, Authority, max_concurrent_turns, max_threads, max_turns, insert_by, find_thread,
  is_known, prune_terminal_records, prune_at, admit_turn, owner_create_thread, owner_create_turn,
  owner_subscribe, owner_finished, finished_as, set_controller,
}
use spark_runner.Owner.Interrupt.{
  PendingApproval, Acknowledged, confirmed, unknown, dropped, late, Answers, acknowledge,
  end_ambiguous, claim_pending, new_approval, max_approvals, is_open, register,
  owner_register_pending, cancel_approvals, send_interrupt, interrupt_claimed, owner_interrupt,
  cancellation_terminal, cancellation_decision, event_fits,
}
use spark_runner.Owner.Names.{approval_name}
use spark_runner.Owner.Decided.{delivered_status_settled}
use spark_runner.Owner.Loop.{
  Command, bootstrap, create_thread, create_turn, subscribe, decide, interrupt_turn,
  controller_drop, pending_approval, approval_deadline, deadline, finished, shut_down,
  interrupt_all, step, verdict, still_awaits, turn_ids,
}

module _ {P D : Type 0} (lib : OwnerLib P D) where
  open lib use {encoded_len, denied_payload, decided_payload}

  -- The turn gets its status, and its pending approvals are denied.
  abbrev pub ended : OwnerState P → Text → TurnStatus → OwnerState P
  ended s key status = record s {
    turns = update_turn key (set_status encoded_len denied_payload status) s.turns;
    active_turns = s.active_turns - 1;
    approvals = map (deny_pending key) s.approvals;
  }

  -- The approval is there, and its turn waits for it.
  abbrev pub registered : OwnerState P → Text → Text → Bool → ℕ → OwnerState P
  registered s turn_id id allow_permitted next = record s {
    next_approval = next;
    approvals = insert_by (λ a. a.id) (new_approval id turn_id allow_permitted) s.approvals;
    turns = update_turn turn_id (set_status encoded_len denied_payload waiting_approval) s.turns;
  }

  -- A predicate that each change of state keeps. Only the admission of a turn is left out.
  pub record IsKept (Q : OwnerState P → Type 0) : Type 0 where
    pub pushed :
        (s : OwnerState P) (key kind : Text) (payload : P) (terminal : Bool)
        → Q s
        → Q (push_event encoded_len s key kind payload terminal)
    pub cancelled :
        (s : OwnerState P) (key : Text)
        → Q s
        → Q (record s { approvals = map (claim_pending key) s.approvals })
    pub claimed :
        (s : OwnerState P) (id : Text)
        → Q s
        → Q (record s { approvals = update_approval id claim s.approvals })
    pub settled :
        (s : OwnerState P) (id : Text) (status : ApprovalStatus)
        → is_pending status ≡ false
        → Q s
        → Q (set_approval_status s id status)
    pub waits :
        (s : OwnerState P) (turn_id id : Text) (next : ℕ)
        → is_open s.turns turn_id ≡ true
        → Q s
        → Q (registered s turn_id id true next)
    pub ends :
        (s : OwnerState P) (key : Text) (status : TurnStatus) (t : TurnRecord P)
        → find_turn key s.turns ≡ some t
        → is_terminal t.status ≡ false
        → is_terminal status ≡ true
        → Q s
        → Q (ended s key status)
    pub pruned : (s : OwnerState P) → Q s → Q (prune_terminal_records s)
    pub controlled :
        (s : OwnerState P) (id : Text) (active : Bool)
        → Q s
        → Q (record s { turns = update_turn id (set_controller active) s.turns })
    pub snapshot_set :
        (s : OwnerState P) (snapshot : RuntimeSnapshot) → Q s → Q (record s { snapshot = snapshot })
    pub threads_set :
        (s : OwnerState P) (n : ℕ) (threads : List ThreadRecord)
        → Q s
        → Q (record s { next_thread = n; threads = threads })

  module _ (Q : OwnerState P → Type 0) (kept : IsKept Q) where
    open kept use {
      pushed, cancelled, claimed, settled, waits, ends, pruned, controlled, snapshot_set,
      threads_set,
    }

    -- A handler's result, with the state that it leaves.
    record After {A : Type 0} (r : A × OwnerState P) : Type 0 where
      stays : Q r.1

    after : {A : Type 0} {r : A × OwnerState P} → Q r.1 → After r
    after h = record { stays = h }

    keeps-push_denials :
        (key : Text) (ids : List Text) (s : OwnerState P)
        → Q s
        → Q (push_denials encoded_len denied_payload key ids s)
    unfolding push_denials
    keeps-push_denials key [] s h = h
    keeps-push_denials key (id ∷ ids) s h =
        keeps-push_denials key ids _
          (pushed s key (codes "approval.decided") (denied_payload id) false h)

    keeps-terminalize :
        (s : OwnerState P) (key : Text) (status : TurnStatus) (kind : Text) (payload : P)
        → is_terminal status ≡ true
        → Q s
        → Q (terminalize encoded_len denied_payload s key status kind payload)
    unfolding terminalize end_turn
    keeps-terminalize s key status kind payload final h =
        option_elim Q (find_turn key s.turns) s _ (λ _. h)
          (λ t found.
            if_elim Q (is_terminal t.status) (λ _. h)
              (λ open_turn. pushed _ key kind payload true (
                keeps-push_denials key (pending_ids key s.approvals) (ended s key status)
                  (ends s key status t found open_turn final h))))

    keeps-prune_at : (b : Bool) (s : OwnerState P) → Q s → Q (prune_at b s)
    keeps-prune_at true s h = pruned s h
    keeps-prune_at false s h = h

    keeps-cancel_approvals :
        (deliver : Text → ApprovalDecision → Bool) (authority : Authority) (turn_id : Text)
        (ids : List Text) (s : OwnerState P)
        → Q s
        → After (cancel_approvals lib deliver authority turn_id ids s)
    unfolding cancel_approvals
    keeps-cancel_approvals deliver authority turn_id [] s h = after h
    keeps-cancel_approvals deliver authority turn_id (id ∷ ids) s h =
        let told : Q (
            push_event encoded_len (set_approval_status s id denied) turn_id
              (codes "approval.decided") (lib.cancelled_payload id authority) false) =
          pushed (set_approval_status s id denied) turn_id (codes "approval.decided")
            (lib.cancelled_payload id authority) false (settled s id denied refl h) in
        if_elim After (deliver id (cancellation_decision authority))
          (λ _. keeps-cancel_approvals deliver authority turn_id ids _ told) (λ _. after told)

    final_cancellation :
        (authority : Authority) → is_terminal (cancellation_terminal authority).0 ≡ true
    unfolding cancellation_terminal is_terminal
    final_cancellation authority = ground arith

    failed_final : is_terminal failed ≡ true
    unfolding is_terminal
    failed_final = refl

    keeps-ambiguous :
        (s : OwnerState P) (turn_id : Text) → Q s → After (end_ambiguous lib s turn_id)
    keeps-ambiguous s turn_id h = after (keeps-terminalize s turn_id failed _ _ failed_final h)

    keeps-acknowledge :
        (acknowledged : Acknowledged) (turn_id : Text) (authority : Authority) (s : OwnerState P)
        → Q s
        → After (acknowledge lib acknowledged turn_id authority s)
    unfolding acknowledge
    keeps-acknowledge confirmed turn_id authority s h =
        after (keeps-terminalize s turn_id _ _ _ (final_cancellation authority) h)
    keeps-acknowledge unknown turn_id authority s h = keeps-ambiguous s turn_id h
    keeps-acknowledge dropped turn_id authority s h = keeps-ambiguous s turn_id h
    keeps-acknowledge late turn_id authority s h = after h

    keeps-send_interrupt :
        (answers : Answers) (control : Bool) (turn_id : Text) (authority : Authority)
        (s : OwnerState P)
        → Q s
        → After (send_interrupt lib answers control turn_id authority s)
    unfolding send_interrupt
    keeps-send_interrupt answers control turn_id authority s h =
        if_elim After (not control) (λ _. after h)
          (λ _.
            if_elim After (not answers.sent) (λ _. keeps-ambiguous s turn_id h)
              (λ _. keeps-acknowledge answers.acknowledged turn_id authority s h))

    keeps-interrupt_claimed :
        (answers : Answers) (control : Bool) (turn_id : Text) (authority : Authority) (told : Bool)
        (s : OwnerState P)
        → Q s
        → After (interrupt_claimed lib answers control turn_id authority (told, s))
    unfolding interrupt_claimed
    keeps-interrupt_claimed answers control turn_id authority false s h = after h
    keeps-interrupt_claimed answers control turn_id authority true s h =
        keeps-send_interrupt answers control turn_id authority s h

    keeps-owner_interrupt :
        (s : OwnerState P) (turn_id : Text) (authority : Authority) (answers : Answers)
        → Q s
        → After (owner_interrupt lib s turn_id authority answers)
    unfolding owner_interrupt
    keeps-owner_interrupt s turn_id authority answers h =
        option_elim After (find_turn turn_id s.turns) _ _ (λ _. after h)
          (λ turn found.
            if_elim After (is_terminal turn.status) (λ _. after h)
              (λ _.
                keeps-interrupt_claimed answers turn.control turn_id authority _ _
                  (keeps-cancel_approvals answers.deliver authority turn_id _ _
                    (cancelled s turn_id h)).stays))

    keeps-decide_claimed :
        (deliver : ApprovalDecision → Bool) (decision : ApprovalStatus) (id : Text)
        (r : Result Rejection ApprovalRecord) (s : OwnerState P)
        → is_pending decision ≡ false
        → Q s
        → After (decide_claimed encoded_len deliver decided_payload decision id (r, s))
    unfolding decide_claimed
    keeps-decide_claimed deliver decision id (err e) s final h = after h
    keeps-decide_claimed deliver decision id (ok a) s final h =
        if_elim After
          (not (deliver (protocol_decision (delivered_status decision a.allow_permitted))))
          (λ _. after (settled s id denied refl h))
          (λ _. after (
            pushed _ _ _ _ _ (
              settled s id (delivered_status decision a.allow_permitted)
                (delivered_status_settled decision a.allow_permitted final) h)))

    keeps-claim_approval : (s : OwnerState P) (id : Text) → Q s → After (claim_approval s id)
    unfolding claim_approval
    keeps-claim_approval s id h =
        option_elim After (find_approval id s.approvals) _ _ (λ _. after h)
          (λ a found.
            if_elim After (not (is_pending a.status)) (λ _. after h) (λ _. after (claimed s id h)))

    keeps-owner_decide :
        (deliver : ApprovalDecision → Bool) (s : OwnerState P) (id : Text)
        (decision : ApprovalStatus)
        → is_pending decision ≡ false
        → Q s
        → After (owner_decide encoded_len deliver decided_payload s id decision)
    unfolding owner_decide
    keeps-owner_decide deliver s id decision final h =
        let r = claim_approval s id in
        keeps-decide_claimed deliver decision id r.0 r.1 final (keeps-claim_approval s id h).stays

    keeps-owner_register_pending :
        (s : OwnerState P) (turn_id : Text) (request : PendingApproval D)
        → Q s
        → After (owner_register_pending lib s turn_id request)
    unfolding owner_register_pending register
    keeps-owner_register_pending s turn_id request h =
        if_elim After (not request.allow_permitted) (λ _. after h)
          (λ allowed.
            if_elim After (leb max_approvals (length s.approvals) || not (is_open s.turns turn_id))
              (λ _. after h)
              (λ room.
                if_elim After
                  (not (
                    event_fits lib s turn_id (codes "approval.requested")
                      (lib.requested_payload (approval_name s.next_approval) request.request_key
                        request.method request.descriptor)
                      false))
                  (λ _. after h)
                  (λ _.
                    let permitted : true ≡ request.allow_permitted = ground (arith, allowed) in
                    let open_turn : is_open s.turns turn_id ≡ true = ground (arith, room) in
                    after (
                      pushed _ _ _ _ _ (
                        subst
                          (λ b. Q (
                            registered s turn_id (approval_name s.next_approval) b
                              (next_u64 s.next_approval)))
                          permitted (waits s turn_id _ _ open_turn h))))))

    keeps-owner_create_thread :
        (s : OwnerState P) (workspace_alias : Text)
        → Q s
        → After (owner_create_thread s workspace_alias)
    unfolding owner_create_thread
    keeps-owner_create_thread s workspace_alias h =
        let k = keeps-prune_at (leb max_threads (length s.threads)) s h in
        if_elim After
          (leb max_threads (length (prune_at (leb max_threads (length s.threads)) s).threads))
          (λ _. after k) (λ _. after (threads_set _ _ _ k))

    keeps-owner_subscribe :
        (s : OwnerState P) (id : Text) (last_seen : ℕ) (observer : Bool)
        → Q s
        → After (owner_subscribe s id last_seen observer)
    unfolding owner_subscribe
    keeps-owner_subscribe s id last_seen observer h =
        option_elim After (find_turn id s.turns) _ _ (λ _. after h)
          (λ turn found. after (
            if_elim Q
              (not observer && not (is_terminal turn.status) && not turn.controlling_sse_active)
              (λ _. controlled s id true h) (λ _. h)))

    finished_final : (result : Option Text) → is_terminal (finished_as lib result).0 ≡ true
    unfolding finished_as is_terminal
    finished_final none = refl
    finished_final (some summary) = ground arith

    keeps-owner_finished :
        (s : OwnerState P) (turn_id : Text) (result : Option Text)
        → Q s
        → Q (owner_finished lib s turn_id result)
    unfolding owner_finished
    keeps-owner_finished s turn_id result h =
        keeps-terminalize _ turn_id _ _ _ (finished_final result)
          (if_elim Q (is_known result) (λ _. h) (λ _. snapshot_set s _ h))

    -- The admission is given for the states in which the code admits.
    keeps-owner_create_turn :
        (s : OwnerState P) (thread_id : Text)
        → ((b : Bool) (thread : ThreadRecord)
            → s.active_turns ≡ 0
            → Q (prune_at b s)
            → Q (admit_turn (prune_at b s) thread_id thread))
        → Q s
        → After (owner_create_turn lib s thread_id)
    unfolding owner_create_turn
    keeps-owner_create_turn s thread_id admitted h =
        let full = leb max_turns (length s.turns) in
        let k = keeps-prune_at full s h in
        if_elim After (not s.snapshot.ready) (λ _. after h)
          (λ _.
            if_elim After (leb max_concurrent_turns s.active_turns) (λ _. after h)
              (λ free.
                if_elim After (leb max_turns (length (prune_at full s).turns)) (λ _. after k)
                  (λ _.
                    option_elim After (find_thread thread_id (prune_at full s).threads) _ _
                      (λ _. after k)
                      (λ thread found.
                        after (pushed _ _ _ _ _ (admitted full thread (ground (arith, free)) k))))))

    keeps-interrupt_all :
        (answers : Text → Answers) (ids : List Text) (s : OwnerState P)
        → Q s
        → Q (interrupt_all lib answers ids s)
    unfolding interrupt_all
    keeps-interrupt_all answers [] s h = h
    keeps-interrupt_all answers (id ∷ ids) s h =
        keeps-interrupt_all answers ids _ (keeps-owner_interrupt s id _ (answers id) h).stays

    verdict_settles : (approval : Bool) → is_pending (verdict approval) ≡ false
    unfolding verdict
    verdict_settles approval = ground arith

    pub keeps-step :
        (s : OwnerState P) (c : Command D)
        → ((b : Bool) (thread_id : Text) (thread : ThreadRecord)
            → s.active_turns ≡ 0
            → Q (prune_at b s)
            → Q (admit_turn (prune_at b s) thread_id thread))
        → Q s
        → Q (step lib s c)
    unfolding step
    keeps-step s (bootstrap journal_open admitted recorded) a h = snapshot_set s _ h
    keeps-step s (create_thread workspace_alias) a h =
        (keeps-owner_create_thread s workspace_alias h).stays
    keeps-step s (create_turn journal_open thread_id) a h =
        if_elim Q journal_open
          (λ _. (keeps-owner_create_turn s thread_id (λ b thread. a b thread_id thread) h).stays)
          (λ _. snapshot_set s _ h)
    keeps-step s (subscribe id last_seen observer) a h =
        (keeps-owner_subscribe s id last_seen observer h).stays
    keeps-step s (decide id approval deliver) a h =
        (keeps-owner_decide deliver s id (verdict approval) (verdict_settles approval) h).stays
    keeps-step s (interrupt_turn turn_id authority answers) a h =
        (keeps-owner_interrupt s turn_id authority answers h).stays
    keeps-step s (controller_drop turn_id answers) a h =
        controlled _ turn_id false (keeps-owner_interrupt s turn_id _ answers h).stays
    keeps-step s (pending_approval turn_id request) a h =
        (keeps-owner_register_pending s turn_id request h).stays
    keeps-step s (approval_deadline turn_id approval_id answers) a h =
        if_elim Q (still_awaits s turn_id approval_id)
          (λ _. (keeps-owner_interrupt s turn_id _ answers h).stays) (λ _. h)
    keeps-step s (deadline turn_id answers) a h =
        (keeps-owner_interrupt s turn_id _ answers h).stays
    keeps-step s (finished turn_id result) a h = keeps-owner_finished s turn_id result h
    keeps-step s (shut_down answers) a h = keeps-interrupt_all answers (turn_ids s.turns) s h
