-- ===== src/Owner/Loop.antt =====
-- The commands of the owner, one at a time: src/api.rs, OwnerCommand, owner_loop.
use spark_runner.Prelude.{ℕ, Bool, false, ◌&&◌, List, [], ◌∷◌, Option, none, some, if◌then◌else◌}
use spark_runner.Prelude.Text.{Text}
use spark_runner.Session.{ApprovalDecision}
use spark_runner.Owner.{TurnRecord, ApprovalStatus, OwnerState, approved, denied, update_turn}
use spark_runner.Owner.Terminal.{awaits}
use spark_runner.Owner.Decide.{find_approval, owner_decide}
use spark_runner.Owner.Admit.{
  OwnerLib, Authority, approval_timeout, turn_deadline, controlling_sse_drop, shutdown,
  owner_create_thread, owner_create_turn, owner_subscribe, owner_finished, set_controller,
  not_ready,
}
use spark_runner.Owner.Interrupt.{PendingApproval, Answers, owner_register_pending, owner_interrupt}

-- A command, with what the world answers while it is handled; the commands that only read are left
-- out. `journal_open` tells whether `ensure_owner_journal` succeeds.
pub data Command (D : Type 0) : Type 0 where
  bootstrap : Bool → Bool → Bool → Command D
  create_thread : Text → Command D
  create_turn : Bool → Text → Command D
  subscribe : Text → ℕ → Bool → Command D
  decide : Text → Bool → (ApprovalDecision → Bool) → Command D
  interrupt_turn : Text → Authority → Answers → Command D
  controller_drop : Text → Answers → Command D
  pending_approval : Text → PendingApproval D → Command D
  approval_deadline : Text → Text → Answers → Command D
  deadline : Text → Answers → Command D
  finished : Text → Option Text → Command D
  shut_down : (Text → Answers) → Command D

-- The statuses that `approve` and `deny` send.
unfoldable pub verdict : Bool → ApprovalStatus
verdict approval = if approval then approved else denied

module _ {P : Type 0} where
  -- `turns.keys()`
  abbrev pub turn_ids : List (TurnRecord P) → List Text
  turn_ids [] = []
  turn_ids (t ∷ ts) = t.id ∷ turn_ids ts

  -- The test of the approval's deadline.
  unfoldable pub still_awaits : OwnerState P → Text → Text → Bool
  still_awaits s turn_id approval_id = elim (find_approval approval_id s.approvals) [
    | none ↦ false
    | some approval ↦ awaits turn_id approval
  ]

  abbrev pub set_ready : Bool → OwnerState P → OwnerState P
  set_ready ready s = record s { snapshot = record { ready = ready; quota_available = ready } }

module _ {P D : Type 0} (lib : OwnerLib P D) where
  open lib use {encoded_len, decided_payload}

  -- The loop of `Shutdown`.
  unfoldable pub interrupt_all : (Text → Answers) → List Text → OwnerState P → OwnerState P
  unfolding owner_interrupt
  interrupt_all answers [] s = s
  interrupt_all answers (id ∷ ids) s =
      interrupt_all answers ids (owner_interrupt lib s id shutdown (answers id)).1

  unfoldable pub step : OwnerState P → Command D → OwnerState P
  unfolding interrupt_all still_awaits verdict
  step s (bootstrap journal_open admitted recorded) =
      set_ready (journal_open && (admitted && recorded)) s
  step s (create_thread workspace_alias) = (owner_create_thread s workspace_alias).1
  step s (create_turn journal_open thread_id) =
      if journal_open then (owner_create_turn lib s thread_id).1 else not_ready s
  step s (subscribe id last_seen observer) = (owner_subscribe s id last_seen observer).1
  step s (decide id approval deliver) =
      (owner_decide encoded_len deliver decided_payload s id (verdict approval)).1
  step s (interrupt_turn turn_id authority answers) =
      (owner_interrupt lib s turn_id authority answers).1
  step s (controller_drop turn_id answers) =
      let s' = (owner_interrupt lib s turn_id controlling_sse_drop answers).1 in
      record s' { turns = update_turn turn_id (set_controller false) s'.turns }
  step s (pending_approval turn_id request) = (owner_register_pending lib s turn_id request).1
  step s (approval_deadline turn_id approval_id answers) =
      if still_awaits s turn_id approval_id
      then (owner_interrupt lib s turn_id approval_timeout answers).1
      else s
  step s (deadline turn_id answers) = (owner_interrupt lib s turn_id turn_deadline answers).1
  step s (finished turn_id result) = owner_finished lib s turn_id result
  step s (shut_down answers) = interrupt_all answers (turn_ids s.turns) s

  -- The loop, on the commands that are received. What follows a shutdown is dropped there; here it
  -- is handled too.
  unfoldable pub run : OwnerState P → List (Command D) → OwnerState P
  unfolding step
  run s [] = s
  run s (c ∷ cs) = run (step s c) cs
