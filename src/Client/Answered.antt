-- ===== src/Client/Answered.antt =====
-- What a server request can be answered: src/client.rs, handle_server_request_parts.
use spark_runner.Prelude.{
  ◌≡◌, ◌⊎◌, inl, inr, refl, ap, sym, subst, ◌∙◌, Bool, true, false, List, [], ◌∷◌, ◌++◌, none, some,
  if◌then◌else◌, Bool-cases,
}
use spark_runner.Prelude.Exec.{Result, ok, err, and_then}
use spark_runner.Prelude.Text.{Text}
use spark_runner.Session.{ApprovalDecision}
use spark_runner.Journal.{JournalEvent, approval_decided}
use spark_runner.Client.Handle.{
  ClientError, Written, ApprovalPolicy, deny_all, allow_for_tests, external, Live, World, Step,
  send, acknowledge, append_external_approval_decision, terminal_decision,
}

-- The state after a step writes at most one message more than before, of which P holds with the
-- journal as it is then.
abbrev pub WritesOnce : (Written → List JournalEvent → Type 0) → List Written → Live → Type 0
WritesOnce P before l =
    (l.sent ≡ before) ⊎ ((w : Written) × (l.sent ≡ before ++ (w ∷ [])) × P w l.recorded)

abbrev pub IsSilent : {A : Type 0} → Step A → Type 0
IsSilent {A} m = (l : Live) → ((m l).1.sent ≡ l.sent) × ((m l).1.recorded ≡ l.recorded)

module _ (P : Written → List JournalEvent → Type 0) (before : List Written) where
  pub silent-WritesOnce :
      (l m : Live)
      → m.sent ≡ l.sent
      → m.recorded ≡ l.recorded
      → WritesOnce P before l
      → WritesOnce P before m
  silent-WritesOnce l m same kept (inl e) = inl (same ∙ e)
  silent-WritesOnce l m same kept (inr (w, e, p)) = inr (w, same ∙ e, subst (P w) (sym kept) p)

  -- A step that writes nothing, then one that may write.
  pub unsent-then :
      {A B : Type 0} (r : Result ClientError A × Live) (f : A → Step B) (Q : A → Live → Type 0)
      → r.1.sent ≡ before
      → ((a : A) → r.0 ≡ ok a → Q a r.1)
      → ((a : A) (l : Live) → l.sent ≡ before → Q a l → WritesOnce P before (f a l).1)
      → WritesOnce P before (and_then r f).1
  unsent-then (ok a, l) f Q e q after = after a l e (q a refl)
  unsent-then (err x, l) f Q e q after = inl e

  -- A step that may write, then one that does not.
  pub then-silent :
      {A B : Type 0} (r : Result ClientError A × Live) (f : A → Step B)
      → WritesOnce P before r.1
      → ((a : A) → IsSilent (f a))
      → WritesOnce P before (and_then r f).1
  then-silent (ok a, l) f once after =
      silent-WritesOnce l (f a l).1 (after a l).0 (after a l).1 once
  then-silent (err x, l) f once after = once

  pub either-WritesOnce :
      {A : Type 0} (b : Bool) (m n : Step A) (l : Live)
      → WritesOnce P before (m l).1
      → WritesOnce P before (n l).1
      → WritesOnce P before ((if b then m else n) l).1
  either-WritesOnce true m n l p q = p
  either-WritesOnce false m n l p q = q

  pub send-WritesOnce :
      (b : Bool) (w : Written) (l : Live)
      → l.sent ≡ before
      → P w l.recorded
      → WritesOnce P before (send b w l).1
  send-WritesOnce b w l e p = inr (w, ap (λ sent. sent ++ (w ∷ [])) e, p)

pub acknowledge-silent :
    (waiting b : Bool) (l : Live)
    → ((acknowledge waiting b l).sent ≡ l.sent) × ((acknowledge waiting b l).recorded ≡ l.recorded)
acknowledge-silent true b l = (refl, refl)
acknowledge-silent false b l = (refl, refl)

-- The decision on a request is in the journal, where the policy keeps one.
abbrev pub IsRecorded : ApprovalPolicy → Text → Text → ApprovalDecision → List JournalEvent → Type 0
IsRecorded deny_all key method d recorded = Unit
IsRecorded allow_for_tests key method d recorded = Unit
IsRecorded (external none) key method d recorded = Unit
IsRecorded (external (some id)) key method d recorded =
    (earlier : List JournalEvent) × (recorded
      ≡ earlier ++ (approval_decided id key method (terminal_decision d) ∷ []))

pub append-IsRecorded :
    (w : World) (policy : ApprovalPolicy) (key method : Text) (d : ApprovalDecision) (l : Live)
    → ((append_external_approval_decision w policy key method d l).1.sent ≡ l.sent)
      × ((u : Unit {0})
          → (append_external_approval_decision w policy key method d l).0 ≡ ok u
          → IsRecorded policy key method d
              (append_external_approval_decision w policy key method d l).1.recorded)
unfolding append_external_approval_decision
append-IsRecorded w deny_all key method d l = (refl, λ u h. tt)
append-IsRecorded w allow_for_tests key method d l = (refl, λ u h. tt)
append-IsRecorded w (external none) key method d l = (refl, λ u h. tt)
append-IsRecorded w (external (some id)) key method d l = elim (Bool-cases w.decision_recorded) [
  | inl e ↦ rw e (refl, λ u h. (l.recorded, refl))
  | inr e ↦ rw e (refl, λ u h. cc)
]
