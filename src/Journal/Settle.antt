-- ===== src/Journal/Settle.antt =====
-- A startup settles what the last run left open: src/orchestrator.rs, persist_recovery, over
-- src/journal.rs, project_recovery.
use spark_runner.Prelude.{
  ◌≡◌, refl, Bool, true, false, ◌&&◌, ◌||◌, List, [], ◌∷◌, ◌++◌, map, Option, none, some, arith,
  if◌then◌else◌,
}
use spark_runner.Prelude.Text.{Text, codes, text_eq, text_eq_refl}
use spark_runner.Prelude.Maps.{lookup, has}
use spark_runner.Journal.{JournalEvent, recovery_execution_unknown, recovery_approval_denied}
use spark_runner.Journal.Recovery.{
  unknown_after_restart, denied_on_restart, project_recovery, recovery_events,
}
use spark_runner.Journal.Replay.{
  starts_execution, ends_execution, starts_approval, ends_approval, last_end, any_start, left_open,
  project_recovery-executions, project_recovery-approvals,
}

module _ {S : Type 0} (starts : JournalEvent → Bool) (ends : JournalEvent → Option S) where
  last_end-append :
      (xs ys : List JournalEvent)
      → last_end starts ends (xs ++ ys)
        ≡ elim (last_end starts ends ys) [ some s ↦ some s | none ↦ last_end starts ends xs ]
  unfolding last_end
  last_end-append [] ys = ground arith
  last_end-append (x ∷ xs) ys = ground (arith, last_end-append xs ys)

  left_open-append :
      (xs ys : List JournalEvent)
      → left_open starts ends (xs ++ ys) ≡ (
          left_open starts ends ys
          || (left_open starts ends xs
              && elim (last_end starts ends ys) [ none ↦ true | some s ↦ false ]))
  unfolding left_open last_end
  left_open-append [] ys = ground arith
  left_open-append (x ∷ xs) ys = ground (arith, left_open-append xs ys, last_end-append xs ys)

  -- Events that start nothing leave nothing open.
  left_open-settling :
      (f : Text → JournalEvent) (ks : List Text)
      → ((k : Text) → starts (f k) ≡ false)
      → left_open starts ends (map f ks) ≡ false
  unfolding left_open
  left_open-settling f [] quiet = refl
  left_open-settling f (k ∷ ks) quiet = ground (arith, left_open-settling f ks quiet, quiet k)

  any_start-append :
      (xs ys : List JournalEvent)
      → any_start starts ends (xs ++ ys) ≡ (any_start starts ends xs || any_start starts ends ys)
  unfolding any_start
  any_start-append [] ys = refl
  any_start-append (x ∷ xs) ys = ground (arith, any_start-append xs ys)

  any_start-settling :
      (f : Text → JournalEvent) (ks : List Text)
      → ((k : Text) → starts (f k) ≡ false)
      → any_start starts ends (map f ks) ≡ false
  unfolding any_start
  any_start-settling f [] quiet = refl
  any_start-settling f (k ∷ ks) quiet = ground (arith, any_start-settling f ks quiet, quiet k)

  last_end-other :
      (f : Text → JournalEvent) (ks : List Text)
      → ((k : Text) → ends (f k) ≡ none)
      → last_end starts ends (map f ks) ≡ none
  unfolding last_end
  last_end-other f [] quiet = refl
  last_end-other f (k ∷ ks) quiet = ground (arith, last_end-other f ks quiet, quiet k)

  last_end-settling :
      (f : Text → JournalEvent) (s : S) (k : Text) (ks : List Text)
      → ((j : Text) → ends (f j) ≡ (if text_eq j k then some s else none))
      → last_end starts ends (map f ks) ≡ (if has k ks then some s else none)
  unfolding last_end has
  last_end-settling f s k [] settles = refl
  last_end-settling f s k (j ∷ ks) settles =
      ground (arith, last_end-settling f s k ks settles, settles j)

no_member : (s : List Text) → ((k : Text) → has k s ≡ false) → s ≡ []
unfolding has
no_member [] h = refl
no_member (k ∷ s) h = ground (arith, h k, text_eq_refl k)

abbrev deny : Text → JournalEvent
deny key = recovery_approval_denied (codes "recovery") key (codes "unknown")

-- The log after a startup.
abbrev pub restarted : List JournalEvent → List JournalEvent
restarted es = es ++ recovery_events (project_recovery es)

settled_execution :
    (k : Text) (es : List JournalEvent)
    → has k (project_recovery (restarted es)).unresolved_executions ≡ false
unfolding recovery_events
settled_execution k es =
    let p = project_recovery es in
    let starts = starts_execution k in
    let ends = ends_execution k in
    let ids = map recovery_execution_unknown p.unresolved_executions in
    let keys = map deny p.unresolved_approvals in
    ground (
      arith,
      (project_recovery-executions k (restarted es)).1,
      (project_recovery-executions k es).1,
      left_open-append starts ends es (ids ++ keys),
      left_open-append starts ends ids keys,
      last_end-append starts ends ids keys,
      left_open-settling starts ends recovery_execution_unknown p.unresolved_executions (λ _. refl),
      left_open-settling starts ends deny p.unresolved_approvals (λ _. refl),
      last_end-other starts ends deny p.unresolved_approvals (λ _. refl),
      last_end-settling starts ends recovery_execution_unknown unknown_after_restart k
          p.unresolved_executions (λ _. refl),
    )

settled_approval :
    (k : Text) (es : List JournalEvent)
    → has k (project_recovery (restarted es)).unresolved_approvals ≡ false
unfolding recovery_events
settled_approval k es =
    let p = project_recovery es in
    let starts = starts_approval k in
    let ends = ends_approval k in
    let ids = map recovery_execution_unknown p.unresolved_executions in
    let keys = map deny p.unresolved_approvals in
    ground (
      arith,
      (project_recovery-approvals k (restarted es)).1,
      (project_recovery-approvals k es).1,
      left_open-append starts ends es (ids ++ keys),
      left_open-append starts ends ids keys,
      last_end-append starts ends ids keys,
      left_open-settling starts ends recovery_execution_unknown p.unresolved_executions (λ _. refl),
      left_open-settling starts ends deny p.unresolved_approvals (λ _. refl),
      last_end-other starts ends recovery_execution_unknown p.unresolved_executions (λ _. refl),
      last_end-settling starts ends deny denied_on_restart k p.unresolved_approvals (λ _. refl),
    )

-- Recovery is idempotent: over the log with the events that one startup appends, a second startup
-- finds nothing unresolved, and so appends nothing.
pub restarted_settled :
    (es : List JournalEvent)
    → ((project_recovery (restarted es)).unresolved_executions ≡ [])
      × ((project_recovery (restarted es)).unresolved_approvals ≡ [])
      × (recovery_events (project_recovery (restarted es)) ≡ [])
unfolding recovery_events
restarted_settled es =
    let executions = no_member _ (λ k. settled_execution k es) in
    let approvals = no_member _ (λ k. settled_approval k es) in
    (executions, approvals, rw (executions, approvals) refl)

last_end-restarted_execution :
    (k : Text) (es : List JournalEvent)
    → last_end (starts_execution k) (ends_execution k) (restarted es) ≡ (
        if has k (project_recovery es).unresolved_executions
        then some unknown_after_restart
        else last_end (starts_execution k) (ends_execution k) es)
unfolding recovery_events
last_end-restarted_execution k es =
    let p = project_recovery es in
    let starts = starts_execution k in
    let ends = ends_execution k in
    let ids = map recovery_execution_unknown p.unresolved_executions in
    let keys = map deny p.unresolved_approvals in
    ground (
      arith,
      last_end-append starts ends es (ids ++ keys),
      last_end-append starts ends ids keys,
      last_end-other starts ends deny p.unresolved_approvals (λ _. refl),
      last_end-settling starts ends recovery_execution_unknown unknown_after_restart k
          p.unresolved_executions (λ _. refl),
    )

any_start-restarted_execution :
    (k : Text) (es : List JournalEvent)
    → any_start (starts_execution k) (ends_execution k) (restarted es)
      ≡ any_start (starts_execution k) (ends_execution k) es
unfolding recovery_events
any_start-restarted_execution k es =
    let p = project_recovery es in
    let starts = starts_execution k in
    let ends = ends_execution k in
    let ids = map recovery_execution_unknown p.unresolved_executions in
    let keys = map deny p.unresolved_approvals in
    ground (
      arith,
      any_start-append starts ends es (ids ++ keys),
      any_start-append starts ends ids keys,
      any_start-settling starts ends recovery_execution_unknown p.unresolved_executions (λ _. refl),
      any_start-settling starts ends deny p.unresolved_approvals (λ _. refl),
    )

-- A startup changes the verdict on no execution that is resolved, and the verdict on each
-- unresolved one becomes unknown, also where an earlier run of it had been settled.
pub restarted-executions :
    (k : Text) (es : List JournalEvent)
    → lookup k (project_recovery (restarted es)).executions ≡ (
        if has k (project_recovery es).unresolved_executions
        then some unknown_after_restart
        else lookup k (project_recovery es).executions)
restarted-executions k es = ground (
  arith,
  (project_recovery-executions k (restarted es)).0,
  (project_recovery-executions k es).0,
  last_end-restarted_execution k es,
  any_start-restarted_execution k es,
)
