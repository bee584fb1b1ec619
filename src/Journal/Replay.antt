-- ===== src/Journal/Replay.antt =====
-- What the projection says of one execution or approval: src/journal.rs, project_recovery.
use spark_runner.Prelude.{
  ◌≡◌, refl, Bool, true, false, ◌&&◌, ◌||◌, List, [], ◌∷◌, map, Option, none, some, arith,
  if◌then◌else◌,
}
use spark_runner.Prelude.Text.{Text, text_eq}
use spark_runner.Prelude.Maps.{lookup, has, lookup-insert, lookup-or_insert, has-add, has-remove}
use spark_runner.Journal.{
  JournalEvent, execution_started, execution_completed, approval_requested, approval_decided,
  recovery_execution_unknown, recovery_approval_denied,
}
use spark_runner.Journal.Recovery.{
  Projection, ExecutionRecoveryState, unknown_after_restart, ApprovalRecoveryState,
  denied_on_restart, execution_state, approval_state, project_event, project_from, project_recovery,
  or_state, nothing,
}

-- Which events begin and which settle an execution or an approval.
abbrev pub starts_execution : Text → JournalEvent → Bool
starts_execution k (execution_started id) = text_eq id k
starts_execution k _ = false

abbrev pub ends_execution : Text → JournalEvent → Option ExecutionRecoveryState
ends_execution k (execution_completed id status) =
    if text_eq id k then some (execution_state status) else none
ends_execution k (recovery_execution_unknown id) =
    if text_eq id k then some unknown_after_restart else none
ends_execution k _ = none

abbrev pub starts_approval : Text → JournalEvent → Bool
starts_approval k (approval_requested id key method) = text_eq key k
starts_approval k _ = false

abbrev pub ends_approval : Text → JournalEvent → Option ApprovalRecoveryState
ends_approval k (approval_decided id key method decision) =
    if text_eq key k then some (approval_state decision) else none
ends_approval k (recovery_approval_denied id key method) =
    if text_eq key k then some denied_on_restart else none
ends_approval k _ = none

-- What a log says of one key, read without a map: `starts` and `ends` are of that key.
module _ {S : Type 0} (starts : JournalEvent → Bool) (ends : JournalEvent → Option S) where
  -- The settling event that stands last.
  unfoldable pub last_end : List JournalEvent → Option S
  last_end [] = none
  last_end (e ∷ es) = elim (last_end es) [ some s ↦ some s | none ↦ ends e ]

  unfoldable pub any_start : List JournalEvent → Bool
  any_start [] = false
  any_start (e ∷ es) = starts e || any_start es

  -- A start that no settling event follows.
  unfoldable pub left_open : List JournalEvent → Bool
  unfolding last_end
  left_open [] = false
  left_open (e ∷ es) =
      left_open es || (starts e && elim (last_end (e ∷ es)) [ none ↦ true | some s ↦ false ])

  -- What one event does to a key's entry, and a log to it.
  abbrev pub entry_after : Bool → Option S → Option (Option S) → Option (Option S)
  entry_after start (some s) old = some (some s)
  entry_after start none (some old) = some old
  entry_after start none none = if start then some none else none

  abbrev pub open_after : Bool → Option S → Bool → Bool
  open_after start (some s) old = false
  open_after start none old = start || old

  module _ (entries : Projection → Option (Option S)) (waits : Projection → Bool)
      (entries-project_event : (p : Projection) (e : JournalEvent)
        → entries (project_event p e) ≡ entry_after (starts e) (ends e) (entries p))
      (waits-project_event : (p : Projection) (e : JournalEvent)
        → waits (project_event p e) ≡ open_after (starts e) (ends e) (waits p)) where
    pub entries-project_from :
        (p : Projection) (es : List JournalEvent)
        → entries (project_from p es) ≡ entry_after (any_start es) (last_end es) (entries p)
    unfolding project_from last_end any_start
    entries-project_from p [] = ground arith
    entries-project_from p (e ∷ es) =
        ground (arith, entries-project_from (project_event p e) es, entries-project_event p e)

    pub waits-project_from :
        (p : Projection) (es : List JournalEvent)
        → waits (project_from p es)
          ≡ (left_open es || elim (last_end es) [ none ↦ waits p | some s ↦ false ])
    unfolding project_from left_open last_end
    waits-project_from p [] = refl
    waits-project_from p (e ∷ es) =
        ground (arith, waits-project_from (project_event p e) es, waits-project_event p e)

-- The loop's body, at one key.
lookup-project_event_execution :
    (k : Text) (p : Projection) (e : JournalEvent)
    → lookup k (project_event p e).executions
      ≡ entry_after
          (starts_execution k)
          (ends_execution k)
          (starts_execution k e)
          (ends_execution k e)
          (lookup k p.executions)
unfolding project_event
lookup-project_event_execution k p (execution_started id) =
    ground (arith, lookup-or_insert id k none p.executions)
lookup-project_event_execution k p (execution_completed id status) =
    ground (arith, lookup-insert id k (some (execution_state status)) p.executions)
lookup-project_event_execution k p (recovery_execution_unknown id) =
    ground (arith, lookup-insert id k (some unknown_after_restart) p.executions)
lookup-project_event_execution k p _ = ground arith

waits-project_event_execution :
    (k : Text) (p : Projection) (e : JournalEvent)
    → has k (project_event p e).unresolved_executions
      ≡ open_after
          (starts_execution k)
          (ends_execution k)
          (starts_execution k e)
          (ends_execution k e)
          (has k p.unresolved_executions)
unfolding project_event
waits-project_event_execution k p (execution_started id) =
    ground (arith, has-add id k p.unresolved_executions)
waits-project_event_execution k p (execution_completed id status) =
    ground (arith, has-remove id k p.unresolved_executions)
waits-project_event_execution k p (recovery_execution_unknown id) =
    ground (arith, has-remove id k p.unresolved_executions)
waits-project_event_execution k p _ = ground arith

lookup-project_event_approval :
    (k : Text) (p : Projection) (e : JournalEvent)
    → lookup k (project_event p e).approvals
      ≡ entry_after
          (starts_approval k)
          (ends_approval k)
          (starts_approval k e)
          (ends_approval k e)
          (lookup k p.approvals)
unfolding project_event
lookup-project_event_approval k p (approval_requested id key method) =
    ground (arith, lookup-or_insert key k none p.approvals)
lookup-project_event_approval k p (approval_decided id key method decision) =
    ground (arith, lookup-insert key k (some (approval_state decision)) p.approvals)
lookup-project_event_approval k p (recovery_approval_denied id key method) =
    ground (arith, lookup-insert key k (some denied_on_restart) p.approvals)
lookup-project_event_approval k p _ = ground arith

waits-project_event_approval :
    (k : Text) (p : Projection) (e : JournalEvent)
    → has k (project_event p e).unresolved_approvals
      ≡ open_after
          (starts_approval k)
          (ends_approval k)
          (starts_approval k e)
          (ends_approval k e)
          (has k p.unresolved_approvals)
unfolding project_event
waits-project_event_approval k p (approval_requested id key method) =
    ground (arith, has-add key k p.unresolved_approvals)
waits-project_event_approval k p (approval_decided id key method decision) =
    ground (arith, has-remove key k p.unresolved_approvals)
waits-project_event_approval k p (recovery_approval_denied id key method) =
    ground (arith, has-remove key k p.unresolved_approvals)
waits-project_event_approval k p _ = ground arith

-- `into_iter().map(...).collect()` at one key.
lookup-settle {ℓ} :
    {S : Type ℓ} (d : S) (k : Text) (m : List (Text × Option S))
    → lookup k (map (λ (id, state). (id, or_state d state)) m)
      ≡ elim (lookup k m) [ none ↦ none | some old ↦ some (or_state d old) ]
unfolding lookup
lookup-settle d k [] = refl
lookup-settle d k ((j, v) ∷ m) = ground (arith, lookup-settle d k m)

-- The entry of a key, from what the log says of it alone.
abbrev pub settled : {S : Type 0} → S → Bool → Option S → Option S
settled d start (some s) = some s
settled d start none = if start then some d else none

-- An execution is in the projection exactly when the log starts or settles it. It has the state of
-- the settling event that stands last, and is unknown after the restart where none settles it. It
-- is unresolved exactly when a start of it stands behind every event that settles it.
pub project_recovery-executions :
    (k : Text) (es : List JournalEvent)
    → let starts = starts_execution k in
      let ends = ends_execution k in
      (lookup k (project_recovery es).executions
        ≡ settled unknown_after_restart (any_start starts ends es) (last_end starts ends es))
      × (has k (project_recovery es).unresolved_executions ≡ left_open starts ends es)
unfolding project_recovery lookup has
project_recovery-executions k es =
    let starts = starts_execution k in
    let ends = ends_execution k in
    (
      ground (
        arith,
        lookup-settle unknown_after_restart k (project_from nothing es).executions,
        entries-project_from starts ends (λ p. lookup k p.executions)
            (λ p. has k p.unresolved_executions) (lookup-project_event_execution k)
            (waits-project_event_execution k) nothing es,
      ),
      ground (
        arith,
        waits-project_from starts ends (λ p. lookup k p.executions)
            (λ p. has k p.unresolved_executions) (lookup-project_event_execution k)
            (waits-project_event_execution k) nothing es,
      ),
    )

-- The same of approvals, which are denied on restart where the log requests and never decides them.
pub project_recovery-approvals :
    (k : Text) (es : List JournalEvent)
    → let starts = starts_approval k in
      let ends = ends_approval k in
      (lookup k (project_recovery es).approvals
        ≡ settled denied_on_restart (any_start starts ends es) (last_end starts ends es))
      × (has k (project_recovery es).unresolved_approvals ≡ left_open starts ends es)
unfolding project_recovery lookup has
project_recovery-approvals k es =
    let starts = starts_approval k in
    let ends = ends_approval k in
    (
      ground (
        arith,
        lookup-settle denied_on_restart k (project_from nothing es).approvals,
        entries-project_from starts ends (λ p. lookup k p.approvals)
            (λ p. has k p.unresolved_approvals) (lookup-project_event_approval k)
            (waits-project_event_approval k) nothing es,
      ),
      ground (
        arith,
        waits-project_from starts ends (λ p. lookup k p.approvals)
            (λ p. has k p.unresolved_approvals) (lookup-project_event_approval k)
            (waits-project_event_approval k) nothing es,
      ),
    )
