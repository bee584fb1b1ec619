-- ===== src/Session/Resume.antt =====
-- What resumes a turn that awaits an approval: src/state.rs, SessionState.
use spark_runner.Prelude.{
  ◌≡◌, ◌≢◌, ◌⊎◌, inl, inr, refl, sym, ◌∙◌, ap, subst, Bool, true, false, List, [], ◌∷◌, arith,
}
use spark_runner.Prelude.Text.{Text}
use spark_runner.Session.{
  SessionState, Call, WorkerState, TurnState, ApprovalDecision, ApprovalSource, worker_allowed,
  turn_allowed, decided_turn, call, run, new,
}
use spark_runner.Session.Fields.{Phase, phase}
use spark_runner.Session.Machine.{Move, machine, view, view-call}

-- The worker and the turn advance together, as long as decisions answer requests.
abbrev pub coupled : WorkerState → TurnState → Bool
coupled WorkerState.idle TurnState.idle = true
coupled WorkerState.idle _ = false
coupled WorkerState.thread_active TurnState.thread_started = true
coupled WorkerState.thread_active _ = false
coupled WorkerState.turn_active TurnState.idle = false
coupled WorkerState.turn_active TurnState.thread_started = false
coupled WorkerState.turn_active _ = true
coupled WorkerState.shutting_down _ = false
coupled WorkerState.stopped TurnState.idle = false
coupled WorkerState.stopped _ = true

-- A decision is delivered only while the turn awaits one, as the client does.
abbrev pub Answers : TurnState → Call → Type 0
Answers t (Call.approval_decided key method decision source) = t ≡ TurnState.awaiting_approval
Answers t _ = Unit {0}

abbrev pub Disciplined : SessionState → List Call → Type 0
Disciplined s [] = Unit {0}
Disciplined s (c ∷ cs) = Answers s.turn c × Disciplined (call c s).1 cs

abbrev IsCoupled : Phase → Type 0
IsCoupled p = coupled p.worker p.turn ≡ true

machine-Coupled :
    (c : Call) (p : Phase) → Answers p.turn c → IsCoupled p → IsCoupled (machine c p).1
unfolding machine worker_allowed turn_allowed decided_turn
machine-Coupled Call.poison_session p d v = v
machine-Coupled _ p d v = ground arith

run-Coupled :
    (s : SessionState) (cs : List Call)
    → Disciplined s cs
    → IsCoupled (phase s)
    → IsCoupled (phase (run s cs))
unfolding run
run-Coupled s [] d v = v
run-Coupled s (c ∷ cs) d v =
    run-Coupled (call c s).1 cs d.1 (
      subst (λ (m : Move). IsCoupled m.1) (sym (view-call c s)) (machine-Coupled c (phase s) d.0 v))

-- The only call of the machine that resumes a turn awaiting approval.
abbrev pub IsGrant : Call → Type 0
IsGrant (Call.approval_decided key method decision source) =
    (decision ≡ ApprovalDecision.allow) × (source ≢ ApprovalSource.model)
IsGrant _ = ⊥

machine-resumes :
    (c : Call) (p : Phase)
    → IsCoupled p
    → p.turn ≡ TurnState.awaiting_approval
    → (machine c p).1.turn ≡ TurnState.turn_started
    → IsGrant c
unfolding machine worker_allowed turn_allowed decided_turn
machine-resumes (Call.approval_decided key method decision source) p v e h =
    (ground arith, ground arith)
machine-resumes _ p v e h = ground arith

Coupled-new : IsCoupled (phase new)
unfolding new
Coupled-new = refl

-- In a history from a new session in which every decision answers a request, a turn that awaits
-- approval is resumed by one call only: an `Allow` whose source is not the model.
pub resumes_by_allow :
    (cs : List Call) (c : Call)
    → Disciplined new cs
    → (run new cs).turn ≡ TurnState.awaiting_approval
    → (call c (run new cs)).1.turn ≡ TurnState.turn_started
    → IsGrant c
resumes_by_allow cs c d waits resumed =
    machine-resumes c (phase (run new cs)) (run-Coupled new cs d Coupled-new) waits
      (ap (λ (m : Move). m.1.turn) (sym (view-call c (run new cs))) ∙ resumed)

abbrev pub owner_allows : Text → Text → Call
owner_allows key method =
    Call.approval_decided key method ApprovalDecision.allow ApprovalSource.owner

abbrev pub IsRefused : Call → SessionState → Type 0
IsRefused c s = view (call c s) ≡ (false, record (phase s) { poisoned = true })

-- The turn awaits an approval; or its thread has only been started; or neither.
abbrev pub AllowOutcome : Text → Text → SessionState → Type 0
AllowOutcome key method s =
    ((s.turn ≡ TurnState.awaiting_approval)
      × (view (call (owner_allows key method) s)
          ≡ (true, record (phase s) { turn = TurnState.turn_started })))
    ⊎ (((s.turn ≡ TurnState.thread_started)
          × (view (call (owner_allows key method) s)
              ≡ (true, record (phase s) { turn = TurnState.turn_started }))
          × ((view (call Call.turn_started (call (owner_allows key method) s).1)).0 ≡ false)
          × ((view (call Call.turn_started (call (owner_allows key method) s).1)).1.poisoned
              ≡ true))
        ⊎ ((s.turn ≢ TurnState.awaiting_approval)
            × (s.turn ≢ TurnState.thread_started)
            × IsRefused (owner_allows key method) s))

-- The start of a turn that has started already, whatever the worker does.
machine-started_again :
    (p : Phase)
    → p.turn ≡ TurnState.turn_started
    → ((machine Call.turn_started p).0 ≡ false) × ((machine Call.turn_started p).1.poisoned ≡ true)
unfolding machine worker_allowed turn_allowed
machine-started_again p e = ground arith

allow_refused :
    (key method : Text) (s : SessionState)
    → s.turn ≢ TurnState.awaiting_approval
    → s.turn ≢ TurnState.thread_started
    → turn_allowed s.turn TurnState.turn_started ≡ false
    → AllowOutcome key method s
unfolding machine decided_turn
allow_refused key method s p q h =
    inr (inr (p, q, view-call (owner_allows key method) s ∙ (rw h refl)))

allow_accepted :
    (key method : Text) (s : SessionState)
    → turn_allowed s.turn TurnState.turn_started ≡ true
    → view (call (owner_allows key method) s)
      ≡ (true, record (phase s) { turn = TurnState.turn_started })
unfolding machine decided_turn
allow_accepted key method s h = view-call (owner_allows key method) s ∙ (rw h refl)

allow_at :
    (key method : Text) (s : SessionState) (t : TurnState) → s.turn ≡ t → AllowOutcome key method s
unfolding turn_allowed
allow_at key method s TurnState.awaiting_approval e =
    inl (e, allow_accepted key method s (rw e refl))
allow_at key method s TurnState.thread_started e =
    let accept = allow_accepted key method s (rw e refl) in
    let r = (call (owner_allows key method) s).1 in
    let again = machine-started_again (phase r) (ap (λ (m : Move). m.1.turn) accept) in
    let seen = view-call Call.turn_started r in
    inr (
      inl (
        e,
        accept,
        ap (λ (m : Move). m.0) seen ∙ again.0,
        ap (λ (m : Move). m.1.poisoned) seen ∙ again.1,
      ))
allow_at key method s TurnState.idle e = allow_refused key method s (λ h. cc) (λ h. cc) (rw e refl)
allow_at key method s TurnState.turn_started e =
    allow_refused key method s (λ h. cc) (λ h. cc) (rw e refl)
allow_at key method s TurnState.interrupted e =
    allow_refused key method s (λ h. cc) (λ h. cc) (rw e refl)
allow_at key method s TurnState.completed e =
    allow_refused key method s (λ h. cc) (λ h. cc) (rw e refl)
allow_at key method s TurnState.failed e =
    allow_refused key method s (λ h. cc) (λ h. cc) (rw e refl)

-- What an owner's `Allow` does to any session. Where the turn awaits an approval it is accepted and
-- the turn is started again. Where the thread has been started and the turn has not, it is accepted
-- too, though no request is pending, and then the call that reports the start of the turn is refused
-- and poisons the session. Anywhere else the `Allow` itself is refused and poisons the session.
pub stray_allow : (key method : Text) (s : SessionState) → AllowOutcome key method s
stray_allow key method s = allow_at key method s s.turn refl
