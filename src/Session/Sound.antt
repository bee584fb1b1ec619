-- ===== src/Session/Sound.antt =====
-- The queue over a whole history of calls: src/state.rs, SessionState.
use spark_runner.Prelude.{
  ℕ, zero, suc, ◌+◌, ◌<◌, ◌^◌, ◌%◌, ◌≡◌, refl, inl, inr, List, [], ◌∷◌, ◌++◌, arith, length,
  length-append, drop, Bool-cases, ltb, next_u64,
}
use spark_runner.Session.{
  SessionState, InternalEvent, InternalEventKind, Call, max_internal_event_bytes,
  internal_event_bytes, evict, push_internal, emit, call, run, new,
}
use spark_runner.Session.Queue.{IsBounded, evict-Evicts, emit-IsBounded}
use spark_runner.Session.Keeps.{call_keeps, run_keeps}

-- The numbers are consecutive (modulo 2 ^ 64), and the next event takes the one after the last.
abbrev pub Consecutive : ℕ → List InternalEvent → Type 0
Consecutive next [] = Unit {0}
Consecutive next (e ∷ es) = ((e.seq + length (e ∷ es)) % 2 ^ 64 ≡ next) × Consecutive next es

Consecutive-drop :
    (n next : ℕ) (es : List InternalEvent) → Consecutive next es → Consecutive next (drop n es)
Consecutive-drop zero next es v = v
Consecutive-drop (suc n) next [] v = tt
Consecutive-drop (suc n) next (e ∷ es) v = Consecutive-drop n next es v.1

Consecutive-append :
    (next : ℕ) (es : List InternalEvent) (e : InternalEvent)
    → e.seq ≡ next
    → next < 2 ^ 64
    → Consecutive next es
    → Consecutive (next_u64 next) (es ++ e ∷ [])
Consecutive-append next [] e here small v = (rw here, tt)
Consecutive-append next (x ∷ es) e here small v =
    (omega (arith, length-append {0} es (e ∷ []), v.0), Consecutive-append next es e here small v.1)

-- What holds of the queue between two calls.
pub record IsSound (s : SessionState) : Type 0 where
  pub bounded : IsBounded s
  pub in_range : s.next_event_seq < 2 ^ 64
  pub numbered : Consecutive s.next_event_seq s.events

push_internal-numbered :
    (kind : InternalEventKind) (incoming : ℕ) (r : List InternalEvent × ℕ) (s : SessionState)
    → s.next_event_seq < 2 ^ 64
    → Consecutive s.next_event_seq r.0
    → let t = push_internal kind incoming r s in
      (t.next_event_seq < 2 ^ 64) × Consecutive t.next_event_seq t.events
unfolding push_internal
push_internal-numbered kind incoming (kept, bytes) s small v =
    elim (Bool-cases (ltb max_internal_event_bytes incoming)) [
      | inl large ↦ rw large (small, v)
      | inr fits ↦ rw fits (omega arith, Consecutive-append s.next_event_seq kept _ refl small v)
    ]

evict-Consecutive :
    (incoming : ℕ) (s : SessionState)
    → IsSound s
    → Consecutive s.next_event_seq (evict incoming s.events s.event_bytes).0
evict-Consecutive incoming s v =
    let (n, cut) = evict-Evicts incoming s.events in
    rw (v.bounded.exact, cut.kept) (Consecutive-drop n s.next_event_seq s.events v.numbered)

emit-IsSound : (kind : InternalEventKind) (s : SessionState) → IsSound s → IsSound (emit kind s)
unfolding emit
emit-IsSound kind s v =
    let incoming = internal_event_bytes kind in
    let numbers =
      push_internal-numbered kind incoming (evict incoming s.events s.event_bytes) s v.in_range
        (evict-Consecutive incoming s v) in
    record { bounded = emit-IsBounded kind s v.bounded; in_range = numbers.0; numbered = numbers.1 }

call-IsSound : (c : Call) (s : SessionState) → IsSound s → IsSound (call c s).1
call-IsSound =
    call_keeps IsSound emit-IsSound (λ s w v. same s _ refl refl refl v)
      (λ s t v. same s _ refl refl refl v) (λ s b v. same s _ refl refl refl v)
  where
    same :
        (s t : SessionState)
        → t.next_event_seq ≡ s.next_event_seq
        → t.events ≡ s.events
        → t.event_bytes ≡ s.event_bytes
        → IsSound s
        → IsSound t
    same s t next events bytes v = record {
      bounded = record {
        few = rw events v.bounded.few;
        exact = rw (events, bytes) v.bounded.exact;
        light = rw bytes v.bounded.light;
      };
      in_range = rw next v.in_range;
      numbered = rw (next, events) v.numbered;
    }

IsSound-new : IsSound new
unfolding new
IsSound-new = omega arith

-- After any history of calls from a new session, failed calls included, the queue holds at most 256
-- events of at most 16384 bytes, its byte counter is exact, and its events are numbered
-- consecutively up to the next number (modulo 2 ^ 64).
pub run-new-IsSound : (cs : List Call) → IsSound (run new cs)
run-new-IsSound cs = run_keeps IsSound call-IsSound new cs IsSound-new
