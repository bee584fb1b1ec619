-- ===== src/Session/Queue.antt =====
-- The bounded queue of internal events: src/state.rs, SessionState::emit.
use spark_runner.Prelude.{
  ℕ, zero, suc, ◌+◌, ◌-◌, ◌≤◌, ◌<◌, ◌≡◌, refl, ◌⊎◌, inl, inr, true, false, List, [], ◌∷◌, ◌++◌,
  arith, length, length-append, length-drop, drop, Bool-cases,
}
use spark_runner.Session.{
  SessionState, InternalEvent, InternalEventKind, max_internal_events, max_internal_event_bytes,
  internal_event_bytes, over_cap, evict, push_internal, emit,
}

-- The bytes that the retained events stand for.
abbrev pub total_bytes : List InternalEvent → ℕ
total_bytes [] = 0
total_bytes (e ∷ es) = internal_event_bytes e.kind + total_bytes es

total_bytes-append :
    (xs ys : List InternalEvent) → total_bytes (xs ++ ys) ≡ total_bytes xs + total_bytes ys
total_bytes-append [] ys = omega arith
total_bytes-append (x ∷ xs) ys = omega (arith, total_bytes-append xs ys)

-- `n` is how many of the oldest events go: the least number after which the incoming event fits.
pub record Evicts (incoming : ℕ) (es : List InternalEvent) (r : List InternalEvent × ℕ) (n : ℕ)
    : Type 0 where
  pub kept : r.0 ≡ drop n es
  pub counted : r.1 ≡ total_bytes (drop n es)
  pub in_queue : n ≤ length es
  pub needed : (m : ℕ) → m < n → over_cap incoming (drop m es) (total_bytes (drop m es)) ≡ true
  pub enough : (drop n es ≡ []) ⊎ (over_cap incoming (drop n es) (total_bytes (drop n es)) ≡ false)

-- The loop drops the shortest prefix whose removal makes the incoming event fit, or everything,
-- and its running byte count is the sum of what is left.
pub evict-Evicts :
    (incoming : ℕ) (es : List InternalEvent)
    → (n : ℕ) × Evicts incoming es (evict incoming es (total_bytes es)) n
unfolding evict
evict-Evicts incoming [] = (
  0,
  record {
    kept = refl;
    counted = refl;
    in_queue = omega arith;
    needed = λ m h. elim h [ ];
    enough = inl refl;
  },
)
evict-Evicts incoming (e ∷ es) = elim (Bool-cases (over_cap incoming (e ∷ es) full)) [
  | inl over ↦
      let (n, v) = evict-Evicts incoming es in
      (
        suc n,
        record {
          kept = rw (over, less) v.kept;
          counted = rw (over, less) v.counted;
          in_queue = omega (arith, v.in_queue);
          needed = elim [ zero ↦ λ _. over | suc m ↦ λ h. v.needed m (omega arith) ];
          enough = v.enough;
        },
      )
  | inr fits ↦ (
    0,
    record {
      kept = rw fits;
      counted = rw fits;
      in_queue = omega arith;
      needed = λ m h. elim h [ ];
      enough = inr fits;
    },
  )
]
  where
    full : ℕ
    full = total_bytes (e ∷ es)

    less : full - internal_event_bytes e.kind ≡ total_bytes es
    less = omega arith

-- The retained events stay within both caps, and the byte counter is exact.
pub record IsBounded (s : SessionState) : Type 0 where
  pub few : length s.events ≤ max_internal_events
  pub exact : s.event_bytes ≡ total_bytes s.events
  pub light : s.event_bytes ≤ max_internal_event_bytes

total_bytes-drop : (n : ℕ) (es : List InternalEvent) → total_bytes (drop n es) ≤ total_bytes es
total_bytes-drop zero es = omega arith
total_bytes-drop (suc n) [] = omega arith
total_bytes-drop (suc n) (e ∷ es) = omega (arith, total_bytes-drop n es)

-- What the loop leaves has room for an incoming event that is not larger than the cap.
evict_room :
    (incoming : ℕ) (es : List InternalEvent)
    → length es ≤ max_internal_events
    → total_bytes es ≤ max_internal_event_bytes
    → let r = evict incoming es (total_bytes es) in
      (r.1 ≡ total_bytes r.0)
      × (length r.0 ≤ max_internal_events)
      × (r.1 ≤ max_internal_event_bytes)
      × (incoming ≤ max_internal_event_bytes
          → (length r.0 < max_internal_events) × (r.1 + incoming ≤ max_internal_event_bytes))
evict_room incoming es few light =
    let (n, v) = evict-Evicts incoming es in
    let shorter = total_bytes-drop n es in
    rw (v.kept, v.counted)
      (
        refl,
        omega (arith, length-drop {0} n es),
        omega (arith, shorter),
        λ fits. elim v.enough [
          | inl gone ↦ rw gone (omega arith, omega arith)
          | inr room ↦ ground arith
        ],
      )

push_internal-IsBounded :
    (kind : InternalEventKind) (r : List InternalEvent × ℕ) (s : SessionState)
    → r.1 ≡ total_bytes r.0
    → length r.0 ≤ max_internal_events
    → r.1 ≤ max_internal_event_bytes
    → (internal_event_bytes kind ≤ max_internal_event_bytes
        → (length r.0 < max_internal_events)
          × (r.1 + internal_event_bytes kind ≤ max_internal_event_bytes))
    → IsBounded (push_internal kind (internal_event_bytes kind) r s)
unfolding push_internal
push_internal-IsBounded kind (kept, bytes) s exact few light room = ground (
  arith,
  length-append {0} kept (record { seq = s.next_event_seq; kind = kind } ∷ []),
  total_bytes-append kept (record { seq = s.next_event_seq; kind = kind } ∷ []),
)

pub emit-IsBounded :
    (kind : InternalEventKind) (s : SessionState) → IsBounded s → IsBounded (emit kind s)
unfolding emit
emit-IsBounded kind s v =
    let incoming = internal_event_bytes kind in
    let r = evict incoming s.events (total_bytes s.events) in
    let room = evict_room incoming s.events v.few (omega arith) in
    rw v.exact (push_internal-IsBounded kind r s room.0 room.1 room.2 room.3)
