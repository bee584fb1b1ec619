-- ===== src/Client/Seen.antt =====
-- The detector of duplicate approvals: src/client.rs, SeenApprovals.
use spark_runner.Prelude.{
  ℕ, ◌+◌, ◌*◌, ◌≤◌, ◌≡◌, refl, inl, inr, Bool, true, false, ◌||◌, List, [], ◌∷◌, arith, ltb, leb,
  if◌then◌else◌, length, saturating_add, Bool-cases,
}
use spark_runner.Prelude.Exec.{Result, ok, err}
use spark_runner.Prelude.Text.{Text, byte_len, text_eq, text_eq_refl}

abbrev pub max_seen_approvals : ℕ
max_seen_approvals = 256

abbrev pub max_seen_approval_bytes : ℕ
max_seen_approval_bytes = 16 * 1024

-- The hash set is the list of its keys, the newest first.
pub record SeenApprovals : Type 0 where
  pub keys : List Text
  pub bytes : ℕ

-- `SeenApprovals::default`
abbrev pub nothing_seen : SeenApprovals
nothing_seen = record { keys = []; bytes = 0 }

pub data SeenError : Type 0 where
  session_poisoned : SeenError

unfoldable pub seen : Text → List Text → Bool
seen key [] = false
seen key (k ∷ ks) = text_eq key k || seen key ks

abbrev pub is_full : Text → SeenApprovals → Bool
is_full key s =
    leb max_seen_approvals (length s.keys)
    || ltb max_seen_approval_bytes (saturating_add s.bytes (byte_len key))

unfoldable pub insert : SeenApprovals → Text → Result SeenError Bool × SeenApprovals
unfolding seen byte_len
insert s key =
    if seen key s.keys
    then (ok false, s)
    else if is_full key s
    then (err session_poisoned, s)
    else (ok true, record { keys = key ∷ s.keys; bytes = saturating_add s.bytes (byte_len key) })

-- A stream of keys, to its end: the callers stop at an error, which changes nothing.
unfoldable pub insert_all : SeenApprovals → List Text → SeenApprovals
unfolding insert
insert_all s [] = s
insert_all s (key ∷ rest) = insert_all (insert s key).1 rest

abbrev total : List Text → ℕ
total [] = 0
total (k ∷ ks) = byte_len k + total ks

abbrev AreDistinct : List Text → Type 0
AreDistinct [] = Unit
AreDistinct (k ∷ ks) = (seen k ks ≡ false) × AreDistinct ks

-- No key is held twice, the bytes are those of the keys, and both are bounded.
abbrev pub IsBounded : SeenApprovals → Type 0
IsBounded s =
    AreDistinct s.keys
    × (s.bytes ≡ total s.keys)
    × (length s.keys ≤ max_seen_approvals)
    × (s.bytes ≤ max_seen_approval_bytes)

insert-IsBounded : (s : SeenApprovals) (key : Text) → IsBounded s → IsBounded (insert s key).1
unfolding insert
insert-IsBounded s key (distinct, exact, few, small) = elim (Bool-cases (seen key s.keys)) [
  | inl e ↦ rw e (distinct, exact, few, small)
  | inr e ↦ elim (Bool-cases (is_full key s)) [
    | inl f ↦ rw (e, f) (distinct, exact, few, small)
    | inr f ↦
        rw (e, f)
          ((e, distinct), ground (arith, f, exact, small), ground (arith, f), ground (arith, f))
  ]
]

insert_all-keeps : (ks : List Text) (s : SeenApprovals) → IsBounded s → IsBounded (insert_all s ks)
unfolding insert_all
insert_all-keeps [] s h = h
insert_all-keeps (k ∷ ks) s h = insert_all-keeps ks (insert s k).1 (insert-IsBounded s k h)

nothing_seen-IsBounded : IsBounded nothing_seen
nothing_seen-IsBounded = (tt, refl, omega arith, omega arith)

-- Whatever keys a server sends, the detector holds none twice, counts the bytes of those that it
-- holds exactly, and holds at most 256 keys of at most 16 KiB together.
pub insert_all-IsBounded : (ks : List Text) → IsBounded (insert_all nothing_seen ks)
insert_all-IsBounded ks = insert_all-keeps ks nothing_seen nothing_seen-IsBounded

insert-seen :
    (s : SeenApprovals) (k key : Text)
    → seen key s.keys ≡ true
    → seen key (insert s k).1.keys ≡ true
unfolding insert seen
insert-seen s k key h = ground (arith, h)

insert_all-seen :
    (ks : List Text) (s : SeenApprovals) (key : Text)
    → seen key s.keys ≡ true
    → seen key (insert_all s ks).keys ≡ true
unfolding insert_all
insert_all-seen [] s key h = h
insert_all-seen (k ∷ ks) s key h = insert_all-seen ks (insert s k).1 key (insert-seen s k key h)

accepted-seen :
    (s : SeenApprovals) (key : Text) (b : Bool)
    → (insert s key).0 ≡ ok b
    → seen key (insert s key).1.keys ≡ true
unfolding insert seen
accepted-seen s key b h = ground (arith, h, text_eq_refl key)

insert_known :
    (s : SeenApprovals) (key : Text) → seen key s.keys ≡ true → insert s key ≡ (ok false, s)
unfolding insert
insert_known s key h = rw h refl

-- A key that was once accepted, or found to be a duplicate, is a duplicate for good, whatever other
-- keys come in between, and to find it changes nothing.
pub insert-insert :
    (s : SeenApprovals) (key : Text) (between : List Text) (b : Bool)
    → (insert s key).0 ≡ ok b
    → insert (insert_all (insert s key).1 between) key
      ≡ (ok false, insert_all (insert s key).1 between)
insert-insert s key between b h =
    insert_known (insert_all (insert s key).1 between) key
      (insert_all-seen between (insert s key).1 key (accepted-seen s key b h))
