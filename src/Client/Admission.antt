-- ===== src/Client/Admission.antt =====
-- A rate-limit answer admits a turn exactly when every snapshot of it has capacity: src/client.rs, quota_available.
use spark_runner.Prelude.{
  ℕ, ◌<◌, ◌≡◌, ◌≢◌, ◌⊎◌, inl, inr, refl, true, false, ◌||◌, List, [], ◌∷◌, ◌++◌, Option, none, some,
  arith, All, IsTest, or-IsTest,
}
use spark_runner.Prelude.Text.{Text, codes}
use spark_runner.Json.{
  Value, null, boolean, number, string, array, object, Fields, natural, negative, real, get, bind,
  is_none_or, is_some_and, is_null, as_bool, as_number, values,
}
use spark_runner.Client.Quota.{
  windows, main_snapshot, by_id, flag, credits_suffice, snapshot_credits_available, is_open,
  not_reached, is_absent, in_range,
}

-- The snapshots of an answer: the main one and those by limit.
abbrev pub main_list : Option Value → List Value
main_list none = []
main_list (some snapshot) = snapshot ∷ []

abbrev pub by_id_list : Option Fields → List Value
by_id_list none = []
by_id_list (some fields) = values fields

abbrev pub snapshots : Value → List Value
snapshots limits = main_list (main_snapshot limits) ++ by_id_list (by_id limits)

abbrev pub all_windows : List Value → List Value
all_windows [] = []
all_windows (s ∷ rest) = windows s ++ all_windows rest

abbrev pub IsAbsent : Option Value → Type 0
IsAbsent value = (value ≡ none) ⊎ (value ≡ some null)

abbrev pub IsTrueAt : Value → Text → Type 0
IsTrueAt value name = get value name ≡ some (boolean true)

abbrev pub Suffice : Value → Type 0
Suffice credits =
    (credits ≡ null)
    ⊎ (IsTrueAt credits (codes "unlimited") ⊎ IsTrueAt credits (codes "hasCredits"))

abbrev pub SufficeIf : Option Value → Type 0
SufficeIf none = Unit
SufficeIf (some credits) = Suffice credits

abbrev pub HasCredit : Value → Type 0
HasCredit snapshot = SufficeIf (get snapshot (codes "credits"))

abbrev pub IsUnreached : Value → Type 0
IsUnreached snapshot = IsAbsent (get snapshot (codes "rateLimitReachedType"))

abbrev pub IsOpen : Value → Type 0
IsOpen window = (n : ℕ) × (get window (codes "usedPercent") ≡ some (number (natural n))) × (n < 100)

-- A snapshot with no limit reached, with credits, and with no window that is used up or unreadable.
abbrev pub HasCapacity : Value → Type 0
HasCapacity snapshot = IsUnreached snapshot × HasCredit snapshot × All IsOpen (windows snapshot)

abbrev pub AdmitsTurn : Value → Type 0
AdmitsTurn limits = (all_windows (snapshots limits) ≢ []) × All HasCapacity (snapshots limits)

is_absent-IsTest : (o : Option Value) → IsTest (is_absent o) (IsAbsent o)
is_absent-IsTest none = (λ _. inl refl, λ _. refl)
is_absent-IsTest (some null) = (λ _. inr refl, λ _. refl)
is_absent-IsTest (some (boolean b)) = (λ h. cc, λ h. elim h [ inl e ↦ cc | inr e ↦ cc ])
is_absent-IsTest (some (number n)) = (λ h. cc, λ h. elim h [ inl e ↦ cc | inr e ↦ cc ])
is_absent-IsTest (some (string t)) = (λ h. cc, λ h. elim h [ inl e ↦ cc | inr e ↦ cc ])
is_absent-IsTest (some (array a)) = (λ h. cc, λ h. elim h [ inl e ↦ cc | inr e ↦ cc ])
is_absent-IsTest (some (object f)) = (λ h. cc, λ h. elim h [ inl e ↦ cc | inr e ↦ cc ])

is_null-IsTest : (v : Value) → IsTest (is_null v) (v ≡ null)
is_null-IsTest null = (λ _. refl, λ _. refl)
is_null-IsTest (boolean b) = (λ h. cc, λ h. cc)
is_null-IsTest (number n) = (λ h. cc, λ h. cc)
is_null-IsTest (string t) = (λ h. cc, λ h. cc)
is_null-IsTest (array a) = (λ h. cc, λ h. cc)
is_null-IsTest (object f) = (λ h. cc, λ h. cc)

flag-IsTest : (o : Option Value) → IsTest (flag (bind o as_bool)) (o ≡ some (boolean true))
flag-IsTest none = (λ h. cc, λ h. cc)
flag-IsTest (some null) = (λ h. cc, λ h. cc)
flag-IsTest (some (boolean true)) = (λ h. refl, λ h. refl)
flag-IsTest (some (boolean false)) = (λ h. cc, λ h. cc)
flag-IsTest (some (number n)) = (λ h. cc, λ h. cc)
flag-IsTest (some (string t)) = (λ h. cc, λ h. cc)
flag-IsTest (some (array a)) = (λ h. cc, λ h. cc)
flag-IsTest (some (object f)) = (λ h. cc, λ h. cc)

used-IsTest :
    (o : Option Value)
    → IsTest
        (is_some_and (bind o as_number) in_range)
        ((n : ℕ) × (o ≡ some (number (natural n))) × (n < 100))
used-IsTest none = (λ h. cc, λ (n, e, l). cc)
used-IsTest (some null) = (λ h. cc, λ (n, e, l). cc)
used-IsTest (some (boolean b)) = (λ h. cc, λ (n, e, l). cc)
used-IsTest (some (number (natural n))) = (λ h. (n, refl, ground arith), λ (m, e, l). ground arith)
used-IsTest (some (number (negative n))) = (λ h. cc, λ (n, e, l). cc)
used-IsTest (some (number (real t))) = (λ h. cc, λ (n, e, l). cc)
used-IsTest (some (string t)) = (λ h. cc, λ (n, e, l). cc)
used-IsTest (some (array a)) = (λ h. cc, λ (n, e, l). cc)
used-IsTest (some (object f)) = (λ h. cc, λ (n, e, l). cc)

credits-IsTest : (o : Option Value) → IsTest (is_none_or o credits_suffice) (SufficeIf o)
credits-IsTest none = (λ _. tt, λ _. refl)
credits-IsTest (some c) =
    or-IsTest (is_null c)
      (flag (bind (get c (codes "unlimited")) as_bool)
        || flag (bind (get c (codes "hasCredits")) as_bool))
      (is_null-IsTest c)
      (or-IsTest (flag (bind (get c (codes "unlimited")) as_bool))
        (flag (bind (get c (codes "hasCredits")) as_bool)) (flag-IsTest (get c (codes "unlimited")))
        (flag-IsTest (get c (codes "hasCredits"))))

pub not_reached-IsTest : (s : Value) → IsTest (not_reached s) (IsUnreached s)
unfolding not_reached
not_reached-IsTest s = is_absent-IsTest (get s (codes "rateLimitReachedType"))

pub is_open-IsTest : (w : Value) → IsTest (is_open w) (IsOpen w)
unfolding is_open
is_open-IsTest w = used-IsTest (get w (codes "usedPercent"))

pub snapshot_credits_available-IsTest :
    (s : Value) → IsTest (snapshot_credits_available s) (HasCredit s)
unfolding snapshot_credits_available
snapshot_credits_available-IsTest s = credits-IsTest (get s (codes "credits"))
