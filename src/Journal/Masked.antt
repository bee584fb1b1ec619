-- ===== src/Journal/Masked.antt =====
-- What replacing a marked word does to a text: src/journal.rs, redact_string.
use spark_runner.Prelude.{
  ℕ, zero, suc, ◌+◌, ◌≤◌, ◌<◌, ◌≡◌, refl, sym, ap, subst, ◌≢◌, true, false, [], ◌∷◌, ◌++◌, none,
  some, arith, ◌==◌, if◌then◌else◌, take, drop, length, All, Bool-cases, Option-cases, inl, inr,
}
use spark_runner.Prelude.Text.{Text, codes, starts_with, contains, is_whitespace}
use spark_runner.Journal.Redact.{mask, shift, find, word_len, replace_word}

-- How often a code point stands in a text.
abbrev pub count : ℕ → Text → ℕ
count c [] = 0
count c (d ∷ t) = (if c == d then 1 else 0) + count c t

count-append : (c : ℕ) (s t : Text) → count c (s ++ t) ≡ count c s + count c t
count-append c [] t = omega arith
count-append c (d ∷ s) t = omega (arith, count-append c s t)

count-drop_le : (c n : ℕ) (t : Text) → count c (drop n t) ≤ count c t
count-drop_le c zero t = omega arith
count-drop_le c (suc n) [] = omega arith
count-drop_le c (suc n) (d ∷ t) = omega (arith, count-drop_le c n t)

count-take-drop : (c n : ℕ) (t : Text) → count c (take n t) + count c (drop n t) ≡ count c t
count-take-drop c zero t = omega arith
count-take-drop c (suc n) [] = omega arith
count-take-drop c (suc n) (d ∷ t) = omega (arith, count-take-drop c n t)

pub count_le_length : (c : ℕ) (t : Text) → count c t ≤ length t
count_le_length c [] = omega arith
count_le_length c (d ∷ t) = ground (arith, count_le_length c t)

count_missing : (c : ℕ) (t : Text) → All (λ d. c ≢ d) t → count c t ≡ 0
count_missing c [] h = refl
count_missing c (d ∷ t) h = ground (arith, count_missing c t h.1)

take-drop : (n : ℕ) (t : Text) → take n t ++ drop n t ≡ t
take-drop zero t = refl
take-drop (suc n) [] = refl
take-drop (suc n) (d ∷ t) = ap (λ x. d ∷ x) (take-drop n t)

-- A marker begins with no whitespace, its first letter stands nowhere in the mask, and the mask's
-- bracket nowhere in it.
unfoldable pub IsMarker : Text → Type 0
IsMarker [] = ⊥
IsMarker (c ∷ m) = (is_whitespace c ≡ false) × All (λ d. c ≢ d) mask × All (λ d. d ≢ b'[') (c ∷ m)

first_letter : (c d : ℕ) (m t : Text) → starts_with (d ∷ t) (c ∷ m) ≡ true → d ≡ c
unfolding starts_with
first_letter c d m t h = ground arith

find_here : (m : Text) (d : ℕ) (t : Text) → starts_with (d ∷ t) m ≡ true → find m (d ∷ t) ≡ some 0
unfolding find
find_here m d t h = ground arith

find_later :
    (m : Text) (d : ℕ) (t : Text)
    → starts_with (d ∷ t) m ≡ false
    → find m (d ∷ t) ≡ shift (find m t)
unfolding find
find_later m d t h = ground arith

-- Where a marker is found the text goes on with the marker's first letter.
find_letter : (c : ℕ) (m t : Text) (i : ℕ) → find (c ∷ m) t ≡ some i → drop i t ≡ c ∷ drop (suc i) t
unfolding find starts_with
find_letter c m [] i e = absurd (ground arith)
find_letter c m (d ∷ t) i e = elim (Bool-cases (starts_with (d ∷ t) (c ∷ m))) [
  | inl h ↦
      let zero_i : zero ≡ i = grind (arith, find_here (c ∷ m) d t h) in
      subst (λ j. drop j (d ∷ t) ≡ c ∷ drop (suc j) (d ∷ t)) zero_i
        (ap (λ x. x ∷ t) (first_letter c d m t h))
  | inr h ↦ elim (Option-cases (find (c ∷ m) t)) [
    | inl g ↦ absurd (grind (arith, find_later (c ∷ m) d t h))
    | inr (j, g) ↦
        let suc_j : suc j ≡ i = grind (arith, find_later (c ∷ m) d t h) in
        subst (λ j. drop j (d ∷ t) ≡ c ∷ drop (suc j) (d ∷ t)) suc_j (find_letter c m t j g)
  ]
]

-- The replaced word begins with the letter: what follows it has one such letter less at least.
word_drops :
    (c : ℕ) (rest : Text)
    → is_whitespace c ≡ false
    → count c (drop (word_len (c ∷ rest)) (c ∷ rest)) < count c (c ∷ rest)
unfolding word_len
word_drops c rest h = rw h (grind (arith, count-drop_le c (word_len rest) rest))

-- The replacement takes a letter that the mask lacks away, or leaves it as often as it was.
pub count-replace_word_le :
    (c : ℕ) (t : Text) (i : ℕ) → All (λ d. c ≢ d) mask → count c (replace_word t i) ≤ count c t
unfolding replace_word
count-replace_word_le c t i h =
    let w = word_len (drop i t) in
    omega (
      arith,
      count-append c (take i t) (mask ++ drop w (drop i t)),
      count-append c mask (drop w (drop i t)),
      count_missing c mask h,
      count-drop_le c w (drop i t),
      count-take-drop c i t,
    )

pub count-replace_word_lt :
    (c : ℕ) (m t : Text) (i : ℕ)
    → IsMarker (c ∷ m)
    → find (c ∷ m) t ≡ some i
    → count c (replace_word t i) < count c t
unfolding replace_word IsMarker
count-replace_word_lt c m t i (solid, missing, _) e =
    let cut = find_letter c m t i e in
    let w = word_len (drop i t) in
    let fewer : count c (drop w (drop i t)) < count c (drop i t) =
      subst (λ s. count c (drop (word_len s) s) < count c s) (sym cut)
        (word_drops c (drop (suc i) t) solid) in
    omega (
      arith,
      count-append c (take i t) (mask ++ drop w (drop i t)),
      count-append c mask (drop w (drop i t)),
      count_missing c mask missing,
      fewer,
      count-take-drop c i t,
    )

-- # What was not there is not there afterwards

pub find-none : (m t : Text) → find m t ≡ none → contains t m ≡ false
unfolding find contains
find-none m [] e = ground arith
find-none m (d ∷ t) e = elim (Bool-cases (starts_with (d ∷ t) m)) [
  | inl h ↦ absurd (grind (arith, find_here m d t h))
  | inr h ↦ elim (Option-cases (find m t)) [
    | inl g ↦ rw h (find-none m t g)
    | inr (j, g) ↦ absurd (grind (arith, find_later m d t h))
  ]
]

pub contains-none : (m t : Text) → contains t m ≡ false → find m t ≡ none
unfolding find contains
contains-none m [] e = ground arith
contains-none m (d ∷ t) e = ground (arith, contains-none m t)

contains-drop : (n : ℕ) (m t : Text) → contains t m ≡ false → contains (drop n t) m ≡ false
unfolding contains
contains-drop zero m t h = h
contains-drop (suc n) m [] h = h
contains-drop (suc n) m (d ∷ t) h = contains-drop n m t (ground arith)

-- Texts that hold nothing of a marker may be put in front.
pub contains-append :
    (c : ℕ) (m p t : Text)
    → All (λ d. c ≢ d) p
    → contains t (c ∷ m) ≡ false
    → contains (p ++ t) (c ∷ m) ≡ false
unfolding contains starts_with
contains-append c m [] t h e = e
contains-append c m (d ∷ p) t h e = ground (arith, contains-append c m p t h.1 e)

-- A text that stands before a letter that the marker lacks starts with the marker on its own.
starts_with-cut :
    (m a b z : Text) (x : ℕ)
    → All (λ d. d ≢ x) m
    → starts_with (a ++ b) m ≡ false
    → starts_with (a ++ x ∷ z) m ≡ false
unfolding starts_with
starts_with-cut [] [] b z x h e = ground arith
starts_with-cut [] (d ∷ a) b z x h e = ground arith
starts_with-cut (c ∷ m) [] b z x h e = ground arith
starts_with-cut (c ∷ m) (d ∷ a) b z x h e = ground (arith, starts_with-cut m a b z x h.1)

contains-cut :
    (m a b z : Text) (x : ℕ)
    → All (λ d. d ≢ x) m
    → contains (a ++ b) m ≡ false
    → contains (x ∷ z) m ≡ false
    → contains (a ++ x ∷ z) m ≡ false
unfolding contains
contains-cut m [] b z x h e f = f
contains-cut m (d ∷ a) b z x h e f =
    let start = starts_with-cut m (d ∷ a) b z x h (ground arith) in
    let rest = contains-cut m a b z x h (ground arith) f in ground arith

pub contains-replace_word :
    (c : ℕ) (m t : Text) (i : ℕ)
    → IsMarker (c ∷ m)
    → contains t (c ∷ m) ≡ false
    → contains (replace_word t i) (c ∷ m) ≡ false
unfolding replace_word IsMarker
contains-replace_word c m t i (_, missing, solid) e =
    let w = word_len (drop i t) in
    let whole = subst (λ s. contains s (c ∷ m) ≡ false) (sym (take-drop i t)) e in
    let rest = contains-drop w (c ∷ m) (drop i t) (contains-drop i (c ∷ m) t e) in
    contains-cut (c ∷ m) (take i t) (drop i t) (codes "REDACTED]" ++ drop w (drop i t)) b'[' solid
      whole (contains-append c m mask (drop w (drop i t)) missing rest)
