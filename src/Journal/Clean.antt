-- ===== src/Journal/Clean.antt =====
-- What redaction leaves, and that it ends: src/journal.rs, redact_string, redact_value.
use spark_runner.Prelude.{
  ℕ, zero, suc, ◌≤◌, ◌<◌, ◌≡◌, refl, ◌∙◌, ◌≢◌, inl, inr, false, List, [], ◌∷◌, ◌++◌, Option, none,
  some, arith, length, All, Option-cases,
}
use spark_runner.Prelude.Text.{Text, codes, contains, starts_with, is_whitespace}
use spark_runner.Journal.Redact.{
  mask, find, replace_word, word_len, redact_marker, redact_markers, redact_string, markers,
}
use spark_runner.Journal.Masked.{
  IsMarker, count, count_le_length, count-replace_word_le, count-replace_word_lt, find-none,
  contains-none, contains-append, contains-replace_word,
}

-- The second text lacks each marker that the first lacks, and each letter outside the mask is at
-- most as frequent.
pub record Keeps (t r : Text) : Type 0 where
  pub lacks :
      (c : ℕ) (m : Text)
      → IsMarker (c ∷ m)
      → contains t (c ∷ m) ≡ false
      → contains r (c ∷ m) ≡ false
  pub fewer : (c : ℕ) → All (λ d. c ≢ d) mask → count c r ≤ count c t

Keeps-refl : (t : Text) → Keeps t t
Keeps-refl t = record { lacks = λ c m _ h. h; fewer = λ c _. omega arith }

Keeps-trans : (s t r : Text) → Keeps s t → Keeps t r → Keeps s r
Keeps-trans s t r p q = record {
  lacks = λ c m is h. q.lacks c m is (p.lacks c m is h);
  fewer = λ c h. omega (arith, p.fewer c h, q.fewer c h);
}

Keeps-replace_word : (t : Text) (i : ℕ) → Keeps t (replace_word t i)
Keeps-replace_word t i = record {
  lacks = λ c m is h. contains-replace_word c m t i is h;
  fewer = λ c h. count-replace_word_le c t i h;
}

-- What a loop returns: a text without the markers that it is about.
unfoldable pub Cleans : List Text → Text → Option Text → Type 0
Cleans ms t out = (r : Text) × ((out ≡ some r) × All (λ m. contains r m ≡ false) ms × Keeps t r)

redact_marker_found :
    (fuel : ℕ) (m t : Text) (i : ℕ)
    → find m t ≡ some i
    → redact_marker (suc fuel) m t ≡ redact_marker fuel m (replace_word t i)
unfolding redact_marker
redact_marker_found fuel m t i e = rw (e, redact_marker)

redact_marker_free :
    (fuel : ℕ) (m t : Text) → find m t ≡ none → redact_marker (suc fuel) m t ≡ some t
unfolding redact_marker
redact_marker_free fuel m t e = rw (e, redact_marker)

redact_marker-Cleans :
    (fuel c : ℕ) (m t : Text)
    → IsMarker (c ∷ m)
    → count c t < fuel
    → Cleans ((c ∷ m) ∷ []) t (redact_marker fuel (c ∷ m) t)
unfolding Cleans
redact_marker-Cleans zero c m t is lt = absurd (omega arith)
redact_marker-Cleans (suc fuel) c m t is lt = elim (Option-cases (find (c ∷ m) t)) [
  | inl e ↦ (t, (redact_marker_free fuel (c ∷ m) t e, (find-none (c ∷ m) t e, tt), Keeps-refl t))
  | inr (i, e) ↦
      let (r, (eq, free, keeps)) =
        redact_marker-Cleans fuel c m (replace_word t i) is
          (omega (arith, count-replace_word_lt c m t i is e)) in
      (
        r,
        (
          redact_marker_found fuel (c ∷ m) t i e ∙ eq,
          free,
          Keeps-trans t (replace_word t i) r (Keeps-replace_word t i) keeps,
        ),
      )
]

-- Fuel for every loop: the mask brings no letter back that starts a marker.
redact_markers-Cleans :
    (fuel : ℕ) (ms : List Text) (t : Text)
    → All IsMarker ms
    → ((c : ℕ) → All (λ d. c ≢ d) mask → count c t < fuel)
    → Cleans ms t (redact_markers fuel ms t)
unfolding Cleans IsMarker redact_markers
redact_markers-Cleans fuel [] t is lt = (t, (refl, tt, Keeps-refl t))
redact_markers-Cleans fuel ([] ∷ ms) t is lt = absurd is.0
redact_markers-Cleans fuel ((c ∷ m) ∷ ms) t is lt =
    let (r, (eq, free, keeps)) = redact_marker-Cleans fuel c m t is.0 (lt c is.0.1) in
    let (r', (eq', free', keeps')) =
      redact_markers-Cleans fuel ms r is.1 (λ c h. omega (arith, keeps.fewer c h, lt c h)) in
    (r', (rw eq eq', (keeps'.lacks c m is.0 free.0, free'), Keeps-trans t r r' keeps keeps'))

markers-IsMarker : All IsMarker markers
unfolding IsMarker is_whitespace
markers-IsMarker = (
  (refl, ground arith, ground arith),
  (
    (refl, ground arith, ground arith),
    (
      (refl, ground arith, ground arith),
      ((refl, ground arith, ground arith), ((refl, ground arith, ground arith), tt)),
    ),
  ),
)

-- Redaction of a text ends within any fuel beyond the text's length, and no marker is left anywhere
-- in the text that it returns.
pub redact_string-Redacts :
    (fuel : ℕ) (text : Text)
    → length text < fuel
    → (r : Text) × ((redact_string fuel text ≡ some r) × All (λ m. contains r m ≡ false) markers)
unfolding Cleans redact_string
redact_string-Redacts fuel text lt =
    let (r, (eq, free, keeps)) =
      redact_markers-Cleans fuel markers text markers-IsMarker
        (λ c _. omega (arith, lt, count_le_length c text)) in
    (r, (eq, free))

redact_marker_nothing :
    (fuel : ℕ) (m t : Text) → contains t m ≡ false → redact_marker (suc fuel) m t ≡ some t
redact_marker_nothing fuel m t e = redact_marker_free fuel m t (contains-none m t e)

-- A text without markers stays as it is.
pub redact_markers_nothing :
    (fuel : ℕ) (ms : List Text) (t : Text)
    → All (λ m. contains t m ≡ false) ms
    → redact_markers (suc fuel) ms t ≡ some t
unfolding redact_markers
redact_markers_nothing fuel [] t h = refl
redact_markers_nothing fuel (m ∷ ms) t h =
    rw (redact_marker_nothing fuel m t h.0) (redact_markers_nothing fuel ms t h.1)

-- The first round of the last loop: the word that it replaces is `Bearer`.
bearer_masked :
    (fuel : ℕ) (t : Text)
    → redact_marker (suc fuel) (codes "Bearer ") (codes "Bearer " ++ t)
      ≡ redact_marker fuel (codes "Bearer ") (codes "[REDACTED] " ++ t)
unfolding find replace_word starts_with word_len is_whitespace
bearer_masked fuel t = redact_marker_found fuel (codes "Bearer ") (codes "Bearer " ++ t) 0 refl

-- A text that begins with the marker of a bearer credential, followed by a text without markers: the
-- word `Bearer` is masked, and all that follows its space is left as it was.
pub redact_string_bearer :
    (fuel : ℕ) (t : Text)
    → All (λ m. contains t m ≡ false) markers
    → redact_string (suc (suc fuel)) (codes "Bearer " ++ t) ≡ some (codes "[REDACTED] " ++ t)
unfolding redact_string redact_markers
redact_string_bearer fuel t h = rw (
  before b's' (codes "k-") (ground arith) h.0,
  before b'g' (codes "hp_") (ground arith) h.1.0,
  before b'g' (codes "ithub_pat_") (ground arith) h.1.1.0,
  before b'x' (codes "oxb-") (ground arith) h.1.1.1.0,
  bearer_masked (suc fuel) t,
  redact_marker_nothing fuel (codes "Bearer ") (codes "[REDACTED] " ++ t)
      (contains-append b'B' (codes "earer ") (codes "[REDACTED] ") t (ground arith) h.1.1.1.1.0),
)
  where
    before :
        (c : ℕ) (m : Text)
        → All (λ d. c ≢ d) (codes "Bearer ")
        → contains t (c ∷ m) ≡ false
        → redact_marker (suc (suc fuel)) (c ∷ m) (codes "Bearer " ++ t)
          ≡ some (codes "Bearer " ++ t)
    before c m missing e =
        redact_marker_nothing (suc fuel) (c ∷ m) (codes "Bearer " ++ t)
          (contains-append c m (codes "Bearer ") t missing e)
