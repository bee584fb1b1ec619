-- ===== src/Client/Shown.antt =====
-- What a reviewer can be shown: src/client.rs, sanitize_approval_text.
use spark_runner.Prelude.{
  ℕ, zero, suc, ◌-◌, ◌≤◌, ◌≡◌, refl, inl, inr, Bool, false, ◌||◌, List, [], ◌∷◌, arith, ltb,
  if_elim, length, length-append, take, All, All-append, Bool-cases,
}
use spark_runner.Prelude.Text.{Text, split_whitespace, is_control, filter, join, to_ascii_lowercase}
use spark_runner.Client.Sanitize.{
  sensitive_approval_word, redacted, without_control, shown_word, shown_words, announces, ellipsis,
  cut, sanitize_approval_text,
}

abbrev pub IsPlain : ℕ → Type 0
IsPlain c = is_control c ≡ false

without_control-IsPlain : (t : Text) → All IsPlain (without_control t)
unfolding filter
without_control-IsPlain [] = tt
without_control-IsPlain (c ∷ t) = elim (Bool-cases (is_control c)) [
  | inl e ↦ rw e (without_control-IsPlain t)
  | inr e ↦ rw e (e, without_control-IsPlain t)
]

redacted-IsPlain : All IsPlain redacted
unfolding is_control
redacted-IsPlain = ground arith

shown_word-IsPlain : (next : Bool) (word : Text) → All IsPlain (shown_word next word)
shown_word-IsPlain next word =
    if_elim (All IsPlain) (next || sensitive_approval_word (to_ascii_lowercase word))
      (λ _. redacted-IsPlain) (λ _. without_control-IsPlain word)

space-IsPlain : IsPlain b' '
unfolding is_control
space-IsPlain = refl

ellipsis-IsPlain : IsPlain ellipsis
unfolding is_control
ellipsis-IsPlain = refl

join-IsPlain : (words : List Text) → All (All IsPlain) words → All IsPlain (join words)
unfolding join
join-IsPlain [] h = tt
join-IsPlain (w ∷ []) (p, h) = p
join-IsPlain (w ∷ (v ∷ ws)) (p, h) =
    All-append IsPlain w _ p (space-IsPlain, join-IsPlain (v ∷ ws) h)

shown_words-IsPlain : (next : Bool) (words : List Text) → All (All IsPlain) (shown_words next words)
unfolding shown_words
shown_words-IsPlain next [] = tt
shown_words-IsPlain next (w ∷ ws) =
    (shown_word-IsPlain next w, shown_words-IsPlain (announces (to_ascii_lowercase w)) ws)

take-IsPlain : (n : ℕ) (t : Text) → All IsPlain t → All IsPlain (take n t)
take-IsPlain zero t h = tt
take-IsPlain (suc n) [] h = tt
take-IsPlain (suc n) (c ∷ t) (p, h) = (p, take-IsPlain n t h)

length-take : (n : ℕ) (t : Text) → length (take n t) ≤ n
length-take zero t = omega arith
length-take (suc n) [] = omega arith
length-take (suc n) (c ∷ t) = omega (arith, length-take n t)

cut-IsShort : (t : Text) (limit : ℕ) → 1 ≤ limit → length (cut t limit) ≤ limit
unfolding cut
cut-IsShort t limit h =
    ground (arith, h, length-take (limit - 1) t, length-append (take (limit - 1) t) (ellipsis ∷ []))

cut-IsPlain : (t : Text) (limit : ℕ) → All IsPlain t → All IsPlain (cut t limit)
unfolding cut
cut-IsPlain t limit h =
    if_elim (All IsPlain) (ltb limit (length t))
      (λ _.
        All-append IsPlain (take (limit - 1) t) (ellipsis ∷ []) (take-IsPlain (limit - 1) t h)
          (ellipsis-IsPlain, tt))
      (λ _. h)

-- Under any limit of at least one, a text is shown with at most that many characters, none of them a
-- control character.
pub sanitize_approval_text-IsShowable :
    (value : Text) (limit : ℕ)
    → 1 ≤ limit
    → (length (sanitize_approval_text value limit) ≤ limit)
      × All IsPlain (sanitize_approval_text value limit)
unfolding sanitize_approval_text
sanitize_approval_text-IsShowable value limit h =
    let joined = join (shown_words false (split_whitespace value)) in
    (
      cut-IsShort joined limit h,
      cut-IsPlain joined limit
          (join-IsPlain _ (shown_words-IsPlain false (split_whitespace value))),
    )
