-- ===== src/Client/Hidden.antt =====
-- What gets past the redaction of a shown text: src/client.rs, sanitize_approval_text.
use spark_runner.Prelude.{
  ℕ, ◌+◌, ◌≤◌, ◌≡◌, refl, ◌∙◌, Bool, true, false, not, [], ◌∷◌, ◌++◌, append_assoc, append-nil,
  arith, length, length-append, take, drop, ◌<◌, sym, subst, All, All-append,
}
use spark_runner.Prelude.Text.{
  Text, split_whitespace, words_from, add_word, is_control, filter, join, to_ascii_lowercase,
  starts_with,
}
use spark_runner.Client.Sanitize.{
  sensitive_approval_word, without_control, shown_words, cut, sanitize_approval_text,
}
use spark_runner.Client.Token.{
  IsSolid, TokenPrefix, prefix_text, HoldsNoWord, insert_at, split_token, prefix-IsPlain,
  prefix-IsSolid, All-take, All-drop, restored, starts_with-insert_at, part_not_started, openai,
  github_classic, github_fine, slack,
}

-- The words of a text without whitespace: itself.
words_from-solid : (t word : Text) → All IsSolid t → words_from word t ≡ add_word (word ++ t) []
words_from-solid [] word h = rw (append-nil word) refl
words_from-solid (c ∷ t) word (s, h) =
    rw (s, words_from)
      (words_from-solid t (word ++ (c ∷ [])) h ∙ rw (append_assoc word (c ∷ []) t) refl)

cut_short : (t : Text) (limit : ℕ) → length t ≤ limit → cut t limit ≡ t
unfolding cut
cut_short t limit h = ground (arith, h)

filter_short : (p : ℕ → Bool) (t : Text) → length (filter p t) ≤ length t
unfolding filter
filter_short p [] = omega arith
filter_short p (c ∷ t) = ground (arith, filter_short p t)

add_word-cons : (p r : Text) (c : ℕ) → add_word (p ++ (c ∷ r)) [] ≡ (p ++ (c ∷ r)) ∷ []
add_word-cons [] r c = refl
add_word-cons (a ∷ p) r c = refl

-- A text of one word is shown without its control characters, where it is not sensitive and fits.
sanitize-word :
    (p r : Text) (c limit : ℕ)
    → All IsSolid (p ++ (c ∷ r))
    → sensitive_approval_word (to_ascii_lowercase (p ++ (c ∷ r))) ≡ false
    → length (without_control (p ++ (c ∷ r))) ≤ limit
    → sanitize_approval_text (p ++ (c ∷ r)) limit ≡ without_control (p ++ (c ∷ r))
unfolding sanitize_approval_text split_whitespace shown_words join
sanitize-word p r c limit solid dull short =
    let e : words_from [] (p ++ (c ∷ r)) ≡ (p ++ (c ∷ r)) ∷ [] =
      words_from-solid (p ++ (c ∷ r)) [] solid ∙ add_word-cons p r c in
    rw (e, dull) (cut_short (without_control (p ++ (c ∷ r))) limit short)

split_token-not_sensitive :
    (prefix : TokenPrefix) (n c : ℕ) (t : Text)
    → is_control c ≡ true
    → n < length (prefix_text prefix)
    → HoldsNoWord (to_ascii_lowercase (split_token prefix n c t))
    → sensitive_approval_word (to_ascii_lowercase (split_token prefix n c t)) ≡ false
unfolding sensitive_approval_word
split_token-not_sensitive prefix n c t h inside (token, secret, password, authorization, canary) =
    let clear = λ (other : TokenPrefix).
      starts_with-insert_at n c (prefix_text prefix) t (prefix_text other) h (prefix-IsPlain other)
        (part_not_started prefix n inside other) in
    rw (
      token,
      secret,
      password,
      authorization,
      canary,
      clear openai,
      clear github_classic,
      clear github_fine,
      clear slack,
    )

prefix-sensitive :
    (prefix : TokenPrefix) (t : Text)
    → sensitive_approval_word (to_ascii_lowercase (prefix_text prefix ++ t)) ≡ true
unfolding sensitive_approval_word starts_with to_ascii_lowercase
prefix-sensitive openai t = ground arith
prefix-sensitive github_classic t = ground arith
prefix-sensitive github_fine t = ground arith
prefix-sensitive slack t = ground arith

split_token-IsSolid :
    (prefix : TokenPrefix) (n c : ℕ) (t : Text)
    → All IsSolid (c ∷ t)
    → All IsSolid (split_token prefix n c t)
split_token-IsSolid prefix n c t (h, hs) =
    let solid = prefix-IsSolid prefix in
    All-append IsSolid (insert_at n c (prefix_text prefix)) t
      (All-append IsSolid (take n (prefix_text prefix)) (c ∷ drop n (prefix_text prefix))
        (All-take IsSolid n (prefix_text prefix) solid)
        (h, All-drop IsSolid n (prefix_text prefix) solid))
      hs

-- The last two facts of a token, at its text as one list.
sanitize-split_token :
    (prefix : TokenPrefix) (n c limit : ℕ) (t : Text)
    → All IsSolid (split_token prefix n c t)
    → sensitive_approval_word (to_ascii_lowercase (split_token prefix n c t)) ≡ false
    → length (without_control (split_token prefix n c t)) ≤ limit
    → sanitize_approval_text (split_token prefix n c t) limit
      ≡ without_control (split_token prefix n c t)
sanitize-split_token prefix n c limit t =
    subst
      (λ w.
        All IsSolid w
        → sensitive_approval_word (to_ascii_lowercase w) ≡ false
        → length (without_control w) ≤ limit
        → sanitize_approval_text w limit ≡ without_control w)
      (sym (append_assoc (take n (prefix_text prefix)) (c ∷ drop n (prefix_text prefix)) t))
      (sanitize-word (take n (prefix_text prefix)) (drop n (prefix_text prefix) ++ t) c limit)

-- A token whose prefix has a control character in it or before it gets past the redaction. Take any
-- of the four prefixes and put a control character that is no whitespace anywhere before its last
-- character; let what follows have no whitespace, and the whole hold none of the five words that are
-- sensitive wherever they stand. Then the text passes the test of a sensitive word; where it fits the
-- limit it is shown as the prefix, whole again, and what follows without its control characters; and
-- what is shown is itself sensitive by that test.
pub sanitize_approval_text-hidden :
    (prefix : TokenPrefix) (n c limit : ℕ) (t : Text)
    → is_control c ≡ true
    → n < length (prefix_text prefix)
    → All IsSolid (c ∷ t)
    → HoldsNoWord (to_ascii_lowercase (split_token prefix n c t))
    → length (prefix_text prefix) + length t ≤ limit
    → (sensitive_approval_word (to_ascii_lowercase (split_token prefix n c t)) ≡ false)
      × (sanitize_approval_text (split_token prefix n c t) limit
          ≡ prefix_text prefix ++ without_control t)
      × (sensitive_approval_word (to_ascii_lowercase (prefix_text prefix ++ without_control t))
          ≡ true)
sanitize_approval_text-hidden prefix n c limit t control inside solid no_word short =
    let passes = split_token-not_sensitive prefix n c t control inside no_word in
    let e = restored n c (prefix_text prefix) t control (prefix-IsPlain prefix) in
    let fits : length (without_control (split_token prefix n c t)) ≤ limit = rw e (
      omega (
        arith,
        short,
        length-append (prefix_text prefix) (without_control t),
        filter_short (λ d. not (is_control d)) t,
      )) in
    (
      passes,
      sanitize-split_token prefix n c limit t (split_token-IsSolid prefix n c t solid) passes fits
          ∙ e,
      prefix-sensitive prefix (without_control t),
    )
