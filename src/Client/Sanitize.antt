-- ===== src/Client/Sanitize.antt =====
-- The text that a reviewer is shown: src/client.rs, sanitize_approval_text and what it calls.
use spark_runner.Prelude.{
  ℕ, Bool, false, not, ◌&&◌, ◌||◌, List, [], ◌∷◌, ◌++◌, ltb, leb, if◌then◌else◌, length, take,
  saturating_sub,
}
use spark_runner.Prelude.Text.{
  Text, codes, text_eq, starts_with, contains, to_ascii_lowercase, split_whitespace, is_control,
  ends_with, filter, join,
}

unfoldable pub sensitive_approval_word : Text → Bool
unfolding starts_with contains
sensitive_approval_word lower =
    contains lower (codes "token")
    || contains lower (codes "secret")
    || contains lower (codes "password")
    || contains lower (codes "authorization")
    || contains lower (codes "canary")
    || starts_with lower (codes "sk-")
    || starts_with lower (codes "ghp_")
    || starts_with lower (codes "github_pat_")
    || starts_with lower (codes "xoxb-")

abbrev pub redacted : Text
redacted = codes "[REDACTED]"

abbrev pub without_control : Text → Text
without_control word = filter (λ c. not (is_control c)) word

abbrev pub announces : Text → Bool
announces lower = text_eq lower (codes "bearer") || ends_with lower (codes "bearer:")

abbrev pub shown_word : Bool → Text → Text
shown_word redact_next word =
    if redact_next || sensitive_approval_word (to_ascii_lowercase word)
    then redacted
    else without_control word

-- The `for` loop over the words.
unfoldable pub shown_words : Bool → List Text → List Text
unfolding to_ascii_lowercase text_eq ends_with sensitive_approval_word filter is_control
shown_words redact_next [] = []
shown_words redact_next (word ∷ rest) =
    shown_word redact_next word ∷ shown_words (announces (to_ascii_lowercase word)) rest

abbrev pub ellipsis : ℕ
ellipsis = 0x2026

unfoldable pub cut : Text → ℕ → Text
cut text limit =
    if ltb limit (length text) then take (saturating_sub limit 1) text ++ (ellipsis ∷ []) else text

unfoldable pub sanitize_approval_text : Text → ℕ → Text
unfolding split_whitespace shown_words join cut
sanitize_approval_text value limit = cut (join (shown_words false (split_whitespace value))) limit

unfoldable pub approval_text_is_reviewable : Text → ℕ → Bool
unfolding sanitize_approval_text text_eq
approval_text_is_reviewable value limit =
    leb (length value) limit && text_eq (sanitize_approval_text value limit) value
