-- ===== src/Journal/Redact.antt =====
-- Redaction before a row is written: src/journal.rs, redact_value, redact_string, is_sensitive_key.
use spark_runner.Prelude.{
  ℕ, zero, suc, Bool, ◌||◌, List, [], ◌∷◌, ◌++◌, Option, none, some, if◌then◌else◌, take, drop,
  length,
}
use spark_runner.Prelude.Text.{
  Text, codes, text_eq, starts_with, contains, to_ascii_lowercase, is_whitespace,
}
use spark_runner.Json.{
  Value, Items, Fields, null, boolean, number, string, array, object, nil, cons, end, field,
}

abbrev pub mask : Text
mask = codes "[REDACTED]"

abbrev pub shift : Option ℕ → Option ℕ
shift none = none
shift (some n) = some (suc n)

-- `find(marker)`, counted in code points.
unfoldable pub find : Text → Text → Option ℕ
find marker [] = if starts_with [] marker then some 0 else none
find marker (c ∷ text) = if starts_with (c ∷ text) marker then some 0 else shift (find marker text)

-- `find(char::is_whitespace)`, or the length of the text.
unfoldable pub word_len : Text → ℕ
word_len [] = 0
word_len (c ∷ text) = if is_whitespace c then 0 else suc (word_len text)

-- `out.replace_range(start..end, "[REDACTED]")`
unfoldable pub replace_word : Text → ℕ → Text
unfolding word_len
replace_word out start =
    take start out ++ (mask ++ drop (word_len (drop start out)) (drop start out))

-- The `while let` loop; none where the fuel runs out.
unfoldable pub redact_marker : ℕ → Text → Text → Option Text
redact_marker zero marker out = none
redact_marker (suc fuel) marker out = elim (find marker out) [
  | none ↦ some out
  | some start ↦ redact_marker fuel marker (replace_word out start)
]

abbrev pub markers : List Text
markers = codes "sk-" ∷ codes "ghp_" ∷ codes "github_pat_" ∷ codes "xoxb-" ∷ codes "Bearer " ∷ []

abbrev pub bind_text : Option Text → (Text → Option Text) → Option Text
bind_text none f = none
bind_text (some t) f = f t

-- The `for` loop over the markers.
unfoldable pub redact_markers : ℕ → List Text → Text → Option Text
redact_markers fuel [] out = some out
redact_markers fuel (m ∷ ms) out = bind_text (redact_marker fuel m out) (redact_markers fuel ms)

unfoldable pub redact_string : ℕ → Text → Option Text
redact_string fuel text = redact_markers fuel markers text

unfoldable pub is_sensitive_key : Text → Bool
is_sensitive_key name =
    let key = to_ascii_lowercase name in
    contains key (codes "token")
    || contains key (codes "secret")
    || contains key (codes "password")
    || contains key (codes "authorization")
    || text_eq key (codes "key")
    || text_eq key (codes "api_key")
    || text_eq key (codes "apikey")
    || text_eq key (codes "access_key")

abbrev pub or_text : Text → Option Text → Text
or_text text none = text
or_text text (some r) = r

-- `redact_string` with fuel that is enough: the loops turn at most once for each letter, and the
-- first argument of `or_text` is not used.
unfoldable pub redact_text : Text → Text
redact_text text = or_text text (redact_string (suc (length text)) text)

unfoldable mutual
  pub redact_value : Value → Value
  redact_value null = null
  redact_value (boolean b) = boolean b
  redact_value (number n) = number n
  redact_value (string text) = string (redact_text text)
  redact_value (array values) = array (redact_items values)
  redact_value (object map) = object (redact_fields map)

  pub redact_items : Items → Items
  redact_items nil = nil
  redact_items (cons value values) = cons (redact_value value) (redact_items values)

  pub redact_fields : Fields → Fields
  redact_fields end = end
  redact_fields (field key value map) =
      let redacted = redact_value value in
      field key (if is_sensitive_key key then string mask else redacted) (redact_fields map)
