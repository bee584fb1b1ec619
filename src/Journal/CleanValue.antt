-- ===== src/Journal/CleanValue.antt =====
-- What redaction leaves of a JSON value: src/journal.rs, redact_value.
use spark_runner.Prelude.{suc, ◌≡◌, refl, ap, Bool, true, false, arith, if◌then◌else◌, length, All}
use spark_runner.Prelude.Text.{Text, contains, starts_with}
use spark_runner.Json.{
  Value, Items, Fields, null, boolean, number, string, array, object, nil, cons, end, field,
}
use spark_runner.Journal.Redact.{
  mask, markers, redact_string, redact_text, redact_value, redact_items, redact_fields,
  is_sensitive_key,
}
use spark_runner.Journal.Clean.{redact_string-Redacts, redact_markers_nothing}

abbrev pub HasNoMarker : Text → Type 0
HasNoMarker t = All (λ m. contains t m ≡ false) markers

-- No text has a marker in it, and the value of a sensitive field is the mask.
unfoldable mutual
  pub IsClean : Value → Type 0
  IsClean null = Unit
  IsClean (boolean b) = Unit
  IsClean (number n) = Unit
  IsClean (string text) = HasNoMarker text
  IsClean (array values) = AreClean values
  IsClean (object map) = HasCleanFields map

  pub AreClean : Items → Type 0
  AreClean nil = Unit
  AreClean (cons value values) = IsClean value × AreClean values

  pub HasCleanFields : Fields → Type 0
  HasCleanFields end = Unit
  HasCleanFields (field key value map) =
      let clean = IsClean value in
      (if is_sensitive_key key then (value ≡ string mask) else clean) × HasCleanFields map

redact_text_clean : (t : Text) → HasNoMarker (redact_text t)
unfolding redact_text
redact_text_clean t =
    let (r, (eq, free)) = redact_string-Redacts (suc (length t)) t (omega arith) in rw eq free

mask_clean : HasNoMarker mask
unfolding contains starts_with
mask_clean = ground arith

redact_text_of_clean : (t : Text) → HasNoMarker t → redact_text t ≡ t
unfolding redact_text redact_string
redact_text_of_clean t h = rw (redact_markers_nothing (length t) markers t h)

-- A field's new value, by whether its name is sensitive.
IsClean-field :
    (b : Bool) (value : Value)
    → IsClean value
    → (if b
        then ((if b then string mask else value) ≡ string mask)
        else IsClean (if b then string mask else value))
IsClean-field true value h = refl
IsClean-field false value h = h

mutual
  unfolding IsClean redact_value

  IsClean-value : (value : Value) → IsClean (redact_value value)
  IsClean-value null = tt
  IsClean-value (boolean b) = tt
  IsClean-value (number n) = tt
  IsClean-value (string text) = redact_text_clean text
  IsClean-value (array values) = AreClean-items values
  IsClean-value (object map) = HasCleanFields-fields map

  AreClean-items : (values : Items) → AreClean (redact_items values)
  AreClean-items nil = tt
  AreClean-items (cons value values) = (IsClean-value value, AreClean-items values)

  HasCleanFields-fields : (map : Fields) → HasCleanFields (redact_fields map)
  HasCleanFields-fields end = tt
  HasCleanFields-fields (field key value map) = (
    IsClean-field (is_sensitive_key key) (redact_value value) (IsClean-value value),
    HasCleanFields-fields map,
  )

-- In what redact_value returns, no text has a marker in it, at any depth, and each field with a
-- sensitive name holds the mask. The names of the fields are not part of this, nor is what is written
-- to the journal beside a redacted value.
pub redact_value-IsClean : (value : Value) → IsClean (redact_value value)
redact_value-IsClean value = IsClean-value value

-- Redacting a redacted field once more.
masked_field :
    (b : Bool) (value : Value)
    → redact_value value ≡ value
    → (if b then string mask else redact_value (if b then string mask else value))
      ≡ (if b then string mask else value)
masked_field true value h = refl
masked_field false value h = h

mutual
  unfolding redact_value

  again_value : (value : Value) → redact_value (redact_value value) ≡ redact_value value
  again_value null = refl
  again_value (boolean b) = refl
  again_value (number n) = refl
  again_value (string text) =
      ap string (redact_text_of_clean (redact_text text) (redact_text_clean text))
  again_value (array values) = ap array (again_items values)
  again_value (object map) = ap object (again_fields map)

  again_items : (values : Items) → redact_items (redact_items values) ≡ redact_items values
  again_items nil = refl
  again_items (cons value values) = rw (again_value value, again_items values)

  again_fields : (map : Fields) → redact_fields (redact_fields map) ≡ redact_fields map
  again_fields end = refl
  again_fields (field key value map) = rw (
    masked_field (is_sensitive_key key) (redact_value value) (again_value value),
    again_fields map,
  )

-- Redaction is idempotent: a value that has been redacted is left alone.
pub redact_value_idempotent :
    (value : Value) → redact_value (redact_value value) ≡ redact_value value
redact_value_idempotent value = again_value value
