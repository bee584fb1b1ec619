-- ===== src/Json.antt =====
-- `serde_json::Value`, by its variants, and the readers of it that the sources use.
use spark_runner.Prelude.{ℕ, Bool, true, false, List, [], ◌∷◌, Option, none, some, if◌then◌else◌}
use spark_runner.Prelude.Text.{Text, text_eq}

-- An integer n, or -1 - n, or a number that is no integer.
pub data Number : Type 0 where
  natural negative : ℕ → Number
  real : Text → Number

mutual
  pub data Value : Type 0 where
    null : Value
    boolean : Bool → Value
    number : Number → Value
    string : Text → Value
    array : Items → Value
    object : Fields → Value

  pub data Items : Type 0 where
    nil : Items
    cons : Value → Items → Items

  pub data Fields : Type 0 where
    end : Fields
    field : Text → Value → Fields → Fields

-- `Map::get`
unfoldable pub field_get : Fields → Text → Option Value
field_get end name = none
field_get (field key value fields) name =
    if text_eq name key then some value else field_get fields name

abbrev pub bind {ℓ κ} : {A : Type ℓ} {B : Type κ} → Option A → (A → Option B) → Option B
bind none f = none
bind (some a) f = f a

-- `is_some_and` and `is_none_or`
abbrev pub is_some_and {ℓ} : {A : Type ℓ} → Option A → (A → Bool) → Bool
is_some_and none p = false
is_some_and (some a) p = p a

abbrev pub is_none_or {ℓ} : {A : Type ℓ} → Option A → (A → Bool) → Bool
is_none_or none p = true
is_none_or (some a) p = p a

abbrev pub as_object : Value → Option Fields
as_object (object fields) = some fields
as_object null = none
as_object (boolean b) = none
as_object (number n) = none
as_object (string text) = none
as_object (array items) = none

abbrev pub as_array : Value → Option Items
as_array (array items) = some items
as_array null = none
as_array (boolean b) = none
as_array (number n) = none
as_array (string text) = none
as_array (object fields) = none

abbrev pub as_str : Value → Option Text
as_str (string text) = some text
as_str null = none
as_str (boolean b) = none
as_str (number n) = none
as_str (array items) = none
as_str (object fields) = none

abbrev pub as_bool : Value → Option Bool
as_bool (boolean b) = some b
as_bool null = none
as_bool (number n) = none
as_bool (string text) = none
as_bool (array items) = none
as_bool (object fields) = none

abbrev pub as_number : Value → Option Number
as_number (number n) = some n
as_number null = none
as_number (boolean b) = none
as_number (string text) = none
as_number (array items) = none
as_number (object fields) = none

abbrev pub is_null : Value → Bool
is_null null = true
is_null (boolean b) = false
is_null (number n) = false
is_null (string text) = false
is_null (array items) = false
is_null (object fields) = false

-- `Value::get` with a name
unfoldable pub get : Value → Text → Option Value
unfolding field_get
get value name = bind (as_object value) (λ fields. field_get fields name)

unfoldable pub keys : Fields → List Text
keys end = []
keys (field key value fields) = key ∷ keys fields

unfoldable pub values : Fields → List Value
values end = []
values (field key value fields) = value ∷ values fields

unfoldable pub elements : Items → List Value
elements nil = []
elements (cons value items) = value ∷ elements items

-- `unwrap_or(&Value::Null)`
abbrev pub unwrap_or_null : Option Value → Value
unwrap_or_null none = null
unwrap_or_null (some value) = value
