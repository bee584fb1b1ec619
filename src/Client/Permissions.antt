-- ===== src/Client/Permissions.antt =====
-- Which permission profiles can be granted: src/client.rs, validated_requested_permissions and the
-- validators that it calls.
use spark_runner.Prelude.{
  ℕ, ◌+◌, ◌*◌, ◌==◌, Bool, true, false, ◌&&◌, ◌||◌, List, [], ◌∷◌, Option, none, some, ltb, leb,
  if◌then◌else◌, length, all,
}
use spark_runner.Prelude.Text.{Text, codes, text_eq}
use spark_runner.Json.{
  unwrap_or_null, Value, object, Fields, Items, Number, natural, negative, real, get, field_get,
  bind, is_none_or, is_some_and, is_null, as_object, as_array, as_str, as_bool, as_number, keys,
  elements,
}

abbrev pub max_approval_text : ℕ
max_approval_text = 160

abbrev pub max_permission_profile_bytes : ℕ
max_permission_profile_bytes = 8 * 1024

abbrev pub max_permission_entries : ℕ
max_permission_entries = 16

unfoldable pub among : List Text → Text → Bool
among [] key = false
among (name ∷ names) key = text_eq key name || among names key

-- No key but those allowed.
abbrev pub has_only_keys : Fields → List Text → Bool
has_only_keys fields allowed = all (among allowed) (keys fields)

abbrev pub null_or : Option Value → (Value → Bool) → Bool
null_or value p = is_none_or value (λ v. is_null v || p v)

-- A text that fits the limit of what is shown.
abbrev pub is_text : Value → Bool
is_text value = is_some_and (as_str value) (λ text. leb (length text) max_approval_text)

abbrev pub has_text : Fields → Text → Bool
has_text fields name = is_some_and (field_get fields name) is_text

abbrev pub null_or_text : Fields → Text → Bool
null_or_text fields name = null_or (field_get fields name) is_text

-- `as_u64().is_some_and(|depth| depth > 0)`
abbrev pub is_positive : Number → Bool
is_positive (natural n) = ltb 0 n
is_positive (negative n) = false
is_positive (real text) = false

abbrev pub text_field : Fields → Text → Option Text
text_field fields name = bind (field_get fields name) as_str

-- The match on the kind of a special path.
abbrev pub special_kind_allows : Fields → Text → Bool
special_kind_allows path kind =
    if among (codes "root" ∷ codes "minimal" ∷ codes "tmpdir" ∷ codes "slash_tmp" ∷ []) kind
    then length (keys path) == 1
    else if text_eq kind (codes "project_roots")
    then has_only_keys path (codes "kind" ∷ codes "subpath" ∷ [])
      && null_or_text path (codes "subpath")
    else if text_eq kind (codes "unknown")
    then has_only_keys path (codes "kind" ∷ codes "path" ∷ codes "subpath" ∷ [])
      && (has_text path (codes "path") && null_or_text path (codes "subpath"))
    else false

abbrev pub special_fields_allow : Fields → Bool
special_fields_allow path = is_some_and (text_field path (codes "kind")) (special_kind_allows path)

unfoldable pub valid_special_permission_path : Value → Bool
unfolding among field_get keys text_eq
valid_special_permission_path value = is_some_and (as_object value) special_fields_allow

-- The match on the type of a path.
abbrev pub path_type_allows : Fields → Text → Bool
path_type_allows path kind =
    if text_eq kind (codes "path")
    then has_only_keys path (codes "type" ∷ codes "path" ∷ []) && has_text path (codes "path")
    else if text_eq kind (codes "glob_pattern")
    then has_only_keys path (codes "type" ∷ codes "pattern" ∷ []) && has_text path (codes "pattern")
    else if text_eq kind (codes "special")
    then has_only_keys path (codes "type" ∷ codes "value" ∷ [])
      && is_some_and (field_get path (codes "value")) valid_special_permission_path
    else false

abbrev pub path_fields_allow : Fields → Bool
path_fields_allow path = is_some_and (text_field path (codes "type")) (path_type_allows path)

unfoldable pub valid_permission_path : Value → Bool
unfolding valid_special_permission_path among field_get keys text_eq
valid_permission_path value = is_some_and (as_object value) path_fields_allow

abbrev pub accesses : List Text
accesses = codes "read" ∷ codes "write" ∷ codes "deny" ∷ []

abbrev pub entry_allows : Fields → Bool
entry_allows entry =
    has_only_keys entry (codes "access" ∷ codes "path" ∷ [])
    && (is_some_and (text_field entry (codes "access")) (among accesses)
        && valid_permission_path (unwrap_or_null (field_get entry (codes "path"))))

abbrev pub valid_entry : Value → Bool
valid_entry entry = is_some_and (as_object entry) entry_allows

abbrev pub few : Items → (Value → Bool) → Bool
few items p = leb (length (elements items)) max_permission_entries && all p (elements items)

unfoldable pub valid_permission_entries : Value → Bool
unfolding valid_permission_path among field_get keys elements text_eq
valid_permission_entries value = is_some_and (as_array value) (λ entries. few entries valid_entry)

abbrev pub valid_paths : Value → Bool
valid_paths value = is_some_and (as_array value) (λ paths. few paths is_text)

abbrev pub valid_depth : Value → Bool
valid_depth value = is_some_and (as_number value) is_positive

abbrev pub file_system_keys : List Text
file_system_keys = codes "entries" ∷ codes "globScanMaxDepth" ∷ codes "read" ∷ codes "write" ∷ []

abbrev pub file_system_allows : Fields → Bool
file_system_allows fs =
    has_only_keys fs file_system_keys
    && (null_or (field_get fs (codes "entries")) valid_permission_entries
        && (null_or (field_get fs (codes "globScanMaxDepth")) valid_depth
            && (null_or (field_get fs (codes "read")) valid_paths
                && null_or (field_get fs (codes "write")) valid_paths)))

unfoldable pub valid_file_system_permissions : Value → Bool
unfolding valid_permission_entries among field_get keys elements text_eq
valid_file_system_permissions value =
    is_null value || is_some_and (as_object value) file_system_allows

abbrev pub is_boolean : Value → Bool
is_boolean value = is_some_and (as_bool value) (λ b. true)

abbrev pub network_allows : Fields → Bool
network_allows network =
    has_only_keys network (codes "enabled" ∷ [])
    && null_or (field_get network (codes "enabled")) is_boolean

unfoldable pub valid_network_permissions : Value → Bool
unfolding among field_get keys text_eq
valid_network_permissions value = is_null value || is_some_and (as_object value) network_allows

-- The items of a field that is an array.
abbrev pub items_in : Option Items → List Value
items_in none = []
items_in (some items) = elements items

abbrev pub items_of : Fields → Text → List Value
items_of fs name = items_in (bind (field_get fs name) as_array)

abbrev pub count_in : Option Fields → ℕ
count_in none = 0
count_in (some fs) =
    length (items_of fs (codes "entries"))
    + (length (items_of fs (codes "read")) + length (items_of fs (codes "write")))

unfoldable pub permission_entry_count : Fields → ℕ
unfolding field_get elements
permission_entry_count profile = count_in (bind (field_get profile (codes "fileSystem")) as_object)

abbrev pub profile_keys : List Text
profile_keys = codes "fileSystem" ∷ codes "network" ∷ []

abbrev pub profile_allows : Fields → Bool
profile_allows profile =
    has_only_keys profile profile_keys
    && (is_none_or (field_get profile (codes "fileSystem")) valid_file_system_permissions
        && (is_none_or (field_get profile (codes "network")) valid_network_permissions
            && leb (permission_entry_count profile) max_permission_entries))

-- `serde_json::to_vec` is a parameter: the bytes that a value is encoded in, none for an error.
module _ (encoded_len : Value → Option ℕ) where
  abbrev pub validated_profile : Value → Option Value
  validated_profile profile =
      if is_some_and (encoded_len profile) (λ n. leb n max_permission_profile_bytes)
      then bind (as_object profile)
          (λ fields. if profile_allows fields then some (object fields) else none)
      else none

  unfoldable pub validated_requested_permissions : Value → Option Value
  unfolding get
  validated_requested_permissions params = bind (get params (codes "permissions")) validated_profile
