-- ===== src/Client/Patch.antt =====
-- The changes of a patch that awaits approval: src/client.rs, exact_patch_text, optional_patch_path and
-- the loop of from_request over them.
use spark_runner.Prelude.{
  ℕ, ◌+◌, ◌*◌, Bool, true, false, ◌&&◌, ◌||◌, List, [], ◌∷◌, ◌++◌, Option, none, some, leb,
  if◌then◌else◌, u64_max,
}
use spark_runner.Prelude.Text.{Text, codes, text_eq, byte_len}
use spark_runner.Json.{
  Value, null, boolean, number, string, array, object, Fields, end, field, field_get, as_object,
}
use spark_runner.Client.Sanitize.{sanitize_approval_text, approval_text_is_reviewable}
use spark_runner.Client.Permissions.{max_approval_text, among, text_field, has_only_keys}

abbrev pub max_approval_list_items : ℕ
max_approval_list_items = 16

abbrev pub max_approval_patch_bytes : ℕ
max_approval_patch_bytes = 8 * 1024

pub record ApprovalFileChange : Type 0 where
  pub path : Text
  pub operation : Text
  pub move_path : Option Text
  pub content : Option Text
  pub unified_diff : Option Text

abbrev pub contains_key : Fields → Text → Bool
contains_key end name = false
contains_key (field key value fields) name = text_eq name key || contains_key fields name

abbrev pub has_exact_keys : Fields → List Text → Bool
has_exact_keys change allowed = has_only_keys change allowed && contains_key change (codes "type")

-- An optional text as it is shown, and whether it is shown exactly.
abbrev pub Shown : Type 0
Shown = Option Text × Bool

abbrev pub optional_text : ℕ → Option Value → Shown
optional_text limit none = (none, true)
optional_text limit (some null) = (none, true)
optional_text limit (some (string value)) =
    (some (sanitize_approval_text value limit), approval_text_is_reviewable value limit)
optional_text limit (some (boolean b)) = (none, false)
optional_text limit (some (number n)) = (none, false)
optional_text limit (some (array a)) = (none, false)
optional_text limit (some (object f)) = (none, false)

abbrev pub optional_patch_path : Fields → Text → Shown
optional_patch_path change name = optional_text max_approval_text (field_get change name)

-- `checked_add`, which gives none above `usize::MAX`.
abbrev pub budgeted : Text → ℕ → Shown × ℕ
budgeted value total =
    if leb (total + byte_len value) u64_max
    then if leb (total + byte_len value) max_approval_patch_bytes
      then ((some value, true), total + byte_len value)
      else ((none, false), total)
    else ((none, false), total)

abbrev pub exact_text : Option Text → ℕ → Shown × ℕ
exact_text none total = ((none, false), total)
exact_text (some value) total = budgeted value total

abbrev pub exact_patch_text : Fields → Text → ℕ → Shown × ℕ
exact_patch_text change name total = exact_text (text_field change name) total

pub record PatchParts : Type 0 where
  pub content : Option Text
  pub unified_diff : Option Text
  pub move_path : Option Text
  pub change_reviewable : Bool

abbrev pub operations : List Text
operations = codes "add" ∷ codes "update" ∷ codes "delete" ∷ []

abbrev pub known_operation : Option Text → Option Text
known_operation none = none
known_operation (some kind) = if among operations kind then some kind else none

abbrev pub no_parts : PatchParts
no_parts = record {
  content = none;
  unified_diff = none;
  move_path = none;
  change_reviewable = false;
}

abbrev pub written : Fields → Shown × ℕ → PatchParts × ℕ
written change ((content, ok), total) = (
  record {
    content = content;
    unified_diff = none;
    move_path = none;
    change_reviewable = ok && has_exact_keys change (codes "type" ∷ codes "content" ∷ []);
  },
  total,
)

abbrev pub updated : Fields → Shown → Shown × ℕ → PatchParts × ℕ
updated change (move_path, move_ok) ((diff, ok), total) = (
  record {
    content = none;
    unified_diff = diff;
    move_path = move_path;
    change_reviewable =
        ok
        && (move_ok
            && has_exact_keys change
                (codes "type" ∷ codes "unified_diff" ∷ codes "move_path" ∷ []));
  },
  total,
)

-- The match on the operation, with the bytes copied so far.
abbrev pub patch_parts : Fields → Option Text → ℕ → PatchParts × ℕ
patch_parts change none total = (no_parts, total)
patch_parts change (some operation) total =
    if among (codes "add" ∷ codes "delete" ∷ []) operation
    then written change (exact_patch_text change (codes "content") total)
    else if text_eq operation (codes "update")
    then updated change (optional_patch_path change (codes "move_path"))
        (exact_patch_text change (codes "unified_diff") total)
    else (no_parts, total)

pub record PatchState : Type 0 where
  pub reviewable : Bool
  pub file_changes : List ApprovalFileChange
  pub patch_bytes : ℕ

abbrev pub shown_path : Text → Text
shown_path path = sanitize_approval_text path max_approval_text

abbrev pub unwrap_or_unknown : Option Text → Text
unwrap_or_unknown none = codes "unknown"
unwrap_or_unknown (some operation) = operation

abbrev pub is_known : Option Text → Bool
is_known none = false
is_known (some operation) = true

abbrev pub push_change : PatchState → Text → Option Text → PatchParts × ℕ → PatchState
push_change s path operation (parts, total) = record {
  reviewable =
      (s.reviewable && (is_known operation && approval_text_is_reviewable path max_approval_text))
      && parts.change_reviewable;
  file_changes =
      s.file_changes
      ++ (record {
        path = shown_path path;
        operation = unwrap_or_unknown operation;
        move_path = parts.move_path;
        content = parts.content;
        unified_diff = parts.unified_diff;
      }
          ∷ []);
  patch_bytes = total;
}

abbrev pub operation_of : Fields → Option Text
operation_of change = known_operation (text_field change (codes "type"))

-- One turn of the loop.
abbrev pub add_change : PatchState → Text → Option Fields → PatchState
add_change s path none = record {
  reviewable = false;
  file_changes =
      s.file_changes
      ++ (record {
        path = shown_path path;
        operation = codes "unknown";
        move_path = none;
        content = none;
        unified_diff = none;
      }
          ∷ []);
  patch_bytes = s.patch_bytes;
}
add_change s path (some change) =
    push_change s path (operation_of change)
      (patch_parts change (operation_of change) s.patch_bytes)

abbrev pub entries_of : Fields → List (Text × Value)
entries_of end = []
entries_of (field key value fields) = (key, value) ∷ entries_of fields

abbrev pub add_changes : PatchState → List (Text × Value) → PatchState
add_changes s [] = s
add_changes s ((path, change) ∷ rest) = add_changes (add_change s path (as_object change)) rest
