-- ===== src/Client/Exposed.antt =====
-- What a reviewer is shown of a permission profile: src/client.rs, describe_permissions and the
-- descriptions of paths.
use spark_runner.Prelude.{
  ℕ, Bool, true, false, ◌&&◌, List, [], ◌∷◌, ◌++◌, Option, none, some, if◌then◌else◌,
}
use spark_runner.Prelude.Text.{Text, codes, text_eq}
use spark_runner.Json.{
  unwrap_or_null, Value, Fields, Number, natural, negative, real, get, field_get, bind, is_none_or,
  as_object, as_str, as_bool, as_number,
}
use spark_runner.Client.Sanitize.{sanitize_approval_text, approval_text_is_reviewable}
use spark_runner.Client.Permissions.{max_approval_text, among, text_field, items_of}

pub record RequestedFileSystemPermission : Type 0 where
  pub access : Text
  pub kind : Text
  pub path : Option Text
  pub pattern : Option Text
  pub special_kind : Option Text
  pub subpath : Option Text

pub record RequestedPermissions : Type 0 where
  pub file_system : List RequestedFileSystemPermission
  pub network_enabled : Option Bool
  pub glob_scan_max_depth : Option ℕ

abbrev pub as_u64 : Number → Option ℕ
as_u64 (natural n) = some n
as_u64 (negative n) = none
as_u64 (real text) = none

abbrev pub Described : Type 0
Described = RequestedFileSystemPermission × Bool

abbrev pub shown : Text → Text
shown text = sanitize_approval_text text max_approval_text

abbrev pub reviewable_text : Text → Bool
reviewable_text text = approval_text_is_reviewable text max_approval_text

abbrev pub path_permission : Text → Text → RequestedFileSystemPermission
path_permission access path = record {
  access = access;
  kind = codes "path";
  path = some (shown path);
  pattern = none;
  special_kind = none;
  subpath = none;
}

abbrev pub pattern_permission : Text → RequestedFileSystemPermission
pattern_permission pattern = record {
  access = [];
  kind = codes "glob_pattern";
  path = none;
  pattern = some (shown pattern);
  special_kind = none;
  subpath = none;
}

abbrev pub map_text {ℓ} : {A : Type ℓ} → (Text → A) → Option Text → Option A
map_text f none = none
map_text f (some text) = some (f text)

abbrev pub special_kinds : List Text
special_kinds =
    codes "root"
    ∷ codes "minimal"
    ∷ codes "tmpdir"
    ∷ codes "slash_tmp"
    ∷ codes "project_roots"
    ∷ codes "unknown"
    ∷ []

-- The special kinds are described by their own names.
abbrev pub special_described : Fields → Text → Option Described
special_described value special =
    if among special_kinds special
    then some (
      record {
        access = [];
        kind = codes "special";
        path = map_text shown (text_field value (codes "path"));
        pattern = none;
        special_kind = some special;
        subpath = map_text shown (text_field value (codes "subpath"));
      },
      is_none_or (text_field value (codes "path")) reviewable_text
          && is_none_or (text_field value (codes "subpath")) reviewable_text,
    )
    else none

unfoldable pub describe_special_permission_path : Value → Option Described
unfolding among field_get sanitize_approval_text approval_text_is_reviewable
describe_special_permission_path value =
    bind (as_object value)
      (λ fields. bind (text_field fields (codes "kind")) (special_described fields))

abbrev pub path_described : Fields → Text → Option Described
path_described fields kind =
    if text_eq kind (codes "path")
    then map_text (λ t. (path_permission [] t, reviewable_text t))
        (text_field fields (codes "path"))
    else if text_eq kind (codes "glob_pattern")
    then map_text (λ t. (pattern_permission t, reviewable_text t))
        (text_field fields (codes "pattern"))
    else if text_eq kind (codes "special")
    then bind (field_get fields (codes "value")) describe_special_permission_path
    else none

unfoldable pub describe_permission_path : Value → Option Described
unfolding describe_special_permission_path text_eq field_get sanitize_approval_text
    approval_text_is_reviewable
describe_permission_path value =
    bind (as_object value)
      (λ fields. bind (text_field fields (codes "type")) (path_described fields))

abbrev pub with_access : Text → RequestedFileSystemPermission → RequestedFileSystemPermission
with_access access p = record {
  access = access;
  kind = p.kind;
  path = p.path;
  pattern = p.pattern;
  special_kind = p.special_kind;
  subpath = p.subpath;
}

-- What the loops have described so far, and whether all of it can be reviewed.
abbrev pub Descriptor : Type 0
Descriptor = List RequestedFileSystemPermission × Bool

abbrev pub push_entry : Descriptor → Option Text → Option Described → Descriptor
push_entry (file_system, reviewable) none described = (file_system, false)
push_entry (file_system, reviewable) (some access) none = (file_system, false)
push_entry (file_system, reviewable) (some access) (some (path, safe)) =
    (file_system ++ (with_access access path ∷ []), reviewable && safe)

abbrev pub describe_entry : Descriptor → Value → Descriptor
describe_entry found entry =
    push_entry found (bind (get entry (codes "access")) as_str)
      (describe_permission_path (unwrap_or_null (get entry (codes "path"))))

abbrev pub push_path : Text → Descriptor → Option Text → Descriptor
push_path access (file_system, reviewable) none = (file_system, false)
push_path access (file_system, reviewable) (some path) =
    (file_system ++ (path_permission access path ∷ []), reviewable && reviewable_text path)

abbrev pub describe_all : (Descriptor → Value → Descriptor) → Descriptor → List Value → Descriptor
describe_all f found [] = found
describe_all f found (v ∷ vs) = describe_all f (f found v) vs

abbrev pub describe_paths : Text → Descriptor → List Value → Descriptor
describe_paths access = describe_all (λ found path. push_path access found (as_str path))

abbrev pub describe_file_system : Option Fields → Descriptor
describe_file_system none = ([], true)
describe_file_system (some fs) =
    describe_paths (codes "write")
      (describe_paths (codes "read")
        (describe_all describe_entry ([], true) (items_of fs (codes "entries")))
        (items_of fs (codes "read")))
      (items_of fs (codes "write"))

abbrev pub described_file_system : Value → Descriptor
described_file_system profile =
    describe_file_system (bind (get profile (codes "fileSystem")) as_object)

abbrev pub pointer : Value → Text → Text → Option Value
pointer value outer inner = bind (get value outer) (λ v. get v inner)

unfoldable pub describe_permissions : Value → RequestedPermissions × Bool
unfolding get describe_permission_path sanitize_approval_text approval_text_is_reviewable field_get
describe_permissions profile = (
  record {
    file_system = (described_file_system profile).0;
    network_enabled = bind (pointer profile (codes "network") (codes "enabled")) as_bool;
    glob_scan_max_depth =
        bind (bind (pointer profile (codes "fileSystem") (codes "globScanMaxDepth")) as_number)
          as_u64;
  },
  (described_file_system profile).1,
)
