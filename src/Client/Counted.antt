-- ===== src/Client/Counted.antt =====
-- Every permission of a profile that can be granted is described, and they are few: src/client.rs,
-- validated_requested_permissions and describe_permissions.
use spark_runner.Prelude.{
  ℕ, suc, ◌+◌, ◌≤◌, ◌≡◌, refl, ap, subst, Bool, true, false, ◌&&◌, List, [], ◌∷◌, Option, none,
  some, arith, leb, if◌then◌else◌, length, length-append, all,
}
use spark_runner.Prelude.Text.{Text, codes}
use spark_runner.Json.{
  Value, null, boolean, number, string, array, object, Fields, Items, get, field_get, bind,
  is_none_or, is_some_and, as_object, as_array, as_str, elements,
}
use spark_runner.Client.Permissions.{
  max_permission_entries, has_only_keys, file_system_keys, profile_keys, valid_network_permissions,
  valid_depth, among, text_field, items_in, is_text, valid_entry, few, valid_permission_entries,
  valid_paths, file_system_allows, valid_file_system_permissions, permission_entry_count,
  profile_allows, count_in, accesses, validated_profile, validated_requested_permissions, null_or,
}
use spark_runner.Client.Exposed.{
  Described, Descriptor, push_entry, describe_entry, push_path, describe_all, describe_paths,
  describe_file_system, describe_permissions,
}
use spark_runner.Client.Described.{is_some, and-left, and-right, text_is_some, describe_path_some}

push_entry-counts :
    (found : Descriptor) (access : Option Text) (described : Option Described)
    → is_some access ≡ true
    → is_some described ≡ true
    → length (push_entry found access described).0 ≡ suc (length found.0)
push_entry-counts (found, ok) none d h k = cc
push_entry-counts (found, ok) (some a) none h k = cc
push_entry-counts (found, ok) (some a) (some (p, safe)) h k =
    omega (arith, length-append found (_ ∷ []))

test_is_some :
    {A : Type 0} (o : Option A) (p : A → Bool) → is_some_and o p ≡ true → is_some o ≡ true
test_is_some none p h = cc
test_is_some (some a) p h = refl

entry-counts :
    (found : Descriptor) (entry : Value)
    → valid_entry entry ≡ true
    → length (describe_entry found entry).0 ≡ suc (length found.0)
unfolding get
entry-counts found (object f) h =
    let valid = and-right _ _ h in
    push_entry-counts found (text_field f (codes "access")) _
      (test_is_some (text_field f (codes "access")) (among accesses) (and-left _ _ valid))
      (describe_path_some _ (and-right _ _ valid))
entry-counts found null h = cc
entry-counts found (boolean b) h = cc
entry-counts found (number n) h = cc
entry-counts found (string t) h = cc
entry-counts found (array a) h = cc

path-counts :
    (access : Text) (found : Descriptor) (o : Option Text)
    → is_some o ≡ true
    → length (push_path access found o).0 ≡ suc (length found.0)
path-counts access (found, ok) none h = cc
path-counts access (found, ok) (some t) h = omega (arith, length-append found (_ ∷ []))

describe_all-counts :
    (f : Descriptor → Value → Descriptor) (p : Value → Bool)
    → ((found : Descriptor) (v : Value) → p v ≡ true → length (f found v).0 ≡ suc (length found.0))
    → (vs : List Value) (found : Descriptor) → all p vs ≡ true
    → length (describe_all f found vs).0 ≡ length found.0 + length vs
describe_all-counts f p step [] found h = omega arith
describe_all-counts f p step (v ∷ vs) found h = omega (
  arith,
  describe_all-counts f p step vs (f found v) (and-right (p v) (all p vs) h),
  step found v (and-left (p v) (all p vs) h),
)

-- The items of an array that a test of the file system admits.
admitted_items :
    (o : Option Value) (valid p : Value → Bool)
    → ((items : Items) → valid (array items) ≡ true → all p (elements items) ≡ true)
    → null_or o valid ≡ true
    → all p (items_in (bind o as_array)) ≡ true
admitted_items none valid p step h = refl
admitted_items (some (array a)) valid p step h = step a h
admitted_items (some null) valid p step h = refl
admitted_items (some (boolean b)) valid p step h = refl
admitted_items (some (number n)) valid p step h = refl
admitted_items (some (string t)) valid p step h = refl
admitted_items (some (object f)) valid p step h = refl

few-right : (items : Items) (p : Value → Bool) → few items p ≡ true → all p (elements items) ≡ true
few-right items p h = and-right _ _ h

entries_admitted :
    (items : Items)
    → valid_permission_entries (array items) ≡ true
    → all valid_entry (elements items) ≡ true
unfolding valid_permission_entries
entries_admitted items h = few-right items valid_entry h

describe_paths-counts :
    (access : Text) (vs : List Value) (found : Descriptor)
    → all is_text vs ≡ true
    → length (describe_paths access found vs).0 ≡ length found.0 + length vs
describe_paths-counts access vs found h =
    describe_all-counts (λ g path. push_path access g (as_str path)) is_text
      (λ g v e. path-counts access g (as_str v) (text_is_some v e)) vs found h

parts :
    (a b c d e : Bool) → (a && (b && (c && (d && e)))) ≡ true → (b ≡ true) × (d ≡ true) × (e ≡ true)
parts a b c d e h = (ground (arith, h), ground (arith, h), ground (arith, h))

file_system-counts :
    (fs : Fields)
    → file_system_allows fs ≡ true
    → length (describe_file_system (some fs)).0 ≡ count_in (some fs)
file_system-counts fs h =
    let entries = field_get fs (codes "entries") in
    let reads = field_get fs (codes "read") in
    let writes = field_get fs (codes "write") in
    let (e, r, w) =
      parts (has_only_keys fs file_system_keys) (null_or entries valid_permission_entries)
        (null_or (field_get fs (codes "globScanMaxDepth")) valid_depth) (null_or reads valid_paths)
        (null_or writes valid_paths) h in
    let es = items_in (bind entries as_array) in
    let rs = items_in (bind reads as_array) in
    let ws = items_in (bind writes as_array) in
    let listed = λ (o : Option Value) (p : null_or o valid_paths ≡ true).
      admitted_items o valid_paths is_text (λ items. few-right items is_text) p in
    let found = describe_all describe_entry ([], true) es in
    omega (
      arith,
      describe_all-counts describe_entry valid_entry entry-counts es ([], true)
          (admitted_items entries valid_permission_entries valid_entry entries_admitted e),
      describe_paths-counts (codes "read") rs found (listed reads r),
      describe_paths-counts (codes "write") ws (describe_paths (codes "read") found rs)
          (listed writes w),
    )

profile-counts :
    (o : Option Value)
    → is_none_or o valid_file_system_permissions ≡ true
    → length (describe_file_system (bind o as_object)).0 ≡ count_in (bind o as_object)
unfolding valid_file_system_permissions
profile-counts none h = refl
profile-counts (some (object f)) h = file_system-counts f h
profile-counts (some null) h = refl
profile-counts (some (boolean b)) h = refl
profile-counts (some (number n)) h = refl
profile-counts (some (string t)) h = refl
profile-counts (some (array a)) h = refl

-- What a profile that is granted has, by the fields of it.
abbrev pub IsDescribed : Value → Type 0
IsDescribed profile =
    (fields : Fields) × (profile ≡ object fields)
    × (length (describe_permissions profile).0.file_system ≡ permission_entry_count fields)
    × (permission_entry_count fields ≤ max_permission_entries)

few_fit : (a b c : Bool) (n : ℕ) → (a && (b && (c && leb n 16))) ≡ true → n ≤ 16
few_fit a b c n h = ground (arith, h)

allowed-IsDescribed : (fields : Fields) → profile_allows fields ≡ true → IsDescribed (object fields)
unfolding describe_permissions permission_entry_count get
allowed-IsDescribed fields h = (
  fields,
  refl,
  profile-counts (field_get fields (codes "fileSystem"))
      (and-left _ _ (and-right (has_only_keys fields profile_keys) _ h)),
  few_fit (has_only_keys fields profile_keys)
      (is_none_or (field_get fields (codes "fileSystem")) valid_file_system_permissions)
      (is_none_or (field_get fields (codes "network")) valid_network_permissions)
      (permission_entry_count fields) h,
)

chosen : (b : Bool) (v w : Value) → (if b then some v else none) ≡ some w → (b ≡ true) × (v ≡ w)
chosen true v w h = (refl, cc)
chosen false v w h = cc

chosen-IsDescribed :
    (fields : Fields) (profile : Value)
    → (if profile_allows fields then some (object fields) else none) ≡ some profile
    → (object fields ≡ profile) × IsDescribed profile
chosen-IsDescribed fields profile h =
    let (allowed, same) = chosen (profile_allows fields) (object fields) profile h in
    (same, subst IsDescribed same (allowed-IsDescribed fields allowed))

object-IsDescribed :
    (value profile : Value)
    → bind (as_object value) (λ f. if profile_allows f then some (object f) else none)
      ≡ some profile
    → (value ≡ profile) × IsDescribed profile
object-IsDescribed (object f) profile h = chosen-IsDescribed f profile h
object-IsDescribed null profile h = cc
object-IsDescribed (boolean b) profile h = cc
object-IsDescribed (number n) profile h = cc
object-IsDescribed (string t) profile h = cc
object-IsDescribed (array a) profile h = cc

guarded : (b : Bool) (o : Option Value) (v : Value) → (if b then o else none) ≡ some v → o ≡ some v
guarded true o v h = h
guarded false o v h = cc

requested-IsDescribed :
    (encoded_len : Value → Option ℕ) (o : Option Value) (profile : Value)
    → bind o (validated_profile encoded_len) ≡ some profile
    → (o ≡ some profile) × IsDescribed profile
requested-IsDescribed encoded_len none profile h = cc
requested-IsDescribed encoded_len (some v) profile h =
    let (same, described) = object-IsDescribed v profile (guarded _ _ profile h) in
    (ap some same, described)

-- A profile that can be granted is the one requested, and is described with no omission: the reviewer
-- sees one line for each of its file system permissions, and these are at most 16.
pub validated_requested_permissions-IsDescribed :
    (encoded_len : Value → Option ℕ) (params profile : Value)
    → validated_requested_permissions encoded_len params ≡ some profile
    → (get params (codes "permissions") ≡ some profile) × IsDescribed profile
unfolding validated_requested_permissions
validated_requested_permissions-IsDescribed encoded_len params profile h =
    requested-IsDescribed encoded_len (get params (codes "permissions")) profile h
