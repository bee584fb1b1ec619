-- ===== src/Client/Verdict.antt =====
-- The requests that change files or permissions, and the whole of a request: src/client.rs,
-- ApprovalDescriptor::from_request and approval_response.
use spark_runner.Prelude.{
  ℕ, Bool, true, false, ◌&&◌, List, [], ◌∷◌, Option, none, some, leb, if◌then◌else◌, take, length,
}
use spark_runner.Prelude.Text.{Text, codes, text_eq}
use spark_runner.Json.{
  Value, boolean, string, array, object, Fields, nil, end, field, get, bind, as_object,
}
use spark_runner.Session.{ApprovalDecision, allow, deny, timeout}
use spark_runner.Client.Permissions.{max_approval_text, among, validated_requested_permissions}
use spark_runner.Client.Exposed.{describe_permissions}
use spark_runner.Client.Matrix.{
  ApprovalSchemaMatrixEntry, approval_schema_variant, command_execution_method, exec_command_method,
  apply_patch_method, file_change_method, permissions_method, find_variant,
}
use spark_runner.Client.Patch.{
  ApprovalFileChange, PatchState, add_changes, entries_of, max_approval_list_items,
}
use spark_runner.Client.Request.{
  ApprovalDescriptor, Verdict, requires, permitted, refused, optional_approval_text, given,
  common_descriptor, command_request, exec_request,
}

abbrev pub grant_root : Option Text → List ApprovalFileChange
grant_root none = []
grant_root (some root) =
    record {
      path = root;
      operation = codes "grant_root";
      move_path = none;
      content = none;
      unified_diff = none;
    }
    ∷ []

abbrev pub some_change : List ApprovalFileChange → Bool
some_change [] = false
some_change (c ∷ cs) = true

abbrev pub supports_allow : Option ApprovalSchemaMatrixEntry → Bool
supports_allow none = false
supports_allow (some entry) = entry.allow_supported

unfoldable pub file_change_request :
    Value → Option ApprovalSchemaMatrixEntry → ApprovalDescriptor → Verdict
unfolding get
file_change_request params schema d =
    let root = optional_approval_text params (codes "grantRoot") max_approval_text in
    permitted (
      requires (root.1 && (some_change (grant_root root.0) && supports_allow schema))
        (record d { file_changes = grant_root root.0 }))

abbrev pub with_changes : ApprovalDescriptor → Option Fields → Verdict
with_changes d none = refused d
with_changes d (some changes) =
    let start : PatchState = record {
      reviewable = d.reviewable && leb (length (entries_of changes)) max_approval_list_items;
      file_changes = d.file_changes;
      patch_bytes = 0;
    } in
    let s = add_changes start (take max_approval_list_items (entries_of changes)) in
    permitted (record d { reviewable = s.reviewable; file_changes = s.file_changes })

unfoldable pub apply_patch_request : Value → ApprovalDescriptor → Verdict
unfolding get
apply_patch_request params d =
    let root = optional_approval_text params (codes "grantRoot") max_approval_text in
    with_changes
      (record d { reviewable = d.reviewable && root.1; file_changes = grant_root root.0 })
      (bind (get params (codes "fileChanges")) as_object)

abbrev pub grants : ApprovalDescriptor → Value → ApprovalDescriptor
grants d profile =
    if d.reviewable
    then record d {
      requested_permission_profile = some profile;
      permission_grant_scope = some (codes "turn");
      strict_auto_review = some true;
    }
    else d

abbrev pub with_profile : ApprovalDescriptor → Option Value → Verdict
with_profile d none = refused d
with_profile d (some profile) =
    let described = describe_permissions profile in
    permitted (
      grants (requires described.1 (record d { requested_permissions = some described.0 })) profile)

abbrev pub empty_permission_profile : Value
empty_permission_profile = object (
    field (codes "fileSystem") (object (field (codes "entries") (array nil) end))
      (field (codes "network") (object (field (codes "enabled") (boolean false) end)) end))

abbrev pub decides : Text → Value
decides word = object (field (codes "decision") (string word) end)

abbrev pub item_decision : ApprovalDecision → Text
item_decision allow = codes "accept"
item_decision deny = codes "cancel"
item_decision timeout = codes "cancel"

abbrev pub legacy_decision : ApprovalDecision → Text
legacy_decision allow = codes "approved"
legacy_decision deny = codes "abort"
legacy_decision timeout = codes "timed_out"

abbrev pub or_empty : Option Value → Value
or_empty none = empty_permission_profile
or_empty (some profile) = profile

-- `serde_json::to_vec` is a parameter: the bytes that a value is encoded in, none for an error.
module _ (encoded_len : Value → Option ℕ) where
  unfoldable pub permissions_request : Value → ApprovalDescriptor → Verdict
  unfolding get validated_requested_permissions describe_permissions
  permissions_request params d =
      let environment = optional_approval_text params (codes "environmentId") max_approval_text in
      with_profile
        (requires (environment.1 && given d.cwd) (record d { environment_id = environment.0 }))
        (validated_requested_permissions encoded_len params)

  unfoldable pub from_request : Text → Value → Verdict
  unfolding text_eq find_variant common_descriptor command_request exec_request file_change_request
      apply_patch_request permissions_request
  from_request method params =
      let d = common_descriptor method params in
      if text_eq method command_execution_method
      then command_request params d
      else if text_eq method exec_command_method
      then exec_request params d
      else if text_eq method file_change_method
      then file_change_request params (approval_schema_variant method) d
      else if text_eq method apply_patch_method
      then apply_patch_request params d
      else if text_eq method permissions_method
      then permissions_request params d
      else permitted d

  abbrev pub granted : ApprovalDecision → Option Value → Value
  granted allow params = or_empty (bind params (validated_requested_permissions encoded_len))
  granted deny params = empty_permission_profile
  granted timeout params = empty_permission_profile

  unfoldable pub approval_response : Text → ApprovalDecision → Option Value → Value
  unfolding text_eq among validated_requested_permissions
  approval_response method decision params =
      if among (command_execution_method ∷ file_change_method ∷ []) method
      then decides (item_decision decision)
      else if among (exec_command_method ∷ apply_patch_method ∷ []) method
      then decides (legacy_decision decision)
      else if text_eq method permissions_method
      then object (
          field (codes "permissions") (granted decision params) (
            field (codes "scope") (string (codes "turn"))
              (field (codes "strictAutoReview") (boolean true) end)))
      else decides (codes "cancel")
