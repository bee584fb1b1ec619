-- ===== src/Client/Matrix.antt =====
-- The schema matrix of approvals: src/client.rs, APPROVAL_SCHEMA_MATRIX and what reads it.
use spark_runner.Prelude.{
  Bool, true, false, ◌||◌, List, [], ◌∷◌, ◌++◌, Option, none, some, ◌==◌, if◌then◌else◌, all,
}
use spark_runner.Prelude.Text.{Text, codes, text_eq, starts_with}

pub record ApprovalSchemaMatrixEntry : Type 0 where
  pub method : Text
  pub schema_fields : List Text
  pub descriptor_fields : List Text
  pub deny_allow_if_present : List Text
  pub unreviewable_authority : Option Text
  pub non_authority_fields : List Text
  pub allow_supported : Bool

abbrev pub command_execution_method : Text
command_execution_method = codes "item/commandExecution/requestApproval"

abbrev pub exec_command_method : Text
exec_command_method = codes "execCommandApproval"

abbrev pub apply_patch_method : Text
apply_patch_method = codes "applyPatchApproval"

abbrev pub file_change_method : Text
file_change_method = codes "item/fileChange/requestApproval"

abbrev pub permissions_method : Text
permissions_method = codes "item/permissions/requestApproval"

abbrev pub command_execution_entry : ApprovalSchemaMatrixEntry
command_execution_entry = record {
  method = command_execution_method;
  schema_fields =
      codes "turnId"
      ∷ codes "approvalId"
      ∷ codes "threadId"
      ∷ codes "command"
      ∷ codes "commandActions"
      ∷ codes "cwd"
      ∷ codes "environmentId"
      ∷ codes "itemId"
      ∷ codes "networkApprovalContext"
      ∷ codes "proposedExecpolicyAmendment"
      ∷ codes "proposedNetworkPolicyAmendments"
      ∷ codes "reason"
      ∷ codes "startedAtMs"
      ∷ [];
  descriptor_fields =
      codes "command"
      ∷ codes "cwd"
      ∷ codes "environmentId"
      ∷ codes "networkApprovalContext.host"
      ∷ codes "networkApprovalContext.protocol"
      ∷ codes "reason"
      ∷ [];
  deny_allow_if_present =
      codes "proposedExecpolicyAmendment" ∷ codes "proposedNetworkPolicyAmendments" ∷ [];
  unreviewable_authority = none;
  non_authority_fields =
      codes "approvalId"
      ∷ codes "itemId"
      ∷ codes "threadId"
      ∷ codes "turnId"
      ∷ codes "startedAtMs"
      ∷ codes "commandActions"
      ∷ [];
  allow_supported = true;
}

abbrev pub exec_command_entry : ApprovalSchemaMatrixEntry
exec_command_entry = record {
  method = exec_command_method;
  schema_fields =
      codes "approvalId"
      ∷ codes "callId"
      ∷ codes "command"
      ∷ codes "conversationId"
      ∷ codes "cwd"
      ∷ codes "parsedCmd"
      ∷ codes "reason"
      ∷ [];
  descriptor_fields = codes "command[]" ∷ codes "cwd" ∷ codes "reason" ∷ [];
  deny_allow_if_present = [];
  unreviewable_authority = none;
  non_authority_fields =
      codes "approvalId" ∷ codes "callId" ∷ codes "conversationId" ∷ codes "parsedCmd" ∷ [];
  allow_supported = true;
}

abbrev pub apply_patch_entry : ApprovalSchemaMatrixEntry
apply_patch_entry = record {
  method = apply_patch_method;
  schema_fields =
      codes "callId"
      ∷ codes "conversationId"
      ∷ codes "fileChanges"
      ∷ codes "grantRoot"
      ∷ codes "reason"
      ∷ [];
  descriptor_fields =
      codes "grantRoot"
      ∷ codes "fileChanges.<path>.type"
      ∷ codes "fileChanges.<path>.content"
      ∷ codes "fileChanges.<path>.unified_diff"
      ∷ codes "fileChanges.<path>.move_path"
      ∷ codes "reason"
      ∷ [];
  deny_allow_if_present = [];
  unreviewable_authority = none;
  non_authority_fields = codes "callId" ∷ codes "conversationId" ∷ [];
  allow_supported = true;
}

abbrev pub file_change_entry : ApprovalSchemaMatrixEntry
file_change_entry = record {
  method = file_change_method;
  schema_fields =
      codes "grantRoot"
      ∷ codes "itemId"
      ∷ codes "reason"
      ∷ codes "startedAtMs"
      ∷ codes "threadId"
      ∷ codes "turnId"
      ∷ [];
  descriptor_fields = codes "grantRoot" ∷ codes "reason" ∷ [];
  deny_allow_if_present = [];
  unreviewable_authority = some (codes "correlated FileChangeThreadItem.changes");
  non_authority_fields =
      codes "itemId" ∷ codes "threadId" ∷ codes "turnId" ∷ codes "startedAtMs" ∷ [];
  allow_supported = false;
}

abbrev pub permissions_entry : ApprovalSchemaMatrixEntry
permissions_entry = record {
  method = permissions_method;
  schema_fields =
      codes "cwd"
      ∷ codes "environmentId"
      ∷ codes "itemId"
      ∷ codes "permissions"
      ∷ codes "reason"
      ∷ codes "startedAtMs"
      ∷ codes "threadId"
      ∷ codes "turnId"
      ∷ [];
  descriptor_fields =
      codes "cwd"
      ∷ codes "environmentId"
      ∷ codes "permissions.fileSystem.entries"
      ∷ codes "permissions.fileSystem.globScanMaxDepth"
      ∷ codes "permissions.fileSystem.read"
      ∷ codes "permissions.fileSystem.write"
      ∷ codes "permissions.network.enabled"
      ∷ codes "response.scope"
      ∷ codes "response.strictAutoReview"
      ∷ codes "reason"
      ∷ [];
  deny_allow_if_present = [];
  unreviewable_authority = none;
  non_authority_fields =
      codes "itemId" ∷ codes "threadId" ∷ codes "turnId" ∷ codes "startedAtMs" ∷ [];
  allow_supported = true;
}

abbrev pub approval_schema_matrix : List ApprovalSchemaMatrixEntry
approval_schema_matrix =
    command_execution_entry ∷ exec_command_entry ∷ apply_patch_entry ∷ file_change_entry
    ∷ permissions_entry ∷ []

unfoldable pub find_variant :
    Text → List ApprovalSchemaMatrixEntry → Option ApprovalSchemaMatrixEntry
unfolding text_eq
find_variant method [] = none
find_variant method (entry ∷ rest) =
    if text_eq entry.method method then some entry else find_variant method rest

abbrev pub approval_schema_variant : Text → Option ApprovalSchemaMatrixEntry
approval_schema_variant method = find_variant method approval_schema_matrix

abbrev pub strip_prefix : Text → Text → Option Text
strip_prefix text [] = some text
strip_prefix [] (c ∷ prefix) = none
strip_prefix (a ∷ text) (c ∷ prefix) = if a == c then strip_prefix text prefix else none

abbrev pub opens_part : Option Text → Bool
opens_part none = false
opens_part (some suffix) = starts_with suffix (codes ".") || starts_with suffix (codes "[")

abbrev pub classifies : Text → Text → Bool
classifies field classification =
    text_eq classification field || opens_part (strip_prefix classification field)

abbrev pub any_classifies : Text → List Text → Bool
any_classifies field [] = false
any_classifies field (c ∷ cs) = classifies field c || any_classifies field cs

unfoldable pub approval_matrix_is_complete : ApprovalSchemaMatrixEntry → Bool
unfolding text_eq starts_with
approval_matrix_is_complete entry =
    all
      (λ field.
        any_classifies field
          (entry.descriptor_fields ++ (entry.deny_allow_if_present ++ entry.non_authority_fields)))
      entry.schema_fields
