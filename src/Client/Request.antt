-- ===== src/Client/Request.antt =====
-- What a reviewer is shown of a request for approval, and whether it can be allowed: src/client.rs,
-- ApprovalDescriptor::from_request.
use spark_runner.Prelude.{
  ℕ, Bool, true, false, not, ◌&&◌, List, [], ◌∷◌, Option, none, some, leb, if◌then◌else◌, map,
  length, all,
}
use spark_runner.Prelude.Text.{Text, codes, text_eq}
use spark_runner.Json.{
  Value, Fields, Items, get, field_get, bind, is_some_and, is_null, as_object, as_array, as_str,
  elements,
}
use spark_runner.Client.Sanitize.{sanitize_approval_text, approval_text_is_reviewable}
use spark_runner.Client.Permissions.{max_approval_text, among, text_field, has_only_keys}
use spark_runner.Client.Exposed.{RequestedPermissions}
use spark_runner.Client.Matrix.{
  ApprovalSchemaMatrixEntry, approval_schema_variant, approval_matrix_is_complete,
  command_execution_method, exec_command_method, apply_patch_method, file_change_method,
  permissions_method,
}
use spark_runner.Client.Patch.{ApprovalFileChange, Shown, optional_text, max_approval_list_items}

abbrev pub max_approval_command : ℕ
max_approval_command = 512

pub record ApprovalNetworkApproval : Type 0 where
  pub host : Text
  pub protocol : Text

pub record ApprovalDescriptor : Type 0 where
  pub kind : Text
  pub reviewable : Bool
  pub command : Option Text
  pub command_arguments : Option (List Text)
  pub cwd : Option Text
  pub environment_id : Option Text
  pub network_approval : Option ApprovalNetworkApproval
  pub reason : Option Text
  pub file_changes : List ApprovalFileChange
  pub requested_permissions : Option RequestedPermissions
  pub requested_permission_profile : Option Value
  pub permission_grant_scope : Option Text
  pub strict_auto_review : Option Bool

abbrev pub approval_kind : Text → Text
approval_kind method =
    if among (command_execution_method ∷ exec_command_method ∷ []) method
    then codes "command"
    else if among (file_change_method ∷ apply_patch_method ∷ []) method
    then codes "file_change"
    else if text_eq method permissions_method
    then codes "permissions"
    else codes "unknown"

abbrev pub has_non_null_field : Value → Text → Bool
has_non_null_field params name = is_some_and (get params name) (λ value. not (is_null value))

abbrev pub optional_approval_text : Value → Text → ℕ → Shown
optional_approval_text params name limit = optional_text limit (get params name)

abbrev pub protocols : List Text
protocols = codes "http" ∷ codes "https" ∷ codes "socks5Tcp" ∷ codes "socks5Udp" ∷ []

-- The known protocols are described by their own names.
abbrev pub network_of : Option Text → Option Text → Option ApprovalNetworkApproval × Bool
network_of none protocol = (none, false)
network_of (some host) none = (none, false)
network_of (some host) (some protocol) =
    if among protocols protocol
    then (
      some (record { host = sanitize_approval_text host max_approval_text; protocol = protocol }),
      approval_text_is_reviewable host max_approval_text,
    )
    else (none, false)

abbrev pub network_context : Option Fields → Option ApprovalNetworkApproval × Bool
network_context none = (none, false)
network_context (some context) =
    if has_only_keys context (codes "host" ∷ codes "protocol" ∷ [])
    then network_of (text_field context (codes "host")) (text_field context (codes "protocol"))
    else (none, false)

abbrev pub describe_network_approval : Option Value → Option ApprovalNetworkApproval × Bool
describe_network_approval none = (none, true)
describe_network_approval (some value) =
    if is_null value then (none, true) else network_context (as_object value)

abbrev pub params_have_only_schema_fields : Value → List Text → Bool
params_have_only_schema_fields params allowed =
    is_some_and (as_object params) (λ fields. has_only_keys fields allowed)

-- `is_some`
abbrev pub given {ℓ} : {A : Type ℓ} → Option A → Bool
given none = false
given (some a) = true

abbrev pub schema_allows : Value → Option ApprovalSchemaMatrixEntry → Bool
schema_allows params none = false
schema_allows params (some entry) =
    entry.allow_supported
    && (approval_matrix_is_complete entry
        && params_have_only_schema_fields params entry.schema_fields)

-- The descriptor before the match on the method.
unfoldable pub common_descriptor : Text → Value → ApprovalDescriptor
unfolding get text_eq among
common_descriptor method params =
    let cwd = optional_approval_text params (codes "cwd") max_approval_text in
    let reason = optional_approval_text params (codes "reason") max_approval_text in
    record {
      kind = approval_kind method;
      reviewable = (cwd.1 && reason.1) && schema_allows params (approval_schema_variant method);
      command = none;
      command_arguments = none;
      cwd = cwd.0;
      environment_id = none;
      network_approval = none;
      reason = reason.0;
      file_changes = [];
      requested_permissions = none;
      requested_permission_profile = none;
      permission_grant_scope = none;
      strict_auto_review = none;
    }

abbrev pub Verdict : Type 0
Verdict = ApprovalDescriptor × Bool

-- `descriptor.reviewable &= b`
abbrev pub requires : Bool → ApprovalDescriptor → ApprovalDescriptor
requires b d = record d { reviewable = d.reviewable && b }

-- The end of the function, and an early return that refuses.
abbrev pub permitted : ApprovalDescriptor → Verdict
permitted d = (d, d.reviewable)

abbrev pub refused : ApprovalDescriptor → Verdict
refused d = (record d { reviewable = false }, false)

unfoldable pub command_request : Value → ApprovalDescriptor → Verdict
unfolding get field_get
command_request params d =
    let command = optional_approval_text params (codes "command") max_approval_command in
    let environment = optional_approval_text params (codes "environmentId") max_approval_text in
    let network = describe_network_approval (get params (codes "networkApprovalContext")) in
    permitted (
      requires
        (not (has_non_null_field params (codes "proposedExecpolicyAmendment"))
          && not (has_non_null_field params (codes "proposedNetworkPolicyAmendments")))
        (requires (given d.cwd) (
          requires network.1 (
            requires environment.1 (
              requires (command.1 && given command.0) (record d {
                command = command.0;
                environment_id = environment.0;
                network_approval = network.0;
              }))))))

-- `collect::<Option<Vec<_>>>` of the texts.
abbrev pub cons_text : Option Text → Option (List Text) → Option (List Text)
cons_text none rest = none
cons_text (some text) none = none
cons_text (some text) (some rest) = some (text ∷ rest)

abbrev pub texts_of : List Value → Option (List Text)
texts_of [] = some []
texts_of (v ∷ vs) = cons_text (as_str v) (texts_of vs)

abbrev pub shown_argument : Text → Text
shown_argument part = sanitize_approval_text part max_approval_command

abbrev pub with_arguments : ApprovalDescriptor → Option (List Text) → Verdict
with_arguments d none = refused d
with_arguments d (some parts) = permitted (
    requires (given d.cwd) (
      requires (all (λ part. approval_text_is_reviewable part max_approval_command) parts)
        (record d { command_arguments = some (map shown_argument parts) })))

abbrev pub with_parts : ApprovalDescriptor → Option Items → Verdict
with_parts d none = refused d
with_parts d (some parts) =
    with_arguments (requires (leb (length (elements parts)) max_approval_list_items) d)
      (texts_of (elements parts))

unfoldable pub exec_request : Value → ApprovalDescriptor → Verdict
unfolding get elements sanitize_approval_text approval_text_is_reviewable
exec_request params d = with_parts d (bind (get params (codes "command")) as_array)
