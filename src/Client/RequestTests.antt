-- ===== src/Client/RequestTests.antt =====
-- Concrete requests for approval: src/client.rs.
use spark_runner.Prelude.{ℕ, ◌≡◌, refl, true, List, [], ◌∷◌, Option, none, some}
use spark_runner.Prelude.Text.{
  Text, codes, text_eq, byte_len, is_control, to_ascii_lowercase, starts_with, contains,
  split_whitespace, is_whitespace, filter, join, ends_with, utf8_len,
}
use spark_runner.Json.{
  Value, string, array, object, Items, nil, cons, end, field, get, field_get, keys, elements,
}
use spark_runner.Session.{
  allow, SessionState, turn_active, turn_started, on_approval_requested, transition_turn,
  turn_allowed,
}
use spark_runner.Session
use spark_runner.Client.Handle.{
  Live, World, result, external, unavailable, append_external_approval_decision,
}
use spark_runner.Client.Serve.{
  handle_server_request_parts, dispatch_server_request_during_call, approval_request_key,
}
use spark_runner.Client.Verdict.{apply_patch_request}
use spark_runner.Client.Matrix.{apply_patch_method}
use spark_runner.Client.PatchExact.{ShowsPatch, patch-exact}
use spark_runner.Json.{Fields}
use spark_runner.Client.Answered.{WritesOnce}
use spark_runner.Client.Answers.{IsAnswered, handle_server_request_parts-IsAnswered}
use spark_runner.Client.Seen.{nothing_seen, insert, seen}
use spark_runner.Client.Sanitize.{
  sanitize_approval_text, sensitive_approval_word, approval_text_is_reviewable, shown_words, cut,
}
use spark_runner.Client.Permissions.{
  validated_requested_permissions, valid_file_system_permissions, permission_entry_count, among,
}
use spark_runner.Client.Exposed.{describe_permissions}
use spark_runner.Client.Counted.{IsDescribed, validated_requested_permissions-IsDescribed}
use spark_runner.Client.Matrix.{
  find_variant, approval_matrix_is_complete, exec_command_method, permissions_method,
}
use spark_runner.Client.Request.{common_descriptor, exec_request}
use spark_runner.Client.Verdict.{from_request, approval_response, permissions_request}
use spark_runner.Client.Informed.{
  ShowsProfile, ShowsArguments, grant_of, permissions-exact, exec-exact,
}

abbrev encoded : Value → Option ℕ
encoded value = some 100

abbrev profile : Value
profile = object (
    field (codes "fileSystem")
      (object (field (codes "read") (array (cons (string (codes "/src")) nil)) end)) end)

abbrev permission_params : Value
permission_params =
    object (field (codes "permissions") profile (field (codes "cwd") (string (codes "/src")) end))

validated_requested_permissions-IsDescribed_example :
    (get permission_params (codes "permissions") ≡ some profile) × IsDescribed profile
unfolding validated_requested_permissions valid_file_system_permissions get field_get text_eq keys
    among permission_entry_count elements
validated_requested_permissions-IsDescribed_example =
    validated_requested_permissions-IsDescribed encoded permission_params profile refl

permissions-exact_example :
    (granted : Value) × (approval_response encoded permissions_method allow (some permission_params)
      ≡ grant_of granted)
    × (get permission_params (codes "permissions") ≡ some granted)
    × ShowsProfile (from_request encoded permissions_method permission_params).0 granted
    × IsDescribed granted
unfolding from_request permissions_request common_descriptor find_variant
    approval_matrix_is_complete validated_requested_permissions valid_file_system_permissions get
    field_get text_eq keys among permission_entry_count elements describe_permissions
    sanitize_approval_text approval_text_is_reviewable split_whitespace shown_words cut join filter
    is_control is_whitespace sensitive_approval_word to_ascii_lowercase contains starts_with
    ends_with
permissions-exact_example = permissions-exact encoded permission_params refl

abbrev exec_params : Value
exec_params = object (
    field (codes "command") (array (cons (string (codes "ls")) nil))
      (field (codes "cwd") (string (codes "/src")) end))

exec-exact_example :
    (items : Items) × (parts : List Text) × (get exec_params (codes "command") ≡ some (array items))
    × ShowsArguments
        (from_request encoded exec_command_method exec_params).0
        exec_params
        items
        parts
unfolding from_request exec_request common_descriptor find_variant approval_matrix_is_complete get
    field_get text_eq keys among elements sanitize_approval_text approval_text_is_reviewable
    split_whitespace shown_words cut join filter is_control is_whitespace sensitive_approval_word
    to_ascii_lowercase contains starts_with ends_with
exec-exact_example = exec-exact encoded exec_params refl

abbrev exec_message : Value
exec_message = object (
    field (codes "method") (string exec_command_method)
      (field (codes "id") (string (codes "7")) (field (codes "params") exec_params end)))

abbrev agreeable : World
agreeable = record {
  request_recorded = true;
  handed_over = true;
  decided = some allow;
  decision_recorded = true;
  written = true;
  refreshed = none;
}

-- The session once a turn has started.
abbrev started : SessionState
started = record Session.new { worker = turn_active; turn = turn_started }

abbrev live : Live
live = record { state = started; seen = nothing_seen; sent = []; recorded = []; acknowledged = [] }

abbrev one_digit : Value → Text
one_digit value = codes "7"

abbrev same_text : Text → Text
same_text text = text

handle_server_request_parts-IsAnswered_example :
    WritesOnce
      (IsAnswered encoded one_digit same_text (external (some (codes "e"))) exec_message [])
      []
      (handle_server_request_parts encoded one_digit same_text agreeable
        (external (some (codes "e")))
        unavailable
        exec_message
        live).1
    × WritesOnce
        (IsAnswered encoded one_digit same_text (external (some (codes "e"))) exec_message [])
        []
        (dispatch_server_request_during_call encoded one_digit same_text agreeable
          (external (some (codes "e")))
          unavailable
          exec_message
          live).1
handle_server_request_parts-IsAnswered_example =
    handle_server_request_parts-IsAnswered encoded one_digit same_text agreeable
      (external (some (codes "e"))) unavailable exec_message live

-- The request above is allowed, and its answer is sent.
allowed_run :
    (handle_server_request_parts encoded one_digit same_text agreeable
      (external (some (codes "e")))
      unavailable
      exec_message
      live).1.sent
    ≡ result
        (string (codes "7"))
        (object (field (codes "decision") (string (codes "approved")) end))
      ∷ []
unfolding handle_server_request_parts from_request exec_request common_descriptor find_variant
    approval_matrix_is_complete get field_get text_eq keys among elements sanitize_approval_text
    approval_text_is_reviewable split_whitespace shown_words cut join filter is_control
    is_whitespace sensitive_approval_word to_ascii_lowercase contains starts_with ends_with insert
    seen byte_len utf8_len append_external_approval_decision approval_response on_approval_requested
    transition_turn turn_allowed approval_request_key Session.on_approval_decided Session.emit
    Session.internal_event_bytes
allowed_run = refl

abbrev patch_params : Value
patch_params = object (
    field (codes "fileChanges")
      (object (
        field (codes "a.txt")
          (object (
            field (codes "type") (string (codes "add"))
              (field (codes "content") (string (codes "x")) end)))
          end))
      end)

patch-exact_example :
    (changes : Fields) × (get patch_params (codes "fileChanges") ≡ some (object changes))
    × ShowsPatch (from_request encoded apply_patch_method patch_params).0 patch_params changes
unfolding from_request apply_patch_request common_descriptor find_variant
    approval_matrix_is_complete get field_get text_eq keys among elements sanitize_approval_text
    approval_text_is_reviewable split_whitespace shown_words cut join filter is_control
    is_whitespace sensitive_approval_word to_ascii_lowercase contains starts_with ends_with byte_len
    utf8_len
patch-exact_example = patch-exact encoded patch_params refl
