-- ===== src/Client/Handle.antt =====
-- The answer to a server request: src/client.rs, handle_server_request_parts,
-- dispatch_server_request_during_call, handle_auth_refresh and append_external_approval_decision.
use spark_runner.Prelude.{
  ◌^◌, Bool, true, false, not, ◌||◌, List, [], ◌∷◌, ◌++◌, Option, none, some, ltb, if◌then◌else◌,
}
use spark_runner.Prelude.Exec.{Result, ok, err, Exec, ◌>>◌, pure, throw, modify}
use spark_runner.Prelude.Text.{Text, codes, text_eq}
use spark_runner.Json.{
  unwrap_or_null, Value, null, string, object, field, end, Number, natural, negative, real, get,
  bind, as_str, as_number,
}
use spark_runner.Session.{
  SessionState, StateError, Method, poison, ApprovalDecision, allow, deny, timeout,
}
use spark_runner.Journal.{
  JournalEvent, approval_requested, approval_decided, ApprovalTerminalDecision, allowed, denied,
  timed_out,
}
use spark_runner.Client.Seen.{SeenApprovals, SeenError, insert}
use spark_runner.Client.Request.{given}

pub data ClientError : Type 0 where
  missing_server_request_id unknown_server_request session_poisoned : ClientError
  auth_tokens_refresh_unavailable wire_failed : ClientError
  duplicate_approval : Text → ClientError
  state_error : StateError → ClientError

-- The codes -32601, -32602 and -32000.
pub data ErrorCode : Type 0 where
  method_not_found invalid_refresh_request refresh_unavailable : ErrorCode

pub data Written : Type 0 where
  result : Value → Value → Written
  failure : Value → ErrorCode → Written

pub data ApprovalPolicy : Type 0 where
  deny_all allow_for_tests : ApprovalPolicy
  external : Option Text → ApprovalPolicy

pub data AuthRefreshPolicy : Type 0 where
  unavailable provider : AuthRefreshPolicy

pub record AuthRefreshResponse : Type 0 where
  pub access_token : Text
  pub chatgpt_account_id : Text
  pub chatgpt_plan_type : Option Text

-- What the client keeps, and what it has handed to the writer, the journal and the owner so far.
pub record Live : Type 0 where
  pub state : SessionState
  pub seen : SeenApprovals
  pub sent : List Written
  pub recorded : List JournalEvent
  pub acknowledged : List Bool

-- What others do while one request is handled: whether the journal takes the request and the decision,
-- whether the owner takes it over, what it decides in time, whether the write succeeds, and what the
-- token provider answers in time.
pub record World : Type 0 where
  pub request_recorded : Bool
  pub handed_over : Bool
  pub decided : Option ApprovalDecision
  pub decision_recorded : Bool
  pub written : Bool
  pub refreshed : Option AuthRefreshResponse

abbrev pub Step : Type 0 → Type 0
Step A = Exec Live ClientError A

abbrev pub from_session : Result StateError (Unit {0}) → Result ClientError (Unit {0})
from_session (ok u) = ok u
from_session (err e) = err (state_error e)

abbrev pub in_session : Method → Step (Unit {0})
in_session method l = (from_session (method l.state).0, record l { state = (method l.state).1 })

abbrev pub poison_session : Live → Live
poison_session l = record l { state = poison l.state }

abbrev pub from_seen : Result SeenError Bool → Result ClientError Bool
from_seen (ok b) = ok b
from_seen (err e) = err session_poisoned

abbrev pub mark_seen : Text → Step Bool
mark_seen key l = (from_seen (insert l.seen key).0, record l { seen = (insert l.seen key).1 })

abbrev pub send : Bool → Written → Step (Unit {0})
send written message l =
    (if written then ok tt else err wire_failed, record l { sent = l.sent ++ (message ∷ []) })

abbrev pub acknowledge : Bool → Bool → Live → Live
acknowledge waiting delivered l =
    if waiting then record l { acknowledged = l.acknowledged ++ (delivered ∷ []) } else l

abbrev pub append_event : Bool → JournalEvent → Step (Unit {0})
append_event taken event l =
    if taken
    then (ok tt, record l { recorded = l.recorded ++ (event ∷ []) })
    else (err session_poisoned, l)

-- `as_str().is_some() || as_i64().is_some()`
abbrev pub fits_i64 : Option Number → Bool
fits_i64 none = false
fits_i64 (some (natural n)) = ltb n (2 ^ 63)
fits_i64 (some (negative n)) = true
fits_i64 (some (real text)) = false

abbrev pub is_request_id : Value → Bool
is_request_id value = given (as_str value) || fits_i64 (as_number value)

abbrev pub request_id : Option Value → Option Value
request_id none = none
request_id (some id) = if is_request_id id then some id else none

abbrev pub text_or_empty : Option Text → Text
text_or_empty none = []
text_or_empty (some text) = text

abbrev pub or_else : Option Text → Option Text → Option Text
or_else none other = other
or_else (some text) other = some text

abbrev pub refresh_method : Text
refresh_method = codes "account/chatgptAuthTokens/refresh"

abbrev pub plan_value : Option Text → Value
plan_value none = null
plan_value (some plan) = string plan

abbrev pub token_answer : AuthRefreshResponse → Value
token_answer r = object (
    field (codes "accessToken") (string r.access_token) (
      field (codes "chatgptAccountId") (string r.chatgpt_account_id)
        (field (codes "chatgptPlanType") (plan_value r.chatgpt_plan_type) end)))

abbrev pub refused_refresh : World → Value → ErrorCode → Step (Unit {0})
refused_refresh w id code = do
  send w.written (failure id code)
  modify poison_session
  throw auth_tokens_refresh_unavailable

abbrev pub refresh_with : World → Value → Option AuthRefreshResponse → Step (Unit {0})
refresh_with w id none = refused_refresh w id refresh_unavailable
refresh_with w id (some response) = send w.written (result id (token_answer response))

abbrev pub provided : World → AuthRefreshPolicy → Option AuthRefreshResponse
provided w unavailable = none
provided w provider = w.refreshed

abbrev pub is_unauthorized : Value → Bool
is_unauthorized params =
    text_eq (text_or_empty (bind (get params (codes "reason")) as_str)) (codes "unauthorized")

unfoldable pub handle_auth_refresh : World → AuthRefreshPolicy → Value → Value → Step (Unit {0})
unfolding get text_eq poison
handle_auth_refresh w policy id message =
    if not (is_unauthorized (unwrap_or_null (get message (codes "params"))))
    then refused_refresh w id invalid_refresh_request
    else refresh_with w id (provided w policy)

abbrev pub terminal_decision : ApprovalDecision → ApprovalTerminalDecision
terminal_decision allow = allowed
terminal_decision deny = denied
terminal_decision timeout = timed_out

unfoldable pub append_external_approval_decision :
    World → ApprovalPolicy → Text → Text → ApprovalDecision → Step (Unit {0})
append_external_approval_decision w deny_all key method d = pure tt
append_external_approval_decision w allow_for_tests key method d = pure tt
append_external_approval_decision w (external none) key method d = pure tt
append_external_approval_decision w (external (some id)) key method d =
    append_event w.decision_recorded (approval_decided id key method (terminal_decision d))

abbrev pub append_request : World → Option Text → Text → Text → Step (Unit {0})
append_request w none key method = pure tt
append_request w (some id) key method =
    append_event w.request_recorded (approval_requested id key method)
