-- ===== src/Client/Serve.antt =====
-- A server request from the message to the end: src/client.rs, approval_request_key,
-- handle_server_request_parts and dispatch_server_request_during_call.
use spark_runner.Prelude.{
  ℕ, Bool, true, false, not, ◌&&◌, [], ◌∷◌, ◌++◌, Option, none, some, if◌then◌else◌,
}
use spark_runner.Prelude.Exec.{err, ◌>>=◌, ◌>>◌, pure, throw, modify}
use spark_runner.Prelude.Text.{Text, codes, text_eq}
use spark_runner.Json.{unwrap_or_null, Value, get, bind, as_str}
use spark_runner.Session.{
  on_approval_requested, on_approval_decided, ApprovalDecision, allow, deny, timeout, owner,
  is_allow,
}
use spark_runner.Client.Matrix.{approval_schema_variant, find_variant}
use spark_runner.Client.Request.{given}
use spark_runner.Client.Verdict.{from_request, approval_response}
use spark_runner.Client.Handle.{
  missing_server_request_id, unknown_server_request, duplicate_approval, wire_failed,
  method_not_found, Written, result, failure, ApprovalPolicy, deny_all, allow_for_tests, external,
  AuthRefreshPolicy, World, Step, in_session, poison_session, mark_seen, send, acknowledge,
  request_id, text_or_empty, or_else, refresh_method, handle_auth_refresh,
  append_external_approval_decision, append_request,
}

-- The decision, and whether somebody waits for its acknowledgement.
abbrev pub Decided : Type 0
Decided = ApprovalDecision × Bool

abbrev pub answered : Option ApprovalDecision → Decided
answered none = (timeout, false)
answered (some d) = (d, true)

-- The match on the policy, with the decision for a hand-over that fails.
abbrev pub obtain : ApprovalDecision → World → ApprovalPolicy → Text → Text → Step Decided
obtain refused w allow_for_tests key method = pure (allow, false)
obtain refused w deny_all key method = pure (deny, false)
obtain refused w (external receipt) key method = do
  append_request w receipt key method
  pure (if w.handed_over then answered w.decided else (refused, false))

-- An Allow of what cannot be allowed is a Deny.
abbrev pub restrict : ApprovalDecision → Bool → ApprovalDecision
restrict d allow_permitted = if is_allow d && not allow_permitted then deny else d

abbrev pub is_known_approval_method : Text → Bool
is_known_approval_method method = given (approval_schema_variant method)

-- The write of the response, which a waiting owner learns to have failed.
abbrev pub respond : World → Bool → Written → Step (Unit {0})
respond w waiting message l =
    if w.written
    then send true message l
    else (err wire_failed, acknowledge waiting false (send false message l).1)

abbrev pub call_method : Value → Text
call_method message = text_or_empty (bind (get message (codes "method")) as_str)

abbrev pub params_of : Value → Value
params_of message = unwrap_or_null (get message (codes "params"))

-- The standard library's hasher and `serde_json` are parameters: the bytes that a value is encoded in,
-- its text, and the digits of a text's hash.
module _ (encoded_len : Value → Option ℕ) (to_text : Value → Text) (hash_digits : Text → Text) where
  abbrev pub stable_id : Value → Text
  stable_id params = text_or_empty (
      or_else (bind (get params (codes "approvalId")) as_str) (
        or_else (bind (get params (codes "itemId")) as_str)
          (bind (get params (codes "callId")) as_str)))

  abbrev pub material : Value → Text → Text
  material id [] = to_text id
  material id (c ∷ stable) = c ∷ stable

  unfoldable pub approval_request_key : Text → Value → Value → Text
  unfolding get
  approval_request_key method id params =
      codes "approval:" ++ (method ++ (codes ":" ++ hash_digits (material id (stable_id params))))

  abbrev pub decision_of : Text → Value → ApprovalDecision → ApprovalDecision
  decision_of method params d = restrict d (from_request encoded_len method params).1

  abbrev pub response_of : Value → Text → Value → ApprovalDecision → Written
  response_of id method params d = result id (approval_response encoded_len method d (some params))

  -- The decision of a request that waits, its record, its response and its end.
  abbrev pub conclude :
      World → ApprovalPolicy → Value → Text → Value → Text → Decided → Step (Unit {0})
  conclude w policy id method params key (d, waiting) = do
    append_external_approval_decision w policy key method (decision_of method params d)
    respond w waiting (response_of id method params (decision_of method params d))
    in_session (on_approval_decided key method (decision_of method params d) owner)
    modify (acknowledge waiting true)

  -- The same during a call, where no session is at hand.
  abbrev pub conclude_call :
      World → ApprovalPolicy → Value → Text → Value → Text → Decided → Step (Unit {0})
  conclude_call w policy id method params key (d, waiting) = do
    append_external_approval_decision w policy key method (decision_of method params d)
    respond w waiting (response_of id method params (decision_of method params d))
    modify (acknowledge waiting true)

  abbrev pub new_request : World → ApprovalPolicy → Value → Text → Value → Text → Step (Unit {0})
  new_request w policy id method params key = do
    in_session (on_approval_requested key method)
    d ← obtain deny w policy key method
    conclude w policy id method params key d

  abbrev pub new_request_call :
      World → ApprovalPolicy → Value → Text → Value → Text → Step (Unit {0})
  new_request_call w policy id method params key = do
    d ← obtain timeout w policy key method
    conclude_call w policy id method params key d

  abbrev pub duplicate : World → Value → Text → Value → Text → Step (Unit {0})
  duplicate w id method params key = do
    send w.written (response_of id method params deny)
    modify poison_session
    throw (duplicate_approval key)

  abbrev pub duplicate_call : World → Value → Text → Value → Text → Step (Unit {0})
  duplicate_call w id method params key = do
    send w.written (response_of id method params deny)
    throw (duplicate_approval key)

  abbrev pub known_request : World → ApprovalPolicy → Value → Text → Value → Text → Step (Unit {0})
  known_request w policy id method params key = do
    first ← mark_seen key
    (if first then new_request w policy id method params key else duplicate w id method params key)

  abbrev pub known_request_call :
      World → ApprovalPolicy → Value → Text → Value → Text → Step (Unit {0})
  known_request_call w policy id method params key = do
    first ← mark_seen key
    (if first
        then new_request_call w policy id method params key
        else duplicate_call w id method params key)

  abbrev pub unknown_request : World → Value → Step (Unit {0})
  unknown_request w id = do
    send w.written (failure id method_not_found)
    modify poison_session
    throw unknown_server_request

  abbrev pub unknown_request_call : World → Value → Step (Unit {0})
  unknown_request_call w id = do
    send w.written (failure id method_not_found)
    throw unknown_server_request

  abbrev pub with_id :
      World → ApprovalPolicy → AuthRefreshPolicy → Value → Option Value → Step (Unit {0})
  with_id w policy refresh message none = throw missing_server_request_id
  with_id w policy refresh message (some id) =
      let method = call_method message in
      if text_eq method refresh_method
      then handle_auth_refresh w refresh id message
      else if not (is_known_approval_method method)
      then unknown_request w id
      else known_request w policy id method (params_of message)
          (approval_request_key method id (params_of message))

  unfoldable pub handle_server_request_parts :
      World → ApprovalPolicy → AuthRefreshPolicy → Value → Step (Unit {0})
  unfolding get text_eq find_variant handle_auth_refresh
  handle_server_request_parts w policy refresh message =
      with_id w policy refresh message (request_id (get message (codes "id")))

  -- The refresh during a call poisons a session that is thrown away.
  abbrev pub refresh_call : World → AuthRefreshPolicy → Value → Value → Step (Unit {0})
  refresh_call w refresh id message l =
      let r = handle_auth_refresh w refresh id message l in (r.0, record r.1 { state = l.state })

  abbrev pub with_id_call :
      World → ApprovalPolicy → AuthRefreshPolicy → Value → Option Value → Step (Unit {0})
  with_id_call w policy refresh message none = throw missing_server_request_id
  with_id_call w policy refresh message (some id) =
      let method = call_method message in
      if text_eq method refresh_method
      then refresh_call w refresh id message
      else if not (is_known_approval_method method)
      then unknown_request_call w id
      else known_request_call w policy id method (params_of message)
          (approval_request_key method id (params_of message))

  unfoldable pub dispatch_server_request_during_call :
      World → ApprovalPolicy → AuthRefreshPolicy → Value → Step (Unit {0})
  unfolding get text_eq find_variant handle_auth_refresh
  dispatch_server_request_during_call w policy refresh message =
      with_id_call w policy refresh message (request_id (get message (codes "id")))
