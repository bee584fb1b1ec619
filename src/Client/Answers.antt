-- ===== src/Client/Answers.antt =====
-- Every server request, from the message on: src/client.rs, handle_server_request_parts and
-- dispatch_server_request_during_call.
use spark_runner.Prelude.{
  ℕ, ◌≡◌, ◌⊎◌, inl, inr, refl, Bool, true, false, not, List, Option, none, some, if◌then◌else◌,
  Bool-cases,
}
use spark_runner.Prelude.Text.{Text, text_eq}
use spark_runner.Json.{Value, get}
use spark_runner.Journal.{JournalEvent}
use spark_runner.Client.Handle.{
  Written, ApprovalPolicy, AuthRefreshPolicy, Live, World, Step, request_id, is_request_id,
  handle_auth_refresh, refresh_method,
}
use spark_runner.Client.Serve.{
  call_method, params_of, known_request, unknown_request, with_id, handle_server_request_parts,
  is_known_approval_method, approval_request_key,
}
use spark_runner.Prelude.Text.{codes}
use spark_runner.Client.Seen.{seen}
use spark_runner.Client.Serve.{
  known_request_call, unknown_request_call, with_id_call, dispatch_server_request_during_call,
  refresh_call,
}
use spark_runner.Client.Answered.{WritesOnce}
use spark_runner.Client.Served.{IsAnswer}
use spark_runner.Client.Backed.{
  known_request-WritesOnce, known_request_call-WritesOnce, unknown_request-WritesOnce,
  unknown_request_call-WritesOnce, handle_auth_refresh-WritesOnce,
}

request_id-cases :
    (o : Option Value)
    → (request_id o ≡ none) ⊎ ((id : Value) × (request_id o ≡ some id) × (o ≡ some id))
request_id-cases none = inl refl
request_id-cases (some id) = elim (Bool-cases (is_request_id id)) [
  | inl e ↦ inr (id, rw e refl, refl)
  | inr e ↦ inl (rw e refl)
]

weaken-WritesOnce :
    (P Q : Written → List JournalEvent → Type 0) (before : List Written) (l : Live)
    → ((w : Written) (r : List JournalEvent) → P w r → Q w r)
    → WritesOnce P before l
    → WritesOnce Q before l
weaken-WritesOnce P Q before l f (inl e) = inl e
weaken-WritesOnce P Q before l f (inr (w, e, p)) = inr (w, e, f w l.recorded p)

-- A request is for tokens, or of an unknown method, or for an approval.
routed-WritesOnce :
    (P : Written → List JournalEvent → Type 0) (before : List Written) (renews known : Bool)
    (m n k : Step (Unit {0})) (l : Live)
    → (renews ≡ true → WritesOnce P before (m l).1)
    → WritesOnce P before (n l).1
    → WritesOnce P before (k l).1
    → WritesOnce P before ((if renews then m else if not known then n else k) l).1
routed-WritesOnce P before true known m n k l a b c = a refl
routed-WritesOnce P before false true m n k l a b c = c
routed-WritesOnce P before false false m n k l a b c = b

module _ (encoded_len : Value → Option ℕ) (to_text : Value → Text) (hash_digits : Text → Text) where
  abbrev pub key_of : Value → Value → Text
  key_of message id =
      approval_request_key encoded_len to_text hash_digits (call_method message) id
        (params_of message)

  -- An answer to the message, under its own id.
  abbrev pub IsAnswered : ApprovalPolicy → Value → List Text → Written → List JournalEvent → Type 0
  IsAnswered policy message known w recorded =
      (id : Value) × (get message (codes "id") ≡ some id)
      × IsAnswer encoded_len policy id (call_method message) (params_of message) (key_of message id)
          (not (seen (key_of message id) known)) w recorded

  module _ (w : World) (policy : ApprovalPolicy) (refresh : AuthRefreshPolicy) (message : Value)
      (l : Live) where
    abbrev Q : Written → List JournalEvent → Type 0
    Q = IsAnswered policy message l.seen.keys

    with_some_id-WritesOnce :
        (id : Value)
        → get message (codes "id") ≡ some id
        → WritesOnce Q l.sent
            (with_id encoded_len to_text hash_digits w policy refresh message (some id) l).1
          × WritesOnce Q l.sent
              (with_id_call encoded_len to_text hash_digits w policy refresh message (some id) l).1
    with_some_id-WritesOnce id same =
        let method = call_method message in
        let params = params_of message in
        let key = key_of message id in
        let fresh = not (seen key l.seen.keys) in
        let P : Written → List JournalEvent → Type 0 =
          IsAnswer encoded_len policy id method params key fresh in
        let renewed = λ (h : text_eq method refresh_method ≡ true).
          handle_auth_refresh-WritesOnce encoded_len to_text hash_digits policy id method params key
            l.sent fresh w refresh message l refl h in
        (
          weaken-WritesOnce P Q l.sent
              (with_id encoded_len to_text hash_digits w policy refresh message (some id) l).1
              (λ x r p. (id, same, p))
              (routed-WritesOnce P l.sent (text_eq method refresh_method)
                (is_known_approval_method method) (handle_auth_refresh w refresh id message)
                (unknown_request encoded_len to_text hash_digits w id)
                (known_request encoded_len to_text hash_digits w policy id method params key) l
                renewed
                (unknown_request-WritesOnce encoded_len to_text hash_digits policy id method params
                  key l.sent fresh w l refl)
                (known_request-WritesOnce encoded_len to_text hash_digits policy id method params
                  key l.sent w l refl)),
          weaken-WritesOnce P Q l.sent
              (with_id_call encoded_len to_text hash_digits w policy refresh message (some id) l).1
              (λ x r p. (id, same, p))
              (routed-WritesOnce P l.sent (text_eq method refresh_method)
                (is_known_approval_method method)
                (refresh_call encoded_len to_text hash_digits w refresh id message)
                (unknown_request_call encoded_len to_text hash_digits w id)
                (known_request_call encoded_len to_text hash_digits w policy id method params key) l
                renewed
                (unknown_request_call-WritesOnce encoded_len to_text hash_digits policy id method
                  params key l.sent fresh w l refl)
                (known_request_call-WritesOnce encoded_len to_text hash_digits policy id method
                  params key l.sent w l refl)),
        )

  -- Whatever others do while it is handled, a request is answered at most once, under its own id, by an
  -- error, the tokens that it asked for, or a decision. Allow is answered only to a request that can be
  -- allowed, whose key is new, and whose decision is the last event in the journal when the request is
  -- done, where the policy keeps one. This holds with a session and during a call.
  pub handle_server_request_parts-IsAnswered :
      (w : World) (policy : ApprovalPolicy) (refresh : AuthRefreshPolicy) (message : Value)
      (l : Live)
      → WritesOnce
          (IsAnswered policy message l.seen.keys)
          l.sent
          (handle_server_request_parts encoded_len to_text hash_digits w policy refresh message l).1
        × WritesOnce
            (IsAnswered policy message l.seen.keys)
            l.sent
            (dispatch_server_request_during_call encoded_len to_text hash_digits w policy refresh
              message l).1
  unfolding handle_server_request_parts dispatch_server_request_during_call
  handle_server_request_parts-IsAnswered w policy refresh message l =
      elim (request_id-cases (get message (codes "id"))) [
        | inl e ↦ rw e (inl refl, inl refl)
        | inr (id, e, same) ↦ rw e (with_some_id-WritesOnce w policy refresh message l id same)
      ]
