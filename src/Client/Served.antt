-- ===== src/Client/Served.antt =====
-- The answers to the requests of a server: src/client.rs, handle_server_request_parts and
-- dispatch_server_request_during_call.
use spark_runner.Prelude.{
  ℕ, ◌≡◌, ◌⊎◌, inl, inr, refl, ◌∙◌, Bool, true, false, List, Option, none, some, Bool-cases,
}
use spark_runner.Prelude.Exec.{Result, ok, err, and_then, pure, modify}
use spark_runner.Prelude.Text.{Text, text_eq}
use spark_runner.Json.{Value}
use spark_runner.Session.{on_approval_decided, ApprovalDecision, allow, deny, timeout, owner}
use spark_runner.Journal.{JournalEvent}
use spark_runner.Client.Verdict.{from_request, approval_response}
use spark_runner.Client.Handle.{
  ClientError, Written, result, failure, ErrorCode, ApprovalPolicy, deny_all, allow_for_tests,
  external, Live, World, Step, in_session, send, acknowledge, append_external_approval_decision,
  append_request, refresh_method,
}
use spark_runner.Client.Serve.{
  Decided, obtain, restrict, respond, decision_of, response_of, conclude,
}
use spark_runner.Client.Serve.{conclude_call}
use spark_runner.Client.Answered.{
  WritesOnce, IsRecorded, silent-WritesOnce, unsent-then, then-silent, send-WritesOnce,
  acknowledge-silent, append-IsRecorded,
}

module _ (encoded_len : Value → Option ℕ) where
  -- What backs a decision that is sent: an Allow is of a request that can be allowed, of a key that is
  -- new, and in the journal where the policy keeps one.
  abbrev pub IsBacked :
      ApprovalPolicy → Text → Value → Text → Bool → ApprovalDecision → List JournalEvent → Type 0
  IsBacked policy method params key fresh deny recorded = Unit
  IsBacked policy method params key fresh timeout recorded = Unit
  IsBacked policy method params key fresh allow recorded =
      ((from_request encoded_len method params).1 ≡ true)
      × (fresh ≡ true)
      × IsRecorded policy key method allow recorded

  -- What a request can be answered: an error, the tokens that it asked for, or a decision.
  abbrev pub IsAnswer :
      ApprovalPolicy → Value → Text → Value → Text → Bool → Written → List JournalEvent → Type 0
  IsAnswer policy id method params key fresh w recorded =
      ((code : ErrorCode) × (w ≡ failure id code))
      ⊎ (((token : Value) × (w ≡ result id token) × (text_eq method refresh_method ≡ true))
          ⊎ ((d : ApprovalDecision) × (w
                ≡ result id (approval_response encoded_len method d (some params)))
              × IsBacked policy method params key fresh d recorded))

module _ (encoded_len : Value → Option ℕ) (to_text : Value → Text) (hash_digits : Text → Text) where
  restrict-IsBacked :
      (policy : ApprovalPolicy) (method : Text) (params : Value) (key : Text) (d : ApprovalDecision)
      (recorded : List JournalEvent) (b : Bool)
      → (from_request encoded_len method params).1 ≡ b
      → IsRecorded policy key method (restrict d b) recorded
      → IsBacked encoded_len policy method params key true (restrict d b) recorded
  restrict-IsBacked policy method params key deny recorded b e h = tt
  restrict-IsBacked policy method params key timeout recorded b e h = tt
  restrict-IsBacked policy method params key allow recorded true e h = (e, refl, h)
  restrict-IsBacked policy method params key allow recorded false e h = tt

  acknowledged-silent :
      (waiting : Bool) (r : Result ClientError (Unit {0})) (s : Live)
      → ((and_then (r, s) (λ _. modify (acknowledge waiting true))).1.sent ≡ s.sent)
        × ((and_then (r, s) (λ _. modify (acknowledge waiting true))).1.recorded ≡ s.recorded)
  acknowledged-silent waiting (ok u) s = acknowledge-silent waiting true s
  acknowledged-silent waiting (err x) s = (refl, refl)

  append_request-unsent :
      (w : World) (receipt : Option Text) (key method : Text) (l : Live)
      → (append_request w receipt key method l).1.sent ≡ l.sent
  append_request-unsent w none key method l = refl
  append_request-unsent w (some id) key method l = elim (Bool-cases w.request_recorded) [
    | inl e ↦ rw e refl
    | inr e ↦ rw e refl
  ]

  pure-unsent :
      {A B : Type 0} (r : Result ClientError A × Live) (b : B)
      → (and_then r (λ _. pure b)).1.sent ≡ r.1.sent
  pure-unsent (ok a, s) b = refl
  pure-unsent (err x, s) b = refl

  obtain-unsent :
      (refused : ApprovalDecision) (w : World) (policy : ApprovalPolicy) (key method : Text)
      (l : Live)
      → (obtain refused w policy key method l).1.sent ≡ l.sent
  obtain-unsent refused w deny_all key method l = refl
  obtain-unsent refused w allow_for_tests key method l = refl
  obtain-unsent refused w (external receipt) key method l =
      pure-unsent (append_request w receipt key method l) _
      ∙ append_request-unsent w receipt key method l

  module _ (policy : ApprovalPolicy) (id : Value) (method : Text) (params : Value) (key : Text)
      (before : List Written) where
    abbrev pub P : Bool → Written → List JournalEvent → Type 0
    P fresh = IsAnswer encoded_len policy id method params key fresh

    pub respond-WritesOnce :
        (w : World) (waiting : Bool) (message : Written) (l : Live)
        → l.sent ≡ before
        → P true message l.recorded
        → WritesOnce (P true) before (respond w waiting message l).1
    respond-WritesOnce w waiting message l e p = elim (Bool-cases w.written) [
      | inl yes_written ↦ rw yes_written (send-WritesOnce (P true) before true message l e p)
      | inr no_written ↦ rw no_written (
          silent-WritesOnce (P true) before (send false message l).1
            (acknowledge waiting false (send false message l).1)
            (acknowledge-silent waiting false (send false message l).1).0
            (acknowledge-silent waiting false (send false message l).1).1
            (send-WritesOnce (P true) before false message l e p))
    ]

    pub conclude-WritesOnce :
        (w : World) (d : Decided) (l : Live)
        → l.sent ≡ before
        → WritesOnce
            (P true)
            before
            (conclude encoded_len to_text hash_digits w policy id method params key d l).1
    conclude-WritesOnce w (d, waiting) l e =
        let decided = decision_of encoded_len to_text hash_digits method params d in
        let (same, kept) = append-IsRecorded w policy key method decided l in
        unsent-then (P true) before
          (append_external_approval_decision w policy key method decided l) _
          (λ u m. IsRecorded policy key method decided m.recorded) (same ∙ e) kept
          (λ u m sent recorded.
            then-silent (P true) before
              (respond w waiting
                (response_of encoded_len to_text hash_digits id method params decided) m)
              _
              (respond-WritesOnce w waiting _ m sent (
                inr (
                  inr (
                    decided,
                    refl,
                    restrict-IsBacked policy method params key d m.recorded
                        (from_request encoded_len method params).1 refl recorded,
                  ))))
              (λ v n.
                acknowledged-silent waiting
                  (in_session (on_approval_decided key method decided owner) n).0
                  (in_session (on_approval_decided key method decided owner) n).1))

    pub conclude_call-WritesOnce :
        (w : World) (d : Decided) (l : Live)
        → l.sent ≡ before
        → WritesOnce
            (P true)
            before
            (conclude_call encoded_len to_text hash_digits w policy id method params key d l).1
    conclude_call-WritesOnce w (d, waiting) l e =
        let decided = decision_of encoded_len to_text hash_digits method params d in
        let (same, kept) = append-IsRecorded w policy key method decided l in
        unsent-then (P true) before
          (append_external_approval_decision w policy key method decided l) _
          (λ u m. IsRecorded policy key method decided m.recorded) (same ∙ e) kept
          (λ u m sent recorded.
            then-silent (P true) before
              (respond w waiting
                (response_of encoded_len to_text hash_digits id method params decided) m)
              _
              (respond-WritesOnce w waiting _ m sent (
                inr (
                  inr (
                    decided,
                    refl,
                    restrict-IsBacked policy method params key d m.recorded
                        (from_request encoded_len method params).1 refl recorded,
                  ))))
              (λ v n. acknowledge-silent waiting true n))

    pub obtain-WritesOnce :
        (refused : ApprovalDecision) (w : World) (l : Live) (f : Decided → Step (Unit {0}))
        → l.sent ≡ before
        → ((d : Decided) (m : Live) → m.sent ≡ before → WritesOnce (P true) before (f d m).1)
        → WritesOnce (P true) before (and_then (obtain refused w policy key method l) f).1
    obtain-WritesOnce refused w l f e after =
        unsent-then (P true) before (obtain refused w policy key method l) f (λ d m. Unit {0})
          (obtain-unsent refused w policy key method l ∙ e) (λ d h. tt)
          (λ d m sent u. after d m sent)
