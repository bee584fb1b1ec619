-- ===== src/Client/Backed.antt =====
-- No server request is allowed without being backed: src/client.rs, handle_server_request_parts and
-- dispatch_server_request_during_call.
use spark_runner.Prelude.{
  ℕ, ◌≡◌, inl, inr, refl, sym, subst, Bool, true, false, not, List, Option, none, some, arith,
  if◌then◌else◌,
}
use spark_runner.Prelude.Exec.{ok, and_then}
use spark_runner.Prelude.Text.{Text, text_eq}
use spark_runner.Json.{unwrap_or_null, Value, get}
use spark_runner.Session.{on_approval_requested, deny, timeout}
use spark_runner.Journal.{JournalEvent}
use spark_runner.Client.Seen.{insert}
use spark_runner.Client.Handle.{
  Written, ErrorCode, ApprovalPolicy, AuthRefreshPolicy, AuthRefreshResponse, Live, World, Step,
  in_session, mark_seen, send, handle_auth_refresh, refused_refresh, refresh_with, is_unauthorized,
  invalid_refresh_request, provided, refresh_method,
}
use spark_runner.Client.Serve.{new_request, duplicate, known_request, unknown_request}
use spark_runner.Prelude.Text.{codes}
use spark_runner.Client.Seen.{seen}
use spark_runner.Client.Serve.{
  new_request_call, duplicate_call, known_request_call, unknown_request_call,
}
use spark_runner.Client.Answered.{
  WritesOnce, either-WritesOnce, IsSilent, unsent-then, then-silent, send-WritesOnce,
}
use spark_runner.Client.Served.{
  IsAnswer, conclude-WritesOnce, conclude_call-WritesOnce, obtain-WritesOnce,
}

module _ (encoded_len : Value → Option ℕ) (to_text : Value → Text) (hash_digits : Text → Text)
    (policy : ApprovalPolicy) (id : Value) (method : Text) (params : Value) (key : Text)
    (before : List Written) where
  abbrev pub Proper : Bool → Written → List JournalEvent → Type 0
  Proper fresh = IsAnswer encoded_len policy id method params key fresh

  new_request-WritesOnce :
      (w : World) (l : Live)
      → l.sent ≡ before
      → WritesOnce
          (Proper true)
          before
          (new_request encoded_len to_text hash_digits w policy id method params key l).1
  new_request-WritesOnce w l e =
      unsent-then (Proper true) before (in_session (on_approval_requested key method) l) _
        (λ u m. Unit {0}) e (λ u h. tt)
        (λ u m sent t.
          obtain-WritesOnce encoded_len to_text hash_digits policy id method params key before deny
            w m _ sent
            (λ d n sent2.
              conclude-WritesOnce encoded_len to_text hash_digits policy id method params key before
                w d n sent2))

  new_request_call-WritesOnce :
      (w : World) (l : Live)
      → l.sent ≡ before
      → WritesOnce
          (Proper true)
          before
          (new_request_call encoded_len to_text hash_digits w policy id method params key l).1
  new_request_call-WritesOnce w l e =
      obtain-WritesOnce encoded_len to_text hash_digits policy id method params key before timeout w
        l _ e
        (λ d n sent.
          conclude_call-WritesOnce encoded_len to_text hash_digits policy id method params key
            before w d n sent)

  refusal-WritesOnce :
      (fresh : Bool) (w : World) (l : Live) (message : Written) (f : Unit {0} → Step (Unit {0}))
      → l.sent ≡ before
      → Proper fresh message l.recorded
      → ((u : Unit {0}) → IsSilent (f u))
      → WritesOnce (Proper fresh) before (and_then (send w.written message l) f).1
  refusal-WritesOnce fresh w l message f e p quiet =
      then-silent (Proper fresh) before (send w.written message l) f
        (send-WritesOnce (Proper fresh) before w.written message l e p) quiet

  duplicate-WritesOnce :
      (fresh : Bool) (w : World) (l : Live)
      → l.sent ≡ before
      → WritesOnce
          (Proper fresh)
          before
          (duplicate encoded_len to_text hash_digits w id method params key l).1
  duplicate-WritesOnce fresh w l e =
      refusal-WritesOnce fresh w l _ _ e (inr (inr (deny, refl, tt))) (λ u m. (refl, refl))

  duplicate_call-WritesOnce :
      (fresh : Bool) (w : World) (l : Live)
      → l.sent ≡ before
      → WritesOnce
          (Proper fresh)
          before
          (duplicate_call encoded_len to_text hash_digits w id method params key l).1
  duplicate_call-WritesOnce fresh w l e =
      refusal-WritesOnce fresh w l _ _ e (inr (inr (deny, refl, tt))) (λ u m. (refl, refl))

  pub unknown_request-WritesOnce :
      (fresh : Bool) (w : World) (l : Live)
      → l.sent ≡ before
      → WritesOnce (Proper fresh) before (unknown_request encoded_len to_text hash_digits w id l).1
  unknown_request-WritesOnce fresh w l e =
      refusal-WritesOnce fresh w l _ _ e (inl (_, refl)) (λ u m. (refl, refl))

  pub unknown_request_call-WritesOnce :
      (fresh : Bool) (w : World) (l : Live)
      → l.sent ≡ before
      → WritesOnce
          (Proper fresh)
          before
          (unknown_request_call encoded_len to_text hash_digits w id l).1
  unknown_request_call-WritesOnce fresh w l e =
      refusal-WritesOnce fresh w l _ _ e (inl (_, refl)) (λ u m. (refl, refl))

  refused_refresh-WritesOnce :
      (fresh : Bool) (w : World) (l : Live) (code : ErrorCode)
      → l.sent ≡ before
      → WritesOnce (Proper fresh) before (refused_refresh w id code l).1
  refused_refresh-WritesOnce fresh w l code e =
      refusal-WritesOnce fresh w l _ _ e (inl (code, refl)) (λ u m. (refl, refl))

  refresh_with-WritesOnce :
      (fresh : Bool) (w : World) (l : Live) (tokens : Option AuthRefreshResponse)
      → l.sent ≡ before
      → text_eq method refresh_method ≡ true
      → WritesOnce (Proper fresh) before (refresh_with w id tokens l).1
  refresh_with-WritesOnce fresh w l none e h = refused_refresh-WritesOnce fresh w l _ e
  refresh_with-WritesOnce fresh w l (some r) e h =
      send-WritesOnce (Proper fresh) before w.written _ l e (inr (inl (_, refl, h)))

  pub handle_auth_refresh-WritesOnce :
      (fresh : Bool) (w : World) (refresh : AuthRefreshPolicy) (message : Value) (l : Live)
      → l.sent ≡ before
      → text_eq method refresh_method ≡ true
      → WritesOnce (Proper fresh) before (handle_auth_refresh w refresh id message l).1
  unfolding handle_auth_refresh
  handle_auth_refresh-WritesOnce fresh w refresh message l e h =
      either-WritesOnce (Proper fresh) before
        (not (is_unauthorized (unwrap_or_null (get message (codes "params")))))
        (refused_refresh w id invalid_refresh_request) (refresh_with w id (provided w refresh)) l
        (refused_refresh-WritesOnce fresh w l invalid_refresh_request e)
        (refresh_with-WritesOnce fresh w l (provided w refresh) e h)

  -- The part of a known request after its key is marked, for both callers.
  pub known-WritesOnce :
      (l : Live) (first : Bool) (new_one old_one : Step (Unit {0})) (m : Live) (fresh : Bool)
      → (first ≡ true → fresh ≡ true)
      → WritesOnce (Proper true) before (new_one m).1
      → WritesOnce (Proper fresh) before (old_one m).1
      → WritesOnce (Proper fresh) before ((if first then new_one else old_one) m).1
  known-WritesOnce l true new_one old_one m fresh e a b =
      subst (λ f. WritesOnce (Proper f) before (new_one m).1) (sym (e refl)) a
  known-WritesOnce l false new_one old_one m fresh e a b = b

  mark_seen-fresh :
      (l : Live) (first : Bool)
      → (mark_seen key l).0 ≡ ok first
      → first ≡ true
      → not (seen key l.seen.keys) ≡ true
  unfolding insert
  mark_seen-fresh l first h t = ground (arith, h, t)

  pub known_request-WritesOnce :
      (w : World) (l : Live)
      → l.sent ≡ before
      → WritesOnce
          (Proper (not (seen key l.seen.keys)))
          before
          (known_request encoded_len to_text hash_digits w policy id method params key l).1
  known_request-WritesOnce w l e =
      unsent-then (Proper (not (seen key l.seen.keys))) before (mark_seen key l) _
        (λ first m. first ≡ true → not (seen key l.seen.keys) ≡ true) e (mark_seen-fresh l)
        (λ first m sent fresh.
          known-WritesOnce l first _ _ m (not (seen key l.seen.keys)) fresh
            (new_request-WritesOnce w m sent)
            (duplicate-WritesOnce (not (seen key l.seen.keys)) w m sent))

  pub known_request_call-WritesOnce :
      (w : World) (l : Live)
      → l.sent ≡ before
      → WritesOnce
          (Proper (not (seen key l.seen.keys)))
          before
          (known_request_call encoded_len to_text hash_digits w policy id method params key l).1
  known_request_call-WritesOnce w l e =
      unsent-then (Proper (not (seen key l.seen.keys))) before (mark_seen key l) _
        (λ first m. first ≡ true → not (seen key l.seen.keys) ≡ true) e (mark_seen-fresh l)
        (λ first m sent fresh.
          known-WritesOnce l first _ _ m (not (seen key l.seen.keys)) fresh
            (new_request_call-WritesOnce w m sent)
            (duplicate_call-WritesOnce (not (seen key l.seen.keys)) w m sent))
