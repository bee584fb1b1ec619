-- ===== src/Jsonl/Dispatch.antt =====
-- A call's wait for its response: src/jsonl.rs, read_response_dispatching_requests.
use spark_runner.Prelude.{
  ℕ, zero, suc, ◌+◌, ◌*◌, ◌≤◌, ◌<◌, ◌≡◌, refl, sym, ap, subst, ◌⊎◌, inl, inr, Bool, true, false,
  List, [], ◌∷◌, ◌++◌, none, some, arith, length, length-append, All, All-append, Option-cases,
  Bool-cases,
}
use spark_runner.Prelude.Exec.{Result, ok, err, Result-cases}
use spark_runner.Jsonl.{
  JsonLib, JsonlError, response_id, matches, is_server_request, push_pending, extract,
  remove_pending,
}
use spark_runner.Jsonl.Pending.{
  IsBounded, Extracts, extract-Extracts, push_pending-IsBounded, remove_pending-IsBounded,
  pending-push,
}
use spark_runner.Jsonl.Turn.{size, Returns, Returns-mono}
use spark_runner.Jsonl.Raw.{read_raw_message-Streamed}
use spark_runner.Jsonl.Wait.{
  State, Outcome, CallOutcome, Handler, stray_response, keep_message, handle, dispatch_message,
  dispatch, next_for_call, read_raw_message,
}

module _ (json : JsonLib) where
  open json use {Value}

  -- What is left of the loop: two turns for a byte, and one for a buffered message.
  abbrev pub effort : State json → ℕ
  effort reader = 2 * size json reader + length reader.pending

  module _ (K : Value → Type 0) where
    -- The reader is bounded, and `K` holds of the buffer.
    pub record IsFit (reader : State json) : Type 0 where
      pub bounded : IsBounded json reader
      pub held : All K reader.pending

    record Taken (expected : ℕ) (reader : State json) (r : Result JsonlError Value)
        (after : State json) : Type 0 where
      fit : IsFit after
      less : (v : Value) → r ≡ ok v → effort after < effort reader
      no_more : (v : Value) → r ≡ ok v → size json after ≤ size json reader
      spare :
          (v : Value)
          → r ≡ ok v
          → matches json (response_id expected) v ≡ false
          → is_server_request json v ≡ false
          → effort after + 1 < effort reader

    All-remove :
        {test : Value → Bool} {vs : List Value} {v : Value} {rest : List Value}
        → Extracts json test vs v rest
        → All K vs
        → All K rest
    All-remove {v = v} w h =
        subst (All K) (sym w.left) (go w.before w.behind (subst (All K) w.here h))
      where
        go : (xs ys : List Value) → All K (xs ++ v ∷ ys) → All K (xs ++ ys)
        go [] ys h = h.1
        go (x ∷ xs) ys h = (h.0, go xs ys h.1)

    remove_pending-Taken :
        (expected : ℕ) (test : Value → Bool) (reader : State json) (v : Value) (rest : List Value)
        → extract json test reader.pending ≡ some (v, rest)
        → (test v ≡ true
            → (matches json (response_id expected) v ≡ true) ⊎ (is_server_request json v ≡ true))
        → IsFit reader
        → Taken expected reader (ok v) (remove_pending json reader (v, rest)).1
    remove_pending-Taken expected test reader v rest e picked f =
        let w = extract-Extracts json test reader.pending v rest e in
        record {
          fit = record {
            bounded = remove_pending-IsBounded json test reader v rest e f.bounded;
            held = unfold remove_pending in All-remove w f.held;
          };
          less = λ u h.
              unfold remove_pending in
              omega (
                arith,
                ap (λ (l : List Value). length l) w.here,
                ap (λ (l : List Value). length l) w.left,
                length-append w.before (v ∷ w.behind),
                length-append w.before w.behind,
              );
          no_more = λ u h. unfold remove_pending in omega arith;
          spare = λ u h no_match no_request. elim (picked w.passes) [
            | inl hit ↦ ground (arith, hit)
            | inr hit ↦ ground (arith, hit)
          ];
        }

    next_for_call-Taken :
        (raw expected : ℕ) (reader : State json)
        → IsFit reader
        → size json reader < raw
        → Returns json (Taken expected reader) (next_for_call json raw expected reader)
    unfolding next_for_call remove_pending
    next_for_call-Taken raw expected reader f small =
        elim (Option-cases (extract json (matches json (response_id expected)) reader.pending)) [
          | inr ((v, rest), e) ↦
              rw (e, next_for_call) (remove_pending-Taken expected _ reader v rest e inl f)
          | inl no_response ↦
              elim (Option-cases (extract json (is_server_request json) reader.pending)) [
                | inr ((v, rest), e) ↦
                    rw (no_response, e, next_for_call)
                      (remove_pending-Taken expected _ reader v rest e inr f)
                | inl no_request ↦
                    rw (no_response, no_request, next_for_call)
                      (Returns-mono json (read_raw_message json raw reader)
                        (λ r after s. record {
                          fit = record {
                            bounded = s.bounded;
                            held = subst (All K) (sym s.pending) f.held;
                          };
                          less = λ v h.
                              omega
                                (arith, s.less v h, ap (λ (l : List Value). length l) s.pending);
                          no_more = λ v h. omega (arith, s.less v h);
                          spare = λ v h _ _.
                              omega
                                (arith, s.less v h, ap (λ (l : List Value). length l) s.pending);
                        })
                        (read_raw_message-Streamed json raw reader f.bounded small))
              ]
        ]

  abbrev pub CallReturns :
      {H : Type 0}
      → (Result JsonlError Value → State json → H → Type 0)
      → CallOutcome json H
      → Type 0
  CallReturns Q none = ⊥
  CallReturns Q (some (r, (reader, h))) = Q r reader h

  module _ {H : Type 0} (K : Value → Type 0) (P : H → Type 0) (expected : ℕ)
      (handler : Handler json H) (fresh : (v : Value) → is_server_request json v ≡ false → K v)
      (serves : (v : Value) (h : H)
        → is_server_request json v ≡ true
        → P h
        → P (handler v h).1) where
    -- What is true when the call's wait ends.
    pub record Answered (r : Result JsonlError Value) (reader : State json) (h : H) : Type 0 where
      pub fit : IsFit K reader
      pub served : P h
      pub right : (v : Value) → r ≡ ok v → matches json (response_id expected) v ≡ true

    failed_call :
        (e : JsonlError) (reader : State json) (h : H)
        → IsFit K reader
        → P h
        → Answered (err e) reader h
    failed_call e reader h f p = record { fit = f; served = p; right = λ v x. absurd (cc) }

    Continues : ℕ → ℕ → (State json × H → CallOutcome json H) → Type 0
    Continues n raw again =
        (reader : State json) (h : H)
        → IsFit K reader
        → P h
        → effort reader < n
        → size json reader < raw
        → CallReturns Answered (again (reader, h))

    handle-Answered :
        (n raw : ℕ) (again : State json × H → CallOutcome json H)
        → Continues n raw again
        → (reader : State json) (r : Result JsonlError (Unit {0}) × H) → IsFit K reader
        → P r.1
        → effort reader < n
        → size json reader < raw
        → CallReturns Answered (handle json again reader r)
    unfolding handle Continues
    handle-Answered n raw again continues reader (err e, h) f p less small =
        failed_call e reader h f p
    handle-Answered n raw again continues reader (ok _, h) f p less small =
        continues reader h f p less small

    push-IsFit :
        (reader after : State json) (v : Value)
        → push_pending json reader v ≡ ok after
        → K v
        → IsFit K reader
        → IsFit K after
    push-IsFit reader after v e k f = record {
      bounded = push_pending-IsBounded json reader after v e f.bounded;
      held =
          subst (All K) (sym (pending-push json reader after v e).0)
            (All-append K reader.pending (v ∷ []) f.held (k, tt));
    }

    -- A push takes one turn more, and no byte.
    effort-push :
        (reader after : State json) (v : Value)
        → push_pending json reader v ≡ ok after
        → (effort after ≡ effort reader + 1) × (size json after ≡ size json reader)
    effort-push reader after v e =
        let same = pending-push json reader after v e in
        rw (same.0, same.1, same.2)
          (omega (arith, length-append reader.pending (v ∷ [])), omega arith)

    keep_message-Answered :
        (n raw : ℕ) (again : State json × H → CallOutcome json H)
        → Continues n raw again
        → (v : Value) (reader : State json) (h : H) → is_server_request json v ≡ false
        → IsFit K reader
        → P h
        → effort reader + 1 < n
        → size json reader < raw
        → CallReturns Answered (
            keep_message json
              (λ e r. some (err e, (r, h)))
              (λ r. again (r, h))
              (response_id expected)
              v
              reader)
    unfolding keep_message Continues
    keep_message-Answered n raw again continues v reader h plain f p less small =
        elim (Option-cases (stray_response json (response_id expected) v)) [
          | inr (e, stray) ↦ rw (stray, keep_message) (failed_call e reader h f p)
          | inl none_stray ↦ elim (Result-cases (push_pending json reader v)) [
            | inl (e, full) ↦ rw (none_stray, full, keep_message) (failed_call e reader h f p)
            | inr (after, pushed) ↦
                let grown = effort-push reader after v pushed in
                rw (none_stray, pushed, keep_message)
                  (continues after h (push-IsFit reader after v pushed (fresh v plain) f) p
                    (omega (arith, grown.0)) (omega (arith, grown.1)))
          ]
        ]

    dispatch_message-Answered :
        (reader : State json) (n raw : ℕ) (again : State json × H → CallOutcome json H)
        → Continues n raw again
        → effort reader ≤ n
        → size json reader < raw
        → (h : H) → P h
        → (o : Outcome json) → Returns json (Taken K expected reader) o
        → CallReturns Answered (dispatch_message json again expected handler h o)
    unfolding dispatch_message
    dispatch_message-Answered reader n raw again continues fuel small h p none t = absurd t
    dispatch_message-Answered reader n raw again continues fuel small h p (some (err e, next)) t =
        failed_call e next h t.fit p
    dispatch_message-Answered reader n raw again continues fuel small h p (some (ok v, next)) t =
        elim (Bool-cases (matches json (response_id expected) v)) [
          | inl hit ↦
              rw (hit, dispatch_message)
                (record { fit = t.fit; served = p; right = λ w e. ground (arith, hit) })
          | inr miss ↦ elim (Bool-cases (is_server_request json v)) [
            | inl request ↦
                rw (miss, request, dispatch_message)
                  (handle-Answered n raw again continues next (handler v h) t.fit
                    (serves v h request p) (omega (arith, t.less v refl))
                    (omega (arith, t.no_more v refl)))
            | inr plain ↦
                rw (miss, plain, dispatch_message)
                  (keep_message-Answered n raw again continues v next h plain t.fit p
                    (omega (arith, t.spare v refl miss plain)) (omega (arith, t.no_more v refl)))
          ]
        ]

    -- The wait of a call on a bounded reader ends, given one turn more than its effort, whatever the
    -- peer sends and however the handler answers. It returns a response to the expected id alone; it
    -- shows the handler server requests alone; what it adds to the buffer is never a server
    -- request; and the reader stays bounded, on failure too.
    pub dispatch-Answered :
        (fuel raw : ℕ) (reader : State json) (h : H)
        → IsFit K reader
        → P h
        → effort reader < fuel
        → size json reader < raw
        → CallReturns Answered (dispatch json fuel raw expected handler (reader, h))
    unfolding dispatch Continues
    dispatch-Answered zero raw reader h f p less small = absurd (omega arith)
    dispatch-Answered (suc fuel) raw reader h f p less small =
        dispatch_message-Answered reader fuel raw (dispatch json fuel raw expected handler)
          (λ r h' f' p' l s. dispatch-Answered fuel raw r h' f' p' l s) (omega arith) small h p
          (next_for_call json raw expected reader)
          (next_for_call-Taken K raw expected reader f small)
