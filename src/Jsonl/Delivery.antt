-- ===== src/Jsonl/Delivery.antt =====
-- What a wait delivers: src/jsonl.rs, read_until_match and read_next_message.
use spark_runner.Prelude.{
  ℕ, zero, suc, ◌<◌, ◌≡◌, ◌⊎◌, refl, sym, inl, inr, some, true, false, [], arith, All, append-nil,
  Option-cases, Bool-cases,
}
use spark_runner.Prelude.Exec.{Result, ok, err, Result-cases}
use spark_runner.Jsonl.{
  JsonLib, JsonlError, WaitTarget, matches, push_pending, extract, remove_pending,
}
use spark_runner.Jsonl.Pending.{
  IsBounded, Extracts, extract-Extracts, extract-none, push_pending-IsBounded,
  remove_pending-IsBounded,
}
use spark_runner.Jsonl.Turn.{
  size, Progress, read_line-Progress, read_line-IsBounded, Returns, Returns-mono,
}
use spark_runner.Jsonl.Wait.{
  Line, failed, blank, message, State, Outcome, read_line, stray_response, keep_message, fail_with,
  scan_line, scan, read_until_match,
}
use spark_runner.Jsonl.Stream.{none_yet}
use spark_runner.Jsonl.Passed.{Passed, Reads, read_line-Reads, Passed-blank, Passed-push}

module _ (json : JsonLib) where
  open json use {Value}

  -- The line that ends the loop: a message that matches, which is returned, a line that cannot be
  -- read, or a message that is a response to another request or has no room in the buffer.
  pub data Stops (target : WaitTarget) (here : State json) (r : Result JsonlError Value)
      (after : State json) : Type 0 where
    matched :
        (v : Value)
        → r ≡ ok v
        → Reads json here (message v) after
        → matches json target v ≡ true
        → Stops target here r after
    unreadable :
        (e : JsonlError) → r ≡ err e → Reads json here (failed e) after → Stops target here r after
    refused :
        (e : JsonlError) (v : Value)
        → r ≡ err e
        → Reads json here (message v) after
        → matches json target v ≡ false
        → (stray_response json target v ≡ some e) ⊎ (push_pending json after v ≡ err e)
        → Stops target here r after

  -- What is true when the loop of `read_until_match` ends.
  pub record Scanned (target : WaitTarget) (start : State json) (r : Result JsonlError Value)
      (after : State json) : Type 0 where
    pub here : State json
    pub behind : Passed json target start here
    pub last : Stops target here r after
    pub bounded : IsBounded json after

  size-push :
      (reader after : State json) (v : Value)
      → push_pending json reader v ≡ ok after
      → size json after ≡ size json reader
  unfolding push_pending
  size-push reader after v e = ground arith

  -- The rest of the loop is right from a state that has at most `n` bytes to take.
  Continues : WaitTarget → State json → ℕ → (State json → Outcome json) → Type 0
  Continues target start n again =
      (here : State json)
      → IsBounded json here
      → Passed json target start here
      → size json here < n
      → Returns json (Scanned target start) (again here)

  keep_message-Scanned :
      (target : WaitTarget) (start here : State json) (n : ℕ) (again : State json → Outcome json)
      → Continues target start n again
      → (v : Value) (reader : State json) → matches json target v ≡ false
      → IsBounded json reader
      → Passed json target start here
      → Reads json here (message v) reader
      → size json reader < n
      → Returns json
          (Scanned target start)
          (keep_message json (fail_with json) again target v reader)
  unfolding keep_message Continues
  keep_message-Scanned target start here n again continues v reader miss b p r small =
      elim (Option-cases (stray_response json target v)) [
        | inr (e, stray) ↦
            rw (stray, keep_message)
              (record {
                here = here;
                behind = p;
                last = refused e v refl r miss (inl stray);
                bounded = b;
              })
        | inl none_stray ↦ elim (Result-cases (push_pending json reader v)) [
          | inl (e, full) ↦
              rw (none_stray, full, keep_message)
                (record {
                  here = here;
                  behind = p;
                  last = refused e v refl r miss (inr full);
                  bounded = b;
                })
          | inr (after, pushed) ↦
              rw (none_stray, pushed, keep_message)
                (continues after (push_pending-IsBounded json reader after v pushed b)
                  (Passed-push json target start here reader after v pushed miss r p)
                  (omega (arith, size-push reader after v pushed)))
        ]
      ]

  scan_line-Scanned :
      (target : WaitTarget) (start here : State json) (n : ℕ) (again : State json → Outcome json)
      → Continues target start n again
      → (line : Line Value) (reader : State json) → Progress json n (line, reader)
      → IsBounded json reader
      → Passed json target start here
      → Reads json here line reader
      → Returns json (Scanned target start) (scan_line json again target (line, reader))
  unfolding scan_line Continues
  scan_line-Scanned target start here n again continues (failed e) reader less b p r = record {
    here = here;
    behind = p;
    last = unreadable e refl r;
    bounded = b;
  }
  scan_line-Scanned target start here n again continues blank reader less b p r =
      continues reader b (Passed-blank json target start here reader p r) less
  scan_line-Scanned target start here n again continues (message v) reader less b p r =
      elim (Bool-cases (matches json target v)) [
        | inl hit ↦
            rw (hit, scan_line)
              (record { here = here; behind = p; last = matched v refl r hit; bounded = b })
        | inr miss ↦
            rw (miss, scan_line)
              (keep_message-Scanned target start here n again continues v reader miss b p r less)
      ]

  scan-Scanned :
      (fuel : ℕ) (target : WaitTarget) (start : State json)
      → Continues target start fuel (scan json fuel target)
  unfolding scan Continues
  scan-Scanned zero target start here b p small = absurd (omega arith)
  scan-Scanned (suc fuel) target start here b p small =
      scan_line-Scanned target start here (size json here) (scan json fuel target)
        (λ r b' p' less. scan-Scanned fuel target start r b' p' (omega arith))
        (read_line json here).0 (read_line json here).1 (read_line-Progress json here)
        (read_line-IsBounded json here b) p (read_line-Reads json here)

  -- The oldest buffered match, taken out of the buffer with no byte read; or, where the buffer has
  -- none, the first match of the stream.
  pub data Delivered (target : WaitTarget) (reader : State json) (r : Result JsonlError Value)
      (after : State json) : Type 0 where
    buffered :
        (v : Value)
        → r ≡ ok v
        → Extracts json (matches json target) reader.pending v after.pending
        → after.input ≡ reader.input
        → after.frame ≡ reader.frame
        → IsBounded json after
        → Delivered target reader r after
    streamed :
        All (λ v. matches json target v ≡ false) reader.pending
        → Scanned target reader r after
        → Delivered target reader r after

  -- A wait on a bounded reader ends, with fuel for one turn more than the bytes at hand, and leaves
  -- the reader bounded, on failure too. Where a buffered message matches, the oldest such is
  -- returned and taken out of the buffer, the others keep their order, and no byte is read. Otherwise
  -- the messages that were read from the stream, up to the line that ends the wait, are none that
  -- matches, and the buffer has grown by exactly these, in their order. That line is the first
  -- message of the stream that matches, which is returned, or a line that cannot be read, or a
  -- message that is refused: a response to another request, or one for which the buffer has no room.
  pub read_until_match-Delivered :
      (fuel : ℕ) (target : WaitTarget) (reader : State json)
      → IsBounded json reader
      → size json reader < fuel
      → Returns json (Delivered target reader) (read_until_match json fuel target reader)
  unfolding read_until_match
  read_until_match-Delivered fuel target reader b small =
      elim (Option-cases (extract json (matches json target) reader.pending)) [
        | inr ((v, rest), found) ↦
            rw (found, read_until_match)
              (buffered v (unfold remove_pending in refl)
                (unfold remove_pending in extract-Extracts json _ reader.pending v rest found)
                (unfold remove_pending in refl) (unfold remove_pending in refl)
                (remove_pending-IsBounded json _ reader v rest found b))
        | inl gone ↦
            rw (gone, read_until_match)
              (Returns-mono json (scan json fuel target reader)
                (λ r after v. streamed (extract-none json _ reader.pending gone) v)
                (unfold Continues in
                  scan-Scanned fuel target reader reader b
                    (record {
                      passed = [];
                      taken = none_yet;
                      skipped = tt;
                      grown = sym (append-nil reader.pending);
                      same_ending = refl;
                    })
                    small))
      ]
