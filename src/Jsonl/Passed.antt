-- ===== src/Jsonl/Passed.antt =====
-- What a wait has read of its stream and kept: src/jsonl.rs, read_until_match.
use spark_runner.Prelude.{
  ◌≡◌, sym, ap, subst, ◌∙◌, false, List, [], ◌∷◌, ◌++◌, arith, All, All-append, append_assoc,
}
use spark_runner.Prelude.Exec.{ok}
use spark_runner.Jsonl.{JsonLib, Ending, WaitTarget, matches, push_pending}
use spark_runner.Jsonl.Turn.{pending-read_line}
use spark_runner.Jsonl.Wait.{Line, blank, message, State, read_line}
use spark_runner.Jsonl.Stream.{
  wire_of, next_line, Takes, skip_blank, take_message, read_line-next_line, ending-read_line,
}

module _ (json : JsonLib) where
  open json use {Value}

  -- Of the stream that `start` has, the messages `passed` have been read by `here`, each of them
  -- fails to match, and the buffer has grown by exactly these, in their order.
  pub record Passed (target : WaitTarget) (start here : State json) : Type 0 where
    pub passed : List Value
    pub taken : Takes json start.ending (wire_of json start) passed (wire_of json here)
    pub skipped : All (λ v. matches json target v ≡ false) passed
    pub grown : here.pending ≡ start.pending ++ passed
    pub same_ending : here.ending ≡ start.ending

  -- The line after `here` is the one read, and nothing but the stream has changed.
  pub record Reads (here : State json) (line : Line Value) (after : State json) : Type 0 where
    pub next : next_line json here.ending (wire_of json here) ≡ (line, wire_of json after)
    pub same_pending : after.pending ≡ here.pending
    pub same_ending : after.ending ≡ here.ending

  pub read_line-Reads :
      (reader : State json) → Reads reader (read_line json reader).0 (read_line json reader).1
  read_line-Reads reader = record {
    next = read_line-next_line json reader;
    same_pending = pending-read_line json reader;
    same_ending = ending-read_line json reader;
  }

  next_at :
      (ending : Ending) (here after : State json) (line : Line Value)
      → here.ending ≡ ending
      → Reads here line after
      → next_line json ending (wire_of json here) ≡ (line, wire_of json after)
  next_at ending here after line e r =
      ap (λ (x : Ending). next_line json x (wire_of json here)) (sym e) ∙ r.next

  pub Passed-blank :
      (target : WaitTarget) (start here after : State json)
      → Passed target start here
      → Reads here blank after
      → Passed target start after
  Passed-blank target start here after p r = record {
    passed = p.passed;
    taken =
        skip_blank p.passed (wire_of json here) (wire_of json after) p.taken
          (next_at start.ending here after blank p.same_ending r);
    skipped = p.skipped;
    grown = r.same_pending ∙ p.grown;
    same_ending = r.same_ending ∙ p.same_ending;
  }

  wire-push :
      (reader after : State json) (v : Value)
      → push_pending json reader v ≡ ok after
      → (wire_of json after ≡ wire_of json reader)
        × (after.ending ≡ reader.ending)
        × (after.pending ≡ reader.pending ++ v ∷ [])
  unfolding push_pending
  wire-push reader after v e = ground arith

  pub Passed-push :
      (target : WaitTarget) (start here reader after : State json) (v : Value)
      → push_pending json reader v ≡ ok after
      → matches json target v ≡ false
      → Reads here (message v) reader
      → Passed target start here
      → Passed target start after
  Passed-push target start here reader after v e miss r p =
      let (wire, ending, pending) = wire-push reader after v e in
      record {
        passed = p.passed ++ v ∷ [];
        taken =
            subst (Takes json start.ending (wire_of json start) (p.passed ++ v ∷ [])) (sym wire) (
              take_message p.passed (wire_of json here) (wire_of json reader) v p.taken
                (next_at start.ending here reader (message v) p.same_ending r));
        skipped = All-append _ p.passed (v ∷ []) p.skipped (miss, tt);
        grown =
            pending
            ∙ ap (λ vs. vs ++ v ∷ []) (r.same_pending ∙ p.grown)
            ∙ append_assoc start.pending p.passed (v ∷ []);
        same_ending = ending ∙ r.same_ending ∙ p.same_ending;
      }
