-- ===== src/Jsonl/Pending.antt =====
-- The buffer of unmatched messages: src/jsonl.rs, push_pending and remove_pending.
use spark_runner.Prelude.{
  ℕ, ◌+◌, ◌≤◌, ◌≡◌, inl, inr, Bool, true, false, List, [], ◌∷◌, ◌++◌, Option, none, some, arith,
  length, length-append, All, Option-cases, Bool-cases,
}
use spark_runner.Prelude.Exec.{ok}
use spark_runner.Jsonl.{
  JsonLib, Reader, max_frame_len, max_pending_messages, max_pending_bytes, or_zero, push_pending,
  extract, remove_pending,
}

module _ (json : JsonLib) where
  open json use {Value, encoded_len}

  -- The bytes that the buffered messages stand for.
  abbrev pub total_encoded : List Value → ℕ
  total_encoded [] = 0
  total_encoded (v ∷ vs) = or_zero (encoded_len v) + total_encoded vs

  pub total_encoded-append :
      (xs ys : List Value) → total_encoded (xs ++ ys) ≡ total_encoded xs + total_encoded ys
  total_encoded-append [] ys = omega arith
  total_encoded-append (x ∷ xs) ys = omega (arith, total_encoded-append xs ys)

  -- The reader's memory is bounded, and its byte counter is exact.
  pub record IsBounded (reader : Reader Value) : Type 0 where
    pub few : length reader.pending ≤ max_pending_messages
    pub exact : reader.pending_bytes ≡ total_encoded reader.pending
    pub light : reader.pending_bytes ≤ max_pending_bytes
    pub short : length reader.frame ≤ max_frame_len

  -- Where the value that passes stood.
  pub record Extracts (test : Value → Bool) (vs : List Value) (v : Value) (rest : List Value)
      : Type 0 where
    pub before : List Value
    pub behind : List Value
    pub here : vs ≡ before ++ v ∷ behind
    pub left : rest ≡ before ++ behind
    pub passes : test v ≡ true
    pub first : All (λ u. test u ≡ false) before

  pub extract-Extracts :
      (test : Value → Bool) (vs : List Value) (v : Value) (rest : List Value)
      → extract json test vs ≡ some (v, rest)
      → Extracts test vs v rest
  unfolding extract
  extract-Extracts test [] v rest e = absurd (cc)
  extract-Extracts test (x ∷ vs) v rest e = elim (Bool-cases (test x)) [
    | inl hit ↦ record {
      before = [];
      behind = vs;
      here = ground arith;
      left = ground arith;
      passes = ground arith;
      first = tt;
    }
    | inr miss ↦ elim (Option-cases (extract json test vs)) [
      | inl gone ↦ absurd (cc (rw (miss, gone) at e))
      | inr ((u, others), found) ↦
          let w = extract-Extracts test vs u others found in
          let step : ◌≡◌ {A = Option (Value × List Value)} (some (u, x ∷ others)) (some (v, rest)) =
            rw (miss, found) at e in
          record {
            before = x ∷ w.before;
            behind = w.behind;
            here = ground (arith, w.here);
            left = ground (arith, w.left);
            passes = ground (arith, w.passes);
            first = (miss, w.first);
          }
    ]
  ]

  pub extract-none :
      (test : Value → Bool) (vs : List Value)
      → extract json test vs ≡ none
      → All (λ u. test u ≡ false) vs
  unfolding extract
  extract-none test [] e = tt
  extract-none test (x ∷ vs) e = (ground arith, extract-none test vs (ground arith))

  total_encoded-remove :
      {test : Value → Bool} {vs : List Value} {v : Value} {rest : List Value}
      → Extracts test vs v rest
      → total_encoded vs ≡ or_zero (encoded_len v) + total_encoded rest
  total_encoded-remove {v = v} w =
      rw (w.here, w.left)
        (omega (
          arith,
          total_encoded-append w.before (v ∷ w.behind),
          total_encoded-append w.before w.behind,
        ))

  length-remove :
      {test : Value → Bool} {vs : List Value} {v : Value} {rest : List Value}
      → Extracts test vs v rest
      → length vs ≡ length rest + 1
  length-remove {v = v} w =
      rw (w.here, w.left)
        (omega (arith, length-append w.before (v ∷ w.behind), length-append w.before w.behind))

  pub remove_pending-IsBounded :
      (test : Value → Bool) (reader : Reader Value) (v : Value) (rest : List Value)
      → extract json test reader.pending ≡ some (v, rest)
      → IsBounded reader
      → IsBounded (remove_pending json reader (v, rest)).1
  unfolding remove_pending
  remove_pending-IsBounded test reader v rest e b =
      let w = extract-Extracts test reader.pending v rest e in
      let size = total_encoded-remove w in
      let count = length-remove w in
      record {
        few = omega (arith, b.few);
        exact = omega (arith, b.exact);
        light = omega (arith, b.light);
        short = b.short;
      }

  pub push_pending-IsBounded :
      (reader after : Reader Value) (v : Value)
      → push_pending json reader v ≡ ok after
      → IsBounded reader
      → IsBounded after
  unfolding push_pending
  push_pending-IsBounded reader after v e b =
      ground
        (arith, length-append reader.pending (v ∷ []), total_encoded-append reader.pending (v ∷ []))

  pub pending-push :
      (reader after : Reader Value) (v : Value)
      → push_pending json reader v ≡ ok after
      → (after.pending ≡ reader.pending ++ v ∷ [])
        × (after.input ≡ reader.input)
        × (after.frame ≡ reader.frame)
  unfolding push_pending
  pending-push reader after v e = ground arith
