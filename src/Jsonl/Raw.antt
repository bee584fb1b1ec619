-- ===== src/Jsonl/Raw.antt =====
-- The next message of the stream: src/jsonl.rs, read_raw_message and read_next_message.
use spark_runner.Prelude.{ℕ, zero, suc, ◌<◌, ◌≡◌, refl, ◌∙◌, true, List, [], ◌∷◌, arith}
use spark_runner.Prelude.Exec.{Result, ok}
use spark_runner.Jsonl.{JsonLib, JsonlError, extract, remove_pending}
use spark_runner.Jsonl.Pending.{IsBounded, remove_pending-IsBounded}
use spark_runner.Jsonl.Turn.{
  size, Progress, read_line-Progress, pending-read_line, read_line-IsBounded, Returns, Returns-mono,
}
use spark_runner.Jsonl.Wait.{
  Line, failed, blank, message, State, Outcome, read_line, raw_line, read_raw_message,
  read_next_message,
}

module _ (json : JsonLib) where
  open json use {Value}

  -- A message of the stream leaves the buffer alone and fewer bytes to take.
  pub record Streamed (reader : State json) (r : Result JsonlError Value) (after : State json)
      : Type 0 where
    pub bounded : IsBounded json after
    pub pending : after.pending ≡ reader.pending
    pub less : (v : Value) → r ≡ ok v → size json after < size json reader

  raw_line-Streamed :
      (reader : State json) (again : State json → Outcome json)
      → ((next : State json)
          → IsBounded json next
          → size json next < size json reader
          → Returns json (Streamed next) (again next))
      → (line : Line Value) (next : State json) → Progress json (size json reader) (line, next)
      → IsBounded json next
      → next.pending ≡ reader.pending
      → Returns json (Streamed reader) (raw_line json again (line, next))
  unfolding raw_line
  raw_line-Streamed reader again continues (failed e) next p b same = record {
    bounded = b;
    pending = same;
    less = λ v h. absurd (cc);
  }
  raw_line-Streamed reader again continues blank next p b same =
      Returns-mono json (again next)
        (λ r after s. record {
          bounded = s.bounded;
          pending = s.pending ∙ same;
          less = λ v h. omega (arith, s.less v h);
        })
        (continues next b p)
  raw_line-Streamed reader again continues (message v) next p b same = record {
    bounded = b;
    pending = same;
    less = λ w h. p;
  }

  pub read_raw_message-Streamed :
      (fuel : ℕ) (reader : State json)
      → IsBounded json reader
      → size json reader < fuel
      → Returns json (Streamed reader) (read_raw_message json fuel reader)
  unfolding read_raw_message
  read_raw_message-Streamed zero reader b small = absurd (omega arith)
  read_raw_message-Streamed (suc fuel) reader b small =
      raw_line-Streamed reader (read_raw_message json fuel)
        (λ next b' less. read_raw_message-Streamed fuel next b' (omega arith))
        (read_line json reader).0 (read_line json reader).1 (read_line-Progress json reader)
        (read_line-IsBounded json reader b) (pending-read_line json reader)

  -- Where the message of `next_message` comes from.
  pub data Next (reader : State json) (r : Result JsonlError Value) (after : State json)
      : Type 0 where
    buffered :
        (v : Value)
        → r ≡ ok v
        → reader.pending ≡ v ∷ after.pending
        → after.input ≡ reader.input
        → after.frame ≡ reader.frame
        → IsBounded json after
        → Next reader r after
    streamed : reader.pending ≡ [] → Streamed reader r after → Next reader r after

  head-IsBounded :
      (reader : State json) (v : Value) (rest : List Value)
      → reader.pending ≡ v ∷ rest
      → IsBounded json reader
      → IsBounded json (remove_pending json reader (v, rest)).1
  unfolding extract
  head-IsBounded reader v rest e b =
      remove_pending-IsBounded json (λ _. true) reader v rest (rw (e, extract) refl) b

  -- The read of `next_message` on a bounded reader ends, with fuel for one turn more than the bytes at
  -- hand, and is first in, first out: the oldest buffered message comes before any byte is read, and
  -- the stream is read only when the buffer is empty, which then stays empty.
  pub read_next_message-Next :
      (fuel : ℕ) (reader : State json)
      → IsBounded json reader
      → size json reader < fuel
      → Returns json (Next reader) (read_next_message json fuel reader)
  unfolding read_next_message
  read_next_message-Next fuel reader b small = go reader.pending refl
    where
      go :
          (pending : List Value)
          → reader.pending ≡ pending
          → Returns json (Next reader) (read_next_message json fuel reader)
      go [] e =
          simp (e, read_next_message)
            (Returns-mono json (read_raw_message json fuel reader) (λ r after s. streamed e s)
              (read_raw_message-Streamed fuel reader b small))
      go (v ∷ rest) e =
          simp (e, read_next_message)
            (buffered v (unfold remove_pending in refl) (unfold remove_pending in e)
              (unfold remove_pending in refl) (unfold remove_pending in refl)
              (head-IsBounded reader v rest e b))
