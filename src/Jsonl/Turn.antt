-- ===== src/Jsonl/Turn.antt =====
-- One turn of a reading loop: src/jsonl.rs, the head of read_raw_message and read_until_match.
use spark_runner.Prelude.{ℕ, ◌+◌, ◌<◌, ◌≡◌, refl, List, Option, none, some, length}
use spark_runner.Prelude.Exec.{Result, ok, err}
use spark_runner.Jsonl.{JsonLib, JsonlError}
use spark_runner.Jsonl.Frame.{read_frame, wire_size-read_frame, read_frame_bounded}
use spark_runner.Jsonl.Trim.{trim_ascii}
use spark_runner.Jsonl.Pending.{IsBounded}
use spark_runner.Jsonl.Wait.{
  Line, failed, blank, message, State, Outcome, framed, parse_line, read_line,
}

module _ (json : JsonLib) where
  open json use {Value}

  -- The bytes that the loop can still take.
  abbrev pub size : State json → ℕ
  size reader = length reader.input + length reader.frame

  -- A line that lets the loop go on has taken bytes.
  abbrev pub Progress : ℕ → Line Value × State json → Type 0
  Progress n (failed e, reader) = Unit {0}
  Progress n (blank, reader) = size reader < n
  Progress n (message v, reader) = size reader < n

  parsed_less :
      (n : ℕ) (line : Line Value) (reader : State json)
      → size reader < n
      → Progress n (line, reader)
  parsed_less n (failed e) reader h = tt
  parsed_less n blank reader h = h
  parsed_less n (message v) reader h = h

  framed_less :
      (n : ℕ) (r : Result JsonlError (Option (List ℕ))) (reader : State json)
      → ((line : List ℕ) → r ≡ ok (some line) → size reader < n)
      → Progress n (framed json r, reader)
  framed_less n (err e) reader h = tt
  framed_less n (ok none) reader h = tt
  framed_less n (ok (some line)) reader h =
      parsed_less n (parse_line json (trim_ascii line)) reader (h line refl)

  pub read_line-Progress : (reader : State json) → Progress (size reader) (read_line json reader)
  unfolding read_line
  read_line-Progress reader =
      framed_less (size reader) (read_frame reader.ending reader.frame reader.input).0 _
        (wire_size-read_frame reader.ending reader.frame reader.input)

  pub pending-read_line : (reader : State json) → (read_line json reader).1.pending ≡ reader.pending
  unfolding read_line
  pending-read_line reader = refl

  pub read_line-IsBounded :
      (reader : State json) → IsBounded json reader → IsBounded json (read_line json reader).1
  unfolding read_line
  read_line-IsBounded reader b = record {
    few = b.few;
    exact = b.exact;
    light = b.light;
    short = (read_frame_bounded reader.ending reader.frame reader.input b.short).1;
  }

  -- The loop has an outcome, and it is as `Q` says.
  abbrev pub Returns : (Result JsonlError Value → State json → Type 0) → Outcome json → Type 0
  Returns Q none = ⊥
  Returns Q (some (r, reader)) = Q r reader

  pub Returns-mono :
      {P Q : Result JsonlError Value → State json → Type 0} (o : Outcome json)
      → ((r : Result JsonlError Value) (reader : State json) → P r reader → Q r reader)
      → Returns P o
      → Returns Q o
  Returns-mono none f h = absurd h
  Returns-mono (some (r, reader)) f h = f r reader h
