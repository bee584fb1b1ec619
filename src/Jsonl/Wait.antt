-- ===== src/Jsonl/Wait.antt =====
-- The waits of the JSONL client: src/jsonl.rs, read_raw_message, read_until_match,
-- read_next_message, read_response_dispatching_requests.
use spark_runner.Prelude.{
  ℕ, zero, suc, true, false, List, [], ◌∷◌, Option, none, some, if◌then◌else◌,
}
use spark_runner.Prelude.Exec.{Result, ok, err}
use spark_runner.Prelude.Text.{codes}
use spark_runner.Jsonl.{
  JsonLib, JsonlError, Reader, WaitTarget, response_id, notification, stream_closed,
  malformed_frame, unexpected_response_id, is_none, bind, is_server_request, matches, push_pending,
  extract, remove_pending,
}
use spark_runner.Jsonl.Frame.{Wire, read_frame}
use spark_runner.Jsonl.Trim.{trim_ascii}

-- What one turn of a reading loop meets: an error, a blank line, or a message.
pub data Line (V : Type 0) : Type 0 where
  failed : JsonlError → Line V
  blank : Line V
  message : V → Line V

module _ (json : JsonLib) where
  open json use {Value, get, as_u64, as_str, from_slice, encoded_len}

  abbrev pub State : Type 0
  State = Reader Value

  -- A trimmed line: `continue` where nothing is left, and `from_slice` otherwise.
  unfoldable pub parse_line : List ℕ → Line Value
  parse_line [] = blank
  parse_line (b ∷ bs) = elim (from_slice (b ∷ bs)) [
    | none ↦ failed malformed_frame
    | some value ↦ message value
  ]

  abbrev pub framed : Result JsonlError (Option (List ℕ)) → Line Value
  framed (err e) = failed e
  framed (ok none) = failed stream_closed
  framed (ok (some line)) = parse_line (trim_ascii line)

  abbrev pub put_wire : State → Wire → State
  put_wire reader wire = record reader { input = wire.input; frame = wire.frame }

  -- `read_bounded_frame`, `trim_ascii` and `from_slice` at the top of each loop.
  unfoldable pub read_line : State → Line Value × State
  read_line reader =
      let (result, wire) = read_frame reader.ending reader.frame reader.input in
      (framed result, put_wire reader wire)

  -- A loop's outcome: none where the fuel runs out.
  abbrev pub Outcome : Type 0
  Outcome = Option (Result JsonlError Value × State)

  -- One turn of the loop of `read_raw_message`; `again` is the next.
  unfoldable pub raw_line : (State → Outcome) → Line Value × State → Outcome
  raw_line again (failed e, reader) = some (err e, reader)
  raw_line again (blank, reader) = again reader
  raw_line again (message value, reader) = some (ok value, reader)

  unfoldable pub read_raw_message : ℕ → State → Outcome
  unfolding raw_line
  read_raw_message zero reader = none
  read_raw_message (suc fuel) reader = raw_line (read_raw_message fuel) (read_line reader)

  -- `read_next_message`: the oldest buffered message first.
  unfoldable pub read_next_message : ℕ → State → Outcome
  read_next_message fuel reader = elim reader.pending [
    | [] ↦ read_raw_message fuel reader
    | value ∷ rest ↦
        let (v, reader') = remove_pending json reader (value, rest) in some (ok v, reader')
  ]

  -- A response to another request: its id, where there is one to report.
  unfoldable pub stray_response : WaitTarget → Value → Option JsonlError
  stray_response (notification method) value = none
  stray_response (response_id expected) value =
      if is_none (get value (codes "method"))
      then bind (bind (get value (codes "id")) as_u64)
          (λ actual. some (unexpected_response_id expected actual))
      else none

  -- The end of both loops: a message that nobody waits for is a stray response or is buffered.
  unfoldable pub keep_message :
      {A : Type 0} → (JsonlError → State → A) → (State → A) → WaitTarget → Value → State → A
  keep_message fail again target value reader = elim (stray_response target value) [
    | some e ↦ fail e reader
    | none ↦ elim (push_pending json reader value) [
      | err e ↦ fail e reader
      | ok reader' ↦ again reader'
    ]
  ]

  abbrev pub fail_with : JsonlError → State → Outcome
  fail_with e reader = some (err e, reader)

  -- One turn of the loop of `read_until_match`; `again` is the next.
  unfoldable pub scan_line : (State → Outcome) → WaitTarget → Line Value × State → Outcome
  unfolding keep_message
  scan_line again target (failed e, reader) = some (err e, reader)
  scan_line again target (blank, reader) = again reader
  scan_line again target (message value, reader) = elim (matches json target value) [
    | true ↦ some (ok value, reader)
    | false ↦ keep_message fail_with again target value reader
  ]

  unfoldable pub scan : ℕ → WaitTarget → State → Outcome
  unfolding scan_line
  scan zero target reader = none
  scan (suc fuel) target reader = scan_line (scan fuel target) target (read_line reader)

  unfoldable pub read_until_match : ℕ → WaitTarget → State → Outcome
  read_until_match fuel target reader = elim (extract json (matches json target) reader.pending) [
    | some r ↦ let (v, reader') = remove_pending json reader r in some (ok v, reader')
    | none ↦ scan fuel target reader
  ]

  -- The block at the top of the loop in `read_response_dispatching_requests`.
  unfoldable pub next_for_call : ℕ → ℕ → State → Outcome
  next_for_call fuel expected reader =
      elim (extract json (matches json (response_id expected)) reader.pending) [
        | some r ↦ let (v, reader') = remove_pending json reader r in some (ok v, reader')
        | none ↦ elim (extract json (is_server_request json) reader.pending) [
          | some r ↦ let (v, reader') = remove_pending json reader r in some (ok v, reader')
          | none ↦ read_raw_message fuel reader
        ]
      ]

  -- `handler(value).await`: what the owner of the session does with a server request.
  abbrev pub Handler : Type 0 → Type 0
  Handler H = Value → H → Result JsonlError (Unit {0}) × H

  abbrev pub CallOutcome : Type 0 → Type 0
  CallOutcome H = Option (Result JsonlError Value × (State × H))

  -- `handler(value).await?; continue`
  unfoldable pub handle :
      {H : Type 0}
      → (State × H → CallOutcome H)
      → State
      → Result JsonlError (Unit {0}) × H
      → CallOutcome H
  handle again reader (err e, h) = some (err e, (reader, h))
  handle again reader (ok _, h) = again (reader, h)

  -- One turn of the loop of `read_response_dispatching_requests`; `again` is the next.
  unfoldable pub dispatch_message :
      {H : Type 0} → (State × H → CallOutcome H) → ℕ → Handler H → H → Outcome → CallOutcome H
  unfolding handle keep_message
  dispatch_message again expected handler h none = none
  dispatch_message again expected handler h (some (err e, reader)) = some (err e, (reader, h))
  dispatch_message again expected handler h (some (ok value, reader)) =
      elim (matches json (response_id expected) value) [
        | true ↦ some (ok value, (reader, h))
        | false ↦ elim (is_server_request json value) [
          | true ↦ handle again reader (handler value h)
          | false ↦
              keep_message (λ e r. some (err e, (r, h))) (λ r. again (r, h)) (response_id expected)
                value reader
        ]
      ]

  -- `raw` is the fuel of each `read_raw_message`.
  unfoldable pub dispatch : {H : Type 0} → ℕ → ℕ → ℕ → Handler H → State × H → CallOutcome H
  unfolding dispatch_message
  dispatch zero raw expected handler (reader, h) = none
  dispatch (suc fuel) raw expected handler (reader, h) =
      dispatch_message (dispatch fuel raw expected handler) expected handler h
        (next_for_call raw expected reader)
