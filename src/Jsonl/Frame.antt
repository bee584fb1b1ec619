-- ===== src/Jsonl/Frame.antt =====
-- One line of the child's output: src/jsonl.rs, read_bounded_frame.
use spark_runner.Prelude.{
  ℕ, ◌+◌, ◌≤◌, ◌<◌, ◌≡◌, refl, ◌≢◌, List, [], ◌∷◌, ◌++◌, Option, none, some, arith, ◌==◌,
  if◌then◌else◌, length, length-append, All, append_assoc, append-nil,
}
use spark_runner.Prelude.Exec.{Result, ok, err}
use spark_runner.Jsonl.{
  JsonlError, io, timeout, oversized_frame, Ending, closed, silent, broken, max_frame_len,
}

-- The bytes to come, and the unfinished frame, which the reader keeps across cancelled reads.
pub record Wire : Type 0 where
  pub input : List ℕ
  pub frame : List ℕ

abbrev pub Frame : Type 0
Frame = Result JsonlError (Option (List ℕ)) × Wire

abbrev pub newline : ℕ
newline = 10

-- `read` returned 0: at the limit the unterminated frame is refused.
unfoldable pub at_eof : List ℕ → Frame
at_eof frame =
    if length frame == max_frame_len
    then (err (oversized_frame max_frame_len), record { input = []; frame = [] })
    else elim frame [
      | [] ↦ (ok none, record { input = []; frame = [] })
      | b ∷ bs ↦ (ok (some (b ∷ bs)), record { input = []; frame = [] })
    ]

-- The loop. A read that stays pending is cancelled by the caller's timeout, which leaves the frame.
unfoldable pub read_frame : Ending → List ℕ → List ℕ → Frame
unfolding at_eof
read_frame closed frame [] = at_eof frame
read_frame silent frame [] = (err timeout, record { input = []; frame = frame })
read_frame broken frame [] = (err io, record { input = []; frame = frame })
read_frame ending frame (byte ∷ input) =
    let rest = read_frame ending (frame ++ byte ∷ []) input in
    if length frame == max_frame_len
    then (err (oversized_frame max_frame_len), record { input = input; frame = [] })
    else if byte == newline
    then (ok (some (frame ++ byte ∷ [])), record { input = input; frame = [] })
    else rest

abbrev pub NoNewline : List ℕ → Type 0
NoNewline = All (λ b. b ≢ newline)

-- A line of at most `max_frame_len` bytes, its newline included, comes back whole, and the reader
-- stands at the next line.
pub read_frame-line :
    (ending : Ending) (frame line rest : List ℕ)
    → NoNewline line
    → length frame + length line < max_frame_len
    → read_frame ending frame (line ++ newline ∷ rest)
      ≡ (ok (some (frame ++ line ++ newline ∷ [])), record { input = rest; frame = [] })
unfolding read_frame
read_frame-line ending frame [] rest clean small = ground (arith, append-nil frame)
read_frame-line ending frame (b ∷ line) rest clean small = ground (
  arith,
  clean.0,
  read_frame-line ending (frame ++ b ∷ []) line rest clean.1,
  append_assoc frame (b ∷ []) line,
  length-append frame (b ∷ []),
)

-- A line that is longer fails, whatever follows: the byte past the limit is consumed and the
-- unfinished frame is dropped.
pub read_frame-oversized :
    (ending : Ending) (frame line : List ℕ) (byte : ℕ) (rest : List ℕ)
    → NoNewline line
    → length frame + length line ≡ max_frame_len
    → read_frame ending frame (line ++ byte ∷ rest)
      ≡ (err (oversized_frame max_frame_len), record { input = rest; frame = [] })
unfolding read_frame
read_frame-oversized ending frame [] byte rest clean full = ground arith
read_frame-oversized ending frame (b ∷ line) byte rest clean full = ground (
  arith,
  clean.0,
  read_frame-oversized ending (frame ++ b ∷ []) line byte rest clean.1,
  length-append frame (b ∷ []),
)

-- A read that is cancelled in mid-line loses nothing: from the frame that it leaves, the next read
-- over the bytes that come later gives what one uninterrupted read would have given.
pub read_frame-resume :
    (ending : Ending) (frame early late : List ℕ)
    → (read_frame silent frame early).0 ≡ err timeout
    → read_frame ending (read_frame silent frame early).1.frame late
      ≡ read_frame ending frame (early ++ late)
unfolding read_frame
read_frame-resume ending frame [] late h = refl
read_frame-resume ending frame (b ∷ early) late h =
    ground (arith, read_frame-resume ending (frame ++ b ∷ []) early late)

-- The frame that a result carries.
abbrev pub yielded : Result JsonlError (Option (List ℕ)) → List ℕ
yielded (ok (some frame)) = frame
yielded _ = []

-- Whatever the child writes, neither the frame that is returned nor the one that is kept is longer
-- than the limit.
pub read_frame_bounded :
    (ending : Ending) (frame input : List ℕ)
    → length frame ≤ max_frame_len
    → (length (yielded (read_frame ending frame input).0) ≤ max_frame_len)
      × (length (read_frame ending frame input).1.frame ≤ max_frame_len)
unfolding read_frame
read_frame_bounded closed [] [] h = ground arith
read_frame_bounded closed (c ∷ frame) [] h = ground arith
read_frame_bounded silent frame [] h = ground arith
read_frame_bounded broken frame [] h = ground arith
read_frame_bounded ending frame (b ∷ input) h =
    ground (arith, read_frame_bounded ending (frame ++ b ∷ []) input, length-append frame (b ∷ []))

-- The bytes that the reader still holds or expects.
abbrev pub wire_size : Wire → ℕ
wire_size w = length w.input + length w.frame

-- A frame that is returned leaves fewer bytes.
pub wire_size-read_frame :
    (ending : Ending) (frame input line : List ℕ)
    → (read_frame ending frame input).0 ≡ ok (some line)
    → wire_size (read_frame ending frame input).1 < length input + length frame
unfolding read_frame
wire_size-read_frame closed [] [] line h = ground arith
wire_size-read_frame closed (c ∷ frame) [] line h = ground arith
wire_size-read_frame silent frame [] line h = ground arith
wire_size-read_frame broken frame [] line h = ground arith
wire_size-read_frame ending frame (b ∷ input) line h =
    ground (
      arith,
      wire_size-read_frame ending (frame ++ b ∷ []) input line,
      length-append frame (b ∷ []),
    )
