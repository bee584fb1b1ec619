-- ===== src/Jsonl/Stream.antt =====
-- The messages of a stream in the order of their lines, whatever becomes of them: src/jsonl.rs,
-- read_bounded_frame and the parsing of a line.
use spark_runner.Prelude.{◌≡◌, refl, List, [], ◌∷◌, ◌++◌}
use spark_runner.Jsonl.{JsonLib, Ending}
use spark_runner.Jsonl.Frame.{Wire, read_frame}
use spark_runner.Jsonl.Wait.{Line, blank, message, State, framed, read_line}

module _ (json : JsonLib) where
  open json use {Value}

  abbrev pub wire_of : State json → Wire
  wire_of reader = record { input = reader.input; frame = reader.frame }

  -- The next line of a stream, and what is left of the stream.
  unfoldable pub next_line : Ending → Wire → Line Value × Wire
  next_line ending wire =
      let (result, rest) = read_frame ending wire.frame wire.input in (framed json result, rest)

  -- From `start`, the messages `taken` are the next ones of the stream, one after another with
  -- nothing but blank lines between them, and `here` is what is left.
  pub data Takes (ending : Ending) (start : Wire) : List Value → Wire → Type 0 where
    none_yet : Takes ending start [] start
    skip_blank :
        (taken : List Value) (here rest : Wire)
        → Takes ending start taken here
        → next_line ending here ≡ (blank, rest)
        → Takes ending start taken rest
    take_message :
        (taken : List Value) (here rest : Wire) (v : Value)
        → Takes ending start taken here
        → next_line ending here ≡ (message v, rest)
        → Takes ending start (taken ++ v ∷ []) rest

  -- The loops read the lines of the stream, and leave all else of the reader alone.
  pub read_line-next_line :
      (reader : State json)
      → next_line reader.ending (wire_of reader)
        ≡ ((read_line json reader).0, wire_of (read_line json reader).1)
  unfolding next_line read_line
  read_line-next_line reader = refl

  pub ending-read_line : (reader : State json) → (read_line json reader).1.ending ≡ reader.ending
  unfolding read_line
  ending-read_line reader = refl
