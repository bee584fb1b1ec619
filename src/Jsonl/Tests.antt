-- ===== src/Jsonl/Tests.antt =====
-- Runs of the transport over a small message format: src/jsonl.rs, mod tests.
use spark_runner.Prelude.{
  ℕ, ◌-◌, ◌≡◌, refl, ◌≢◌, true, false, List, [], ◌∷◌, ◌++◌, Option, none, some, arith, ◌==◌, ◌≤◌,
  if◌then◌else◌, length, All, All-append,
}
use spark_runner.Prelude.Exec.{ok, err}
use spark_runner.Prelude.Text.{Text, codes, text_eq}
use spark_runner.Jsonl.{
  JsonLib, closed, silent, response_id, is_server_request, max_frame_len, oversized_frame,
}
use spark_runner.Jsonl.Frame.{
  read_frame, newline, yielded, read_frame-line, read_frame-oversized, read_frame-resume,
  read_frame_bounded,
}
use spark_runner.Jsonl.Trim.{Trims, trim_ascii, trim_ascii-Trims}
use spark_runner.Jsonl.Pending.{IsBounded}
use spark_runner.Jsonl.Turn.{Returns}
use spark_runner.Jsonl.Wait.{State, Handler, read_until_match, read_next_message, dispatch}
use spark_runner.Jsonl.Delivery.{Delivered, read_until_match-Delivered}
use spark_runner.Jsonl.Raw.{Next, read_next_message-Next}
use spark_runner.Jsonl.Dispatch.{Answered, CallReturns, dispatch-Answered}

-- A value is a message with an optional id and an optional method, or one of these.
data Toy : Type 0 where
  msg : Option ℕ → Option Text → Toy
  num : ℕ → Toy
  str : Text → Toy

toy_get : Toy → Text → Option Toy
toy_get (msg id method) k =
    if text_eq k (codes "id")
    then id_of id
    else if text_eq k (codes "method")
    then method_of method
    else none
  where
    id_of : Option ℕ → Option Toy
    id_of none = none
    id_of (some n) = some (num n)

    method_of : Option Text → Option Toy
    method_of none = none
    method_of (some t) = some (str t)
toy_get v k = none

toy_u64 : Toy → Option ℕ
toy_u64 (num n) = some n
toy_u64 _ = none

toy_str : Toy → Option Text
toy_str (str t) = some t
toy_str _ = none

-- "r1" is a response to request 1, "q1" a request of the server, "n1" a notification.
toy_parse : List ℕ → Option Toy
toy_parse (tag ∷ n ∷ []) =
    if tag == b'r'
    then some (msg (some (n - b'0')) none)
    else if tag == b'q'
    then some (msg (some (n - b'0')) (some (codes "ask")))
    else if tag == b'n'
    then some (msg none (some (n ∷ [])))
    else none
toy_parse _ = none

abbrev toy : JsonLib
toy = record {
  Value = Toy;
  get = toy_get;
  as_u64 = toy_u64;
  as_str = toy_str;
  from_slice = toy_parse;
  encoded_len = λ _. some 2;
}

abbrev reader : List ℕ → State toy
reader input = record {
  input = input;
  ending = silent;
  frame = [];
  pending = [];
  pending_bytes = 0;
}

reader-IsBounded : (input : List ℕ) → IsBounded toy (reader input)
reader-IsBounded input = omega arith

-- A notification, a request of the server and a blank line come before the response.
abbrev script : List ℕ
script = codes "n7" ++ newline ∷ (codes " q5" ++ newline ∷ newline ∷ (codes "r1" ++ newline ∷ []))

read_frame-line_example : read_frame closed (codes "a") (codes "bc" ++ newline ∷ codes "d") ≡ (
  ok (some (codes "a" ++ codes "bc" ++ newline ∷ [])),
  record { input = codes "d"; frame = [] },
)
read_frame-line_example =
    read_frame-line closed (codes "a") (codes "bc") (codes "d") (omega arith) (omega arith)

-- A long line, kept shut.
filler : ℕ → List ℕ
filler ℕ.zero = []
filler (ℕ.suc n) = b'x' ∷ filler n

length-filler : (n : ℕ) → length (filler n) ≡ n
unfolding filler
length-filler ℕ.zero = refl
length-filler (ℕ.suc n) = omega (arith, length-filler n)

filler-clean : (n : ℕ) → All (λ b. b ≢ newline) (filler n)
unfolding filler
filler-clean ℕ.zero = tt
filler-clean (ℕ.suc n) = (omega arith, filler-clean n)

read_frame-oversized_example :
    read_frame closed [] (filler max_frame_len ++ newline ∷ codes "r1")
    ≡ (err (oversized_frame max_frame_len), record { input = codes "r1"; frame = [] })
read_frame-oversized_example =
    read_frame-oversized closed [] (filler max_frame_len) newline (codes "r1")
      (filler-clean max_frame_len) (omega (arith, length-filler max_frame_len))

read_frame-resume_example :
    read_frame closed (read_frame silent [] (codes "r")).1.frame (b'1' ∷ newline ∷ [])
    ≡ read_frame closed [] (codes "r" ++ b'1' ∷ newline ∷ [])
unfolding read_frame
read_frame-resume_example = read_frame-resume closed [] (codes "r") (b'1' ∷ newline ∷ []) refl

read_frame_bounded_example :
    (length (yielded (read_frame silent [] script).0) ≤ max_frame_len)
    × (length (read_frame silent [] script).1.frame ≤ max_frame_len)
read_frame_bounded_example = read_frame_bounded silent [] script (omega arith)

trim_ascii-Trims_example : Trims (codes " q5 ") (trim_ascii (codes " q5 "))
trim_ascii-Trims_example = trim_ascii-Trims (codes " q5 ")

read_until_match-Delivered_example :
    Returns toy
      (Delivered toy (response_id 1) (reader script))
      (read_until_match toy 20 (response_id 1) (reader script))
read_until_match-Delivered_example =
    read_until_match-Delivered toy 20 (response_id 1) (reader script) (reader-IsBounded script)
      (omega arith)

read_next_message-Next_example :
    Returns toy (Next toy (reader script)) (read_next_message toy 20 (reader script))
read_next_message-Next_example =
    read_next_message-Next toy 20 (reader script) (reader-IsBounded script) (omega arith)

-- The handler keeps the requests that it is shown.
logs : Handler toy (List Toy)
logs v seen = (ok tt, seen ++ v ∷ [])

abbrev Plain : Toy → Type 0
Plain v = is_server_request toy v ≡ false

abbrev AllRequests : List Toy → Type 0
AllRequests = All (λ v. is_server_request toy v ≡ true)

logs-AllRequests :
    (v : Toy) (seen : List Toy)
    → is_server_request toy v ≡ true
    → AllRequests seen
    → AllRequests (logs v seen).1
unfolding logs
logs-AllRequests v seen r h = All-append _ seen (v ∷ []) h (r, tt)

dispatch-Answered_example :
    CallReturns toy
      (Answered toy Plain AllRequests 1 logs (λ v h. h) logs-AllRequests)
      (dispatch toy 60 30 1 logs (reader script, []))
dispatch-Answered_example =
    dispatch-Answered toy Plain AllRequests 1 logs (λ v h. h) logs-AllRequests 60 30 (reader script)
      [] (record { bounded = reader-IsBounded script; held = tt }) tt (omega arith) (omega arith)
