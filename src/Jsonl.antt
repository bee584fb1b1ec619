-- ===== src/Jsonl.antt =====
-- The JSONL transport: src/jsonl.rs. JSON values are serde_json's, taken as an interface.
pub mod Frame
pub mod Trim
pub mod Wait
pub mod Pending
pub mod Turn
pub mod Stream
pub mod Passed
pub mod Delivery
pub mod Raw
pub mod Dispatch
pub mod Tests
use spark_runner.Prelude.{
  ℕ, ◌+◌, ◌*◌, ◌≡◌, Bool, true, false, ◌&&◌, ◌||◌, List, [], ◌∷◌, ◌++◌, Option, none, some, ltb,
  ◌==◌, if◌then◌else◌, length, saturating_add, saturating_sub,
}
use spark_runner.Prelude.Exec.{Result, ok, err}
use spark_runner.Prelude.Text.{Text, codes, text_eq}

abbrev pub max_frame_len : ℕ
max_frame_len = 1024 * 1024

abbrev pub max_pending_messages : ℕ
max_pending_messages = 128

abbrev pub max_pending_bytes : ℕ
max_pending_bytes = 2 * max_frame_len

-- What the code takes from serde_json: `Value`, its readers, and its two codecs.
pub record JsonLib : Type 1 where
  pub Value : Type 0
  pub get : Value → Text → Option Value
  pub as_u64 : Value → Option ℕ
  pub as_str : Value → Option Text
  -- `from_slice`: none for a text that is not JSON
  pub from_slice : List ℕ → Option Value
  -- the length of `to_vec`: none where it fails
  pub encoded_len : Value → Option ℕ

-- `Duration` payloads and texts of inner errors are left out.
pub data JsonlError : Type 0 where
  io serde stream_closed timeout malformed_frame server_request_during_call : JsonlError
  remote : ℕ → JsonlError
  oversized_frame : ℕ → JsonlError
  unexpected_response_id : ℕ → ℕ → JsonlError

unfoldable pub is_desync : JsonlError → Bool
is_desync (oversized_frame limit) = true
is_desync malformed_frame = true
is_desync server_request_during_call = true
is_desync (unexpected_response_id expected actual) = true
is_desync _ = false

-- What follows the bytes that the child has written so far: end of file, silence until the caller's
-- timeout fires, or a read error.
pub data Ending : Type 0 where
  closed silent broken : Ending

-- ReaderState. `input` is what `stdout` has yet to yield.
pub record Reader (V : Type 0) : Type 0 where
  pub input : List ℕ
  pub ending : Ending
  pub frame : List ℕ
  pub pending : List V
  pub pending_bytes : ℕ

pub data WaitTarget : Type 0 where
  response_id : ℕ → WaitTarget
  notification : Text → WaitTarget

abbrev pub is_some {ℓ} : {A : Type ℓ} → Option A → Bool
is_some none = false
is_some (some a) = true

abbrev pub is_none {ℓ} : {A : Type ℓ} → Option A → Bool
is_none none = true
is_none (some a) = false

abbrev pub bind {ℓ κ} : {A : Type ℓ} {B : Type κ} → Option A → (A → Option B) → Option B
bind none f = none
bind (some a) f = f a

abbrev pub is_number : Option ℕ → ℕ → Bool
is_number none n = false
is_number (some m) n = m == n

abbrev pub is_text : Option Text → Text → Bool
is_text none t = false
is_text (some s) t = text_eq s t

-- `map_or(0, ...)` over a length
abbrev pub or_zero : Option ℕ → ℕ
or_zero none = 0
or_zero (some n) = n

module _ (json : JsonLib) where
  open json use {Value, get, as_u64, as_str, encoded_len}

  unfoldable pub is_server_request : Value → Bool
  is_server_request value = is_some (get value (codes "id")) && is_some (get value (codes "method"))

  unfoldable pub matches : WaitTarget → Value → Bool
  matches (response_id id) value =
      is_none (get value (codes "method")) && is_number (bind (get value (codes "id")) as_u64) id
  matches (notification method) value =
      is_none (get value (codes "id")) && is_text (bind (get value (codes "method")) as_str) method

  -- The new state, or the error that leaves it alone.
  unfoldable pub push_pending : Reader Value → Value → Result JsonlError (Reader Value)
  push_pending reader value = elim (encoded_len value) [
    | none ↦ err serde
    | some bytes ↦
        if length reader.pending == max_pending_messages
          || ltb max_pending_bytes (saturating_add reader.pending_bytes bytes)
        then err (oversized_frame max_pending_bytes)
        else ok (record reader {
          pending_bytes = reader.pending_bytes + bytes;
          pending = reader.pending ++ value ∷ [];
        })
  ]

  -- `iter().position(test)`, then `Vec::remove`: the first value that passes, and the others.
  unfoldable pub extract : (Value → Bool) → List Value → Option (Value × List Value)
  extract test [] = none
  extract test (v ∷ vs) =
      if test v then some (v, vs) else bind (extract test vs) (λ r. some (r.0, v ∷ r.1))

  -- The accounting of `remove_pending`, once `value` is out of the list.
  unfoldable pub remove_pending : Reader Value → Value × List Value → Value × Reader Value
  remove_pending reader (value, rest) = (
    value,
    record reader {
      pending = rest;
      pending_bytes = saturating_sub reader.pending_bytes (or_zero (encoded_len value));
    },
  )
