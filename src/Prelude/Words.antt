-- ===== src/Prelude/Words.antt =====
-- `usize` and `u64` of a 64-bit target: the bound and Rust's saturating operations.
use Prim.Native.Nat.{ℕ, ◌+◌, ◌-◌, ◌^◌, ◌%◌, min}

-- `u64::MAX`, which is `usize::MAX` too.
abbrev pub u64_max : ℕ
u64_max = 2 ^ 64 - 1

abbrev pub saturating_add : ℕ → ℕ → ℕ
saturating_add a b = min (a + b) u64_max

-- Subtraction on ℕ stops at 0 already.
abbrev pub saturating_sub : ℕ → ℕ → ℕ
saturating_sub a b = a - b

-- `a += 1` on a `u64` counter of a release build.
abbrev pub next_u64 : ℕ → ℕ
next_u64 a = (a + 1) % 2 ^ 64
