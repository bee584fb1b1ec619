-- ===== src/Owner/Names.antt =====
-- The names that the owner makes: src/api.rs, `format!("turn_{}", ...)` and its kin.
use spark_runner.Prelude.{
  ℕ, zero, suc, ◌+◌, ◌-◌, ◌*◌, ◌/◌, ◌%◌, ◌≤◌, ◌<◌, ◌≡◌, refl, sym, ap, ◌∙◌, [], ◌∷◌, ◌++◌, ltb,
  if◌then◌else◌, drop, arith, Bool-cases, inl, inr,
}
use spark_runner.Prelude.Text.{Text, codes}

-- `Display` of an unsigned integer: its decimal digits. A number has no more digits than its fuel.
unfoldable pub decimal_from : ℕ → ℕ → Text
decimal_from zero n = []
decimal_from (suc fuel) n =
    let front = decimal_from fuel (n / 10) in
    if ltb n 10 then (48 + n) ∷ [] else front ++ (48 + n % 10) ∷ []

unfoldable pub decimal : ℕ → Text
unfolding decimal_from
decimal n = decimal_from (suc n) n

unfoldable pub thread_name : ℕ → Text
unfolding decimal
thread_name n = codes "thread_" ++ decimal n

unfoldable pub turn_name : ℕ → Text
unfolding decimal
turn_name n = codes "turn_" ++ decimal n

unfoldable pub approval_name : ℕ → Text
unfolding decimal
approval_name n = codes "approval_" ++ decimal n

-- The number that a text of digits stands for.
abbrev value : ℕ → Text → ℕ
value n [] = n
value n (c ∷ t) = value (n * 10 + (c - 48)) t

value-append : (n : ℕ) (s t : Text) → value n (s ++ t) ≡ value (value n s) t
value-append n [] t = refl
value-append n (c ∷ s) t = value-append (n * 10 + (c - 48)) s t

value-decimal_from : (fuel n : ℕ) → n < fuel → value 0 (decimal_from fuel n) ≡ n
unfolding decimal_from
value-decimal_from zero n h = absurd (omega arith)
value-decimal_from (suc fuel) n h = elim (Bool-cases (ltb n 10)) [
  | inl small ↦ rw small (omega arith)
  | inr large ↦
      let ten : 10 ≤ n = ground (arith, large) in
      let front = value-decimal_from fuel (n / 10) (omega arith) in
      rw large
        (value-append 0 (decimal_from fuel (n / 10)) ((48 + n % 10) ∷ []) ∙ omega (arith, front))
]

decimal-injective : (m n : ℕ) → decimal m ≡ decimal n → m ≡ n
unfolding decimal
decimal-injective m n e =
    sym (value-decimal_from (suc m) m (omega arith))
    ∙ ap (value 0) e
    ∙ value-decimal_from (suc n) n (omega arith)

-- No two turns get the same name.
pub turn_name-injective : (m n : ℕ) → turn_name m ≡ turn_name n → m ≡ n
unfolding turn_name
turn_name-injective m n e = decimal-injective m n (ap (drop 5) e)

turn_name_of_ten : turn_name 1024 ≡ codes "turn_1024"
unfolding turn_name
turn_name_of_ten = refl
