-- ===== src/Jsonl/Trim.antt =====
-- Trimming a frame: src/jsonl.rs, trim_ascii.
use spark_runner.Prelude.{
  ℕ, suc, ◌-◌, ◌≤◌, ◌≡◌, refl, ap, ◌≢◌, ◌⊎◌, inl, inr, List, [], ◌∷◌, ◌++◌, Option, none, some,
  arith, ◌==◌, if◌then◌else◌, Bool, true, false, ◌||◌, length, length-append, All, drop, take,
  Option-cases, Bool-cases,
}

-- `u8::is_ascii_whitespace`
unfoldable pub is_ascii_whitespace : ℕ → Bool
is_ascii_whitespace b = b == 32 || b == 9 || b == 10 || b == 12 || b == 13

-- What an index in the tail is in the whole list.
abbrev shift : Option ℕ → Option ℕ
shift none = none
shift (some n) = some (suc n)

-- `iter().position(|byte| !byte.is_ascii_whitespace())`
unfoldable pub position_solid : List ℕ → Option ℕ
position_solid [] = none
position_solid (b ∷ bs) = if is_ascii_whitespace b then shift (position_solid bs) else some 0

-- `iter().rposition(|byte| !byte.is_ascii_whitespace())`
unfoldable pub rposition_solid : List ℕ → Option ℕ
rposition_solid [] = none
rposition_solid (b ∷ bs) = elim (rposition_solid bs) [
  | none ↦ if is_ascii_whitespace b then none else some 0
  | some n ↦ some (suc n)
]

-- `unwrap_or(n)`
abbrev pub unwrap_or : Option ℕ → ℕ → ℕ
unwrap_or none n = n
unwrap_or (some m) n = m

-- `map_or(n, |index| index + 1)`
abbrev pub past_or : Option ℕ → ℕ → ℕ
past_or none n = n
past_or (some m) n = suc m

unfoldable pub trim_ascii : List ℕ → List ℕ
unfolding position_solid rposition_solid
trim_ascii bytes =
    let start = unwrap_or (position_solid bytes) (length bytes) in
    let finish = past_or (rposition_solid bytes) start in take (finish - start) (drop start bytes)

abbrev pub Blank : List ℕ → Type 0
Blank = All (λ b. is_ascii_whitespace b ≡ true)

-- `t` is the longest part of `bytes` that neither begins nor ends in whitespace, or nothing.
pub record Trims (bytes t : List ℕ) : Type 0 where
  pub front : List ℕ
  pub back : List ℕ
  pub split : bytes ≡ front ++ (t ++ back)
  pub blank_front : Blank front
  pub blank_back : Blank back
  pub solid_first : (b : ℕ) (bs : List ℕ) → t ≡ b ∷ bs → is_ascii_whitespace b ≡ false
  pub solid_last : (bs : List ℕ) (b : ℕ) → t ≡ bs ++ b ∷ [] → is_ascii_whitespace b ≡ false

-- The list up to its last solid byte, as a recursion.
trim_end : List ℕ → List ℕ
trim_end bytes = take (past_or (rposition_solid bytes) 0) bytes

none_solid : (bytes : List ℕ) → rposition_solid bytes ≡ none → Blank bytes
unfolding rposition_solid
none_solid [] h = tt
none_solid (b ∷ bs) h = (ground arith, none_solid bs (ground arith))

position_rposition :
    (bytes : List ℕ)
    → ((position_solid bytes ≡ none) × (rposition_solid bytes ≡ none))
      ⊎ ((m : ℕ) × (n : ℕ) × (position_solid bytes ≡ some m)
          × (rposition_solid bytes ≡ some n)
          × (m ≤ n))
unfolding position_solid rposition_solid
position_rposition [] = inl (refl, refl)
position_rposition (b ∷ bs) = elim (position_rposition bs) [
  | inl (p, q) ↦ elim (Bool-cases (is_ascii_whitespace b)) [
    | inl w ↦ inl (ground arith, ground arith)
    | inr w ↦ inr (0, 0, rw w refl, rw (q, w) refl, omega arith)
  ]
  | inr (m, n, p, q, le) ↦ elim (Bool-cases (is_ascii_whitespace b)) [
    | inl w ↦ inr (suc m, suc n, rw (w, p) refl, rw q refl, omega arith)
    | inr w ↦ inr (0, suc n, rw w refl, rw q refl, omega arith)
  ]
]

trim_ascii-blank :
    (b : ℕ) (bs : List ℕ) → is_ascii_whitespace b ≡ true → trim_ascii (b ∷ bs) ≡ trim_ascii bs
unfolding trim_ascii
trim_ascii-blank b bs w = elim (position_rposition bs) [
  | inl (p, q) ↦ ground arith
  | inr (m, n, p, q, le) ↦ ground arith
]

trim_ascii-solid :
    (b : ℕ) (bs : List ℕ) → is_ascii_whitespace b ≡ false → trim_ascii (b ∷ bs) ≡ b ∷ trim_end bs
unfolding trim_ascii trim_end
trim_ascii-solid b bs w = elim (Option-cases (rposition_solid bs)) [
  | inl q ↦ ground arith
  | inr (n, q) ↦ ground arith
]

record TrimsEnd (bytes t : List ℕ) : Type 0 where
  back : List ℕ
  split : bytes ≡ t ++ back
  blank_back : Blank back
  solid_last : (bs : List ℕ) (b : ℕ) → t ≡ bs ++ b ∷ [] → is_ascii_whitespace b ≡ false

cons_last :
    (b : ℕ) (t : List ℕ)
    → (t ≡ [] → is_ascii_whitespace b ≡ false)
    → ((bs : List ℕ) (c : ℕ) → t ≡ bs ++ c ∷ [] → is_ascii_whitespace c ≡ false)
    → (bs : List ℕ) (c : ℕ) → b ∷ t ≡ bs ++ c ∷ []
    → is_ascii_whitespace c ≡ false
cons_last b t alone more [] c e = ground (arith, alone)
cons_last b t alone more (d ∷ bs) c e = more bs c (cc)

trim_end-more :
    (b n : ℕ) (bs : List ℕ)
    → rposition_solid bs ≡ some n
    → (trim_end (b ∷ bs) ≡ b ∷ trim_end bs) × (trim_end bs ≢ [])
unfolding trim_end rposition_solid
trim_end-more b n [] q = cc
trim_end-more b n (c ∷ bs) q = (rw q refl, λ e. cc (rw q at e))

trim_end-none :
    (b : ℕ) (bs : List ℕ)
    → rposition_solid bs ≡ none
    → trim_end (b ∷ bs) ≡ (if is_ascii_whitespace b then [] else b ∷ [])
unfolding trim_end rposition_solid
trim_end-none b bs q = ground arith

nil_last : (bs : List ℕ) (b : ℕ) → [] ≡ bs ++ b ∷ [] → is_ascii_whitespace b ≡ false
nil_last bs b e = absurd (omega (arith, ap length e, length-append {0} bs (b ∷ [])))

trim_end-TrimsEnd : (bytes : List ℕ) → TrimsEnd bytes (trim_end bytes)
trim_end-TrimsEnd [] =
    unfold trim_end rposition_solid in
    record { back = []; split = refl; blank_back = tt; solid_last = nil_last }
trim_end-TrimsEnd (b ∷ bs) = elim (Option-cases (rposition_solid bs)) [
  | inr (n, q) ↦
      let v = trim_end-TrimsEnd bs in
      let more = trim_end-more b n bs q in
      rw (more.0) (record {
        back = v.back;
        split = ap (◌∷◌ b) v.split;
        blank_back = v.blank_back;
        solid_last = cons_last b (trim_end bs) (λ e. absurd (more.1 e)) v.solid_last;
      })
  | inl q ↦ elim (Bool-cases (is_ascii_whitespace b)) [
    | inl w ↦
        rw (trim_end-none b bs q, w)
          (record {
            back = b ∷ bs;
            split = refl;
            blank_back = (w, none_solid bs q);
            solid_last = nil_last;
          })
    | inr w ↦
        rw (trim_end-none b bs q, w)
          (record {
            back = bs;
            split = refl;
            blank_back = none_solid bs q;
            solid_last = cons_last b [] (λ _. w) nil_last;
          })
  ]
]

-- Trimming takes whitespace alone from the two ends, and all of it.
pub trim_ascii-Trims : (bytes : List ℕ) → Trims bytes (trim_ascii bytes)
trim_ascii-Trims [] =
    unfold trim_ascii in
    record {
      front = [];
      back = [];
      split = refl;
      blank_front = tt;
      blank_back = tt;
      solid_first = λ b bs e. cc;
      solid_last = nil_last;
    }
trim_ascii-Trims (b ∷ bs) = elim (Bool-cases (is_ascii_whitespace b)) [
  | inl w ↦
      let v = trim_ascii-Trims bs in
      rw (trim_ascii-blank b bs w) (record {
        front = b ∷ v.front;
        back = v.back;
        split = ap (◌∷◌ b) v.split;
        blank_front = (w, v.blank_front);
        blank_back = v.blank_back;
        solid_first = v.solid_first;
        solid_last = v.solid_last;
      })
  | inr w ↦
      let v = trim_end-TrimsEnd bs in
      rw (trim_ascii-solid b bs w) (record {
        front = [];
        back = v.back;
        split = ap (◌∷◌ b) v.split;
        blank_front = tt;
        blank_back = v.blank_back;
        solid_first = λ c cs e. ground arith;
        solid_last = cons_last b (trim_end bs) (λ _. w) v.solid_last;
      })
]
