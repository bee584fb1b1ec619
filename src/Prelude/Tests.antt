-- ===== src/Prelude/Tests.antt =====
-- Boolean tests on the native numbers, the conditional, and the case splits on a computed value.
use Prim.Native.Nat.{ℕ, ◌<◌, compare, Ordering}
use mathlib.Core.Path.{◌≡◌, refl}
use mathlib.Core.Logic.{◌↔◌, ◌⊎◌, inl, inr}
use mathlib.Core.Bool.{Bool, true, false, ◌&&◌, ◌||◌}
use mathlib.Core.Option.{Option, none, some}
use native.Mathlib.Omega.{arith}

-- These compute to `compare`, which `ground` and `grind` read with no lemma listed.
abbrev pub ltb : ℕ → ℕ → Bool
ltb a b = elim (compare a b) [ Ordering.lt ↦ true | _ ↦ false ]

abbrev pub leb : ℕ → ℕ → Bool
leb a b = elim (compare a b) [ Ordering.gt ↦ false | _ ↦ true ]

infix 50 ◌==◌
abbrev pub ◌==◌ : ℕ → ℕ → Bool
a == b = elim (compare a b) [ Ordering.eq ↦ true | _ ↦ false ]

infix 1 if◌then◌else◌
abbrev pub if◌then◌else◌ {ℓ} : {A : Type ℓ} → Bool → A → A → A
if true then x else y = x
if false then x else y = y

pub ltb→lt : (a b : ℕ) → ltb a b ≡ true → a < b
ltb→lt a b h = ground arith

pub ==_iff : (a b : ℕ) → ((a == b) ≡ true) ↔ (a ≡ b)
==_iff a b = ground arith

-- To split on a computed value and keep the equation.
pub Bool-cases : (b : Bool) → (b ≡ true) ⊎ (b ≡ false)
Bool-cases true = inl refl
Bool-cases false = inr refl

pub Option-cases {ℓ} : {A : Type ℓ} (o : Option A) → (o ≡ none) ⊎ ((a : A) × (o ≡ some a))
Option-cases none = inl refl
Option-cases (some a) = inr (a, refl)

-- A property of both branches, each under the outcome of its test.
pub if_elim {ℓ κ} :
    {A : Type ℓ} (P : A → Type κ) (b : Bool) {x y : A}
    → (b ≡ true → P x)
    → (b ≡ false → P y)
    → P (if b then x else y)
if_elim P true p q = p refl
if_elim P false p q = q refl

-- A fact about a match, from a fact about each case and the equation that it has.
pub option_elim {ℓ κ μ} :
    {A : Type ℓ} {B : Type κ} (R : B → Type μ) (o : Option A) (x : B) (f : A → B)
    → (o ≡ none → R x)
    → ((a : A) → o ≡ some a → R (f a))
    → R (elim o [ none ↦ x | some a ↦ f a ])
option_elim R none x f g h = g refl
option_elim R (some a) x f g h = h a refl

pub false_ne_true : false ≡ true → ⊥
false_ne_true h = cc

-- A test that answers true exactly when the property holds, and the tests that the source combines.
abbrev pub IsTest : Bool → Type 0 → Type 0
IsTest b P = (b ≡ true) ↔ P

pub and-IsTest : {P Q : Type 0} (a b : Bool) → IsTest a P → IsTest b Q → IsTest (a && b) (P × Q)
and-IsTest true b (pt, tp) (qt, tq) = (λ h. (pt refl, qt h), λ h. tq h.1)
and-IsTest false b (pt, tp) q = (λ h. elim (false_ne_true h) [ ], λ h. tp h.0)

pub or-IsTest : {P Q : Type 0} (a b : Bool) → IsTest a P → IsTest b Q → IsTest (a || b) (P ⊎ Q)
or-IsTest true b (pt, tp) q = (λ h. inl (pt refl), λ h. refl)
or-IsTest false b (pt, tp) (qt, tq) =
    (λ h. inr (qt h), λ h. elim h [ inl p ↦ elim (false_ne_true (tp p)) [ ] | inr q ↦ tq q ])
