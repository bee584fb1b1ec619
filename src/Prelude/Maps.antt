-- ===== src/Prelude/Maps.antt =====
-- `BTreeMap<String, V>` and `BTreeSet<String>`: association lists in the order of their keys.
use spark_runner.Prelude.Tests.{ltb, ◌==◌, if◌then◌else◌}
use spark_runner.Prelude.Text.{Text, text_eq, text_eq_iff}
use mathlib.Core.Path.{◌≡◌, refl}
use mathlib.Core.Bool.{Bool, true, false, not, ◌&&◌, ◌||◌}
use mathlib.Core.List.{List, [], ◌∷◌}
use mathlib.Core.Option.{Option, none, some}
use native.Mathlib.Omega.{arith}

-- The order of `str`: byte by byte, which in UTF-8 is the order of the code points.
unfoldable pub text_lt : Text → Text → Bool
text_lt s [] = false
text_lt [] (c ∷ t) = true
text_lt (a ∷ s) (c ∷ t) = ltb a c || (a == c && text_lt s t)

module _ {ℓ} {V : Type ℓ} where
  unfoldable pub lookup : Text → List (Text × V) → Option V
  lookup k [] = none
  lookup k ((j, v) ∷ m) = if text_eq j k then some v else lookup k m

  -- `insert`: a present key keeps its place.
  unfoldable pub insert : Text → V → List (Text × V) → List (Text × V)
  insert k v [] = (k, v) ∷ []
  insert k v ((j, w) ∷ m) =
      let rest = insert k v m in
      if text_eq j k then (k, v) ∷ m else if text_lt k j then (k, v) ∷ (j, w) ∷ m else (j, w) ∷ rest

  -- `entry(k).or_insert(v)`
  unfoldable pub or_insert : Text → V → List (Text × V) → List (Text × V)
  unfolding lookup insert
  or_insert k v m = elim (lookup k m) [ none ↦ insert k v m | some w ↦ m ]

  pub lookup-insert :
      (k j : Text) (v : V) (m : List (Text × V))
      → lookup j (insert k v m) ≡ (if text_eq k j then some v else lookup j m)
  unfolding lookup insert
  lookup-insert k j v [] = refl
  lookup-insert k j v ((i, w) ∷ m) =
      ground (arith, text_eq_iff k j, text_eq_iff i k, text_eq_iff i j, lookup-insert k j v m)

  pub lookup-or_insert :
      (k j : Text) (v : V) (m : List (Text × V))
      → lookup j (or_insert k v m)
        ≡ elim (lookup j m) [ none ↦ if text_eq k j then some v else none | some w ↦ some w ]
  unfolding or_insert
  lookup-or_insert k j v m = ground (arith, lookup-insert k j v m, text_eq_iff k j)

-- A set: `insert`, `remove`, and membership.
unfoldable pub has : Text → List Text → Bool
has k [] = false
has k (j ∷ s) = text_eq j k || has k s

unfoldable pub add : Text → List Text → List Text
add k [] = k ∷ []
add k (j ∷ s) =
    let rest = add k s in if text_eq j k then j ∷ s else if text_lt k j then k ∷ j ∷ s else j ∷ rest

unfoldable pub remove : Text → List Text → List Text
remove k [] = []
remove k (j ∷ s) = let rest = remove k s in if text_eq j k then rest else j ∷ rest

pub has-add : (k j : Text) (s : List Text) → has j (add k s) ≡ (text_eq k j || has j s)
unfolding has add
has-add k j [] = refl
has-add k j (i ∷ s) =
    ground (arith, text_eq_iff k j, text_eq_iff i k, text_eq_iff i j, has-add k j s)

pub has-remove : (k j : Text) (s : List Text) → has j (remove k s) ≡ (not (text_eq k j) && has j s)
unfolding has remove
has-remove k j [] = ground arith
has-remove k j (i ∷ s) =
    ground (arith, text_eq_iff k j, text_eq_iff i k, text_eq_iff i j, has-remove k j s)
