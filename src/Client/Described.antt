-- ===== src/Client/Described.antt =====
-- Every path of a permission that can be granted has a description: src/client.rs,
-- valid_permission_path and describe_permission_path.
use spark_runner.Prelude.{
  ◌≡◌, refl, Bool, true, false, ◌&&◌, Option, none, some, arith, if◌then◌else◌,
}
use spark_runner.Prelude.Text.{Text, codes, text_eq}
use spark_runner.Json.{
  Value, null, boolean, number, string, array, object, Fields, bind, is_some_and, as_str,
}
use spark_runner.Client.Permissions.{
  among, text_field, is_text, valid_special_permission_path, valid_permission_path,
  special_kind_allows, path_type_allows,
}
use spark_runner.Client.Exposed.{
  special_described, describe_special_permission_path, path_described, describe_permission_path,
  map_text,
}

abbrev pub is_some {ℓ} : {A : Type ℓ} → Option A → Bool
is_some none = false
is_some (some a) = true

pub text_is_some : (v : Value) → is_text v ≡ true → is_some (as_str v) ≡ true
text_is_some (string t) h = refl
text_is_some null h = cc
text_is_some (boolean b) h = cc
text_is_some (number n) h = cc
text_is_some (array a) h = cc
text_is_some (object f) h = cc

has_text_some : (o : Option Value) → is_some_and o is_text ≡ true → is_some (bind o as_str) ≡ true
has_text_some none h = cc
has_text_some (some v) h = text_is_some v h

map_text-some :
    {A : Type 0} (f : Text → A) (o : Option Text) → is_some o ≡ true → is_some (map_text f o) ≡ true
map_text-some f none h = cc
map_text-some f (some t) h = refl

special_described_some :
    (fields : Fields) (kind : Text)
    → special_kind_allows fields kind ≡ true
    → is_some (special_described fields kind) ≡ true
unfolding among
special_described_some fields kind h = ground (arith, h)

-- A property of what an optional text leads to, where it is there.
bind_some :
    {A : Type 0} (o : Option Text) (p : Text → Bool) (f : Text → Option A)
    → ((t : Text) → p t ≡ true → is_some (f t) ≡ true)
    → is_some_and o p ≡ true
    → is_some (bind o f) ≡ true
bind_some none p f step h = cc
bind_some (some t) p f step h = step t h

describe_special_some :
    (v : Value)
    → valid_special_permission_path v ≡ true
    → is_some (describe_special_permission_path v) ≡ true
unfolding valid_special_permission_path describe_special_permission_path
describe_special_some (object f) h =
    bind_some (text_field f (codes "kind")) (special_kind_allows f) (special_described f)
      (special_described_some f) h
describe_special_some null h = cc
describe_special_some (boolean b) h = cc
describe_special_some (number n) h = cc
describe_special_some (string t) h = cc
describe_special_some (array a) h = cc

special_value_some :
    (o : Option Value)
    → is_some_and o valid_special_permission_path ≡ true
    → is_some (bind o describe_special_permission_path) ≡ true
special_value_some none h = cc
special_value_some (some v) h = describe_special_some v h

pub and-right : (a b : Bool) → (a && b) ≡ true → b ≡ true
and-right true b h = h
and-right false b h = cc

pub and-left : (a b : Bool) → (a && b) ≡ true → a ≡ true
and-left true b h = refl
and-left false b h = cc

choose_some :
    {A : Type 0} (b : Bool) (p q : Bool) (x y : Option A)
    → (p ≡ true → is_some x ≡ true)
    → (q ≡ true → is_some y ≡ true)
    → (if b then p else q) ≡ true
    → is_some (if b then x else y) ≡ true
choose_some true p q x y f g h = f h
choose_some false p q x y f g h = g h

path_described_some :
    (fields : Fields) (kind : Text)
    → path_type_allows fields kind ≡ true
    → is_some (path_described fields kind) ≡ true
path_described_some fields kind h =
    choose_some (text_eq kind (codes "path")) _ _ _ _
      (λ t. map_text-some _ _ (has_text_some _ (and-right _ _ t)))
      (choose_some (text_eq kind (codes "glob_pattern")) _ _ _ _
        (λ t. map_text-some _ _ (has_text_some _ (and-right _ _ t)))
        (choose_some (text_eq kind (codes "special")) _ _ _ _
          (λ t. special_value_some _ (and-right _ _ t)) (λ t. cc)))
      h

pub describe_path_some :
    (v : Value) → valid_permission_path v ≡ true → is_some (describe_permission_path v) ≡ true
unfolding valid_permission_path describe_permission_path
describe_path_some (object f) h =
    bind_some (text_field f (codes "type")) (path_type_allows f) (path_described f)
      (path_described_some f) h
describe_path_some null h = cc
describe_path_some (boolean b) h = cc
describe_path_some (number n) h = cc
describe_path_some (string t) h = cc
describe_path_some (array a) h = cc
