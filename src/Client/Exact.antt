-- ===== src/Client/Exact.antt =====
-- Texts that a reviewer is shown as they are: src/client.rs, approval_text_is_reviewable and
-- optional_approval_text.
use spark_runner.Prelude.{ℕ, ◌≡◌, refl, ap, true, Option, none, some}
use spark_runner.Prelude.Text.{Text, codes, text_eq_iff}
use spark_runner.Json.{
  Value, null, boolean, number, string, array, object, Items, get, bind, as_str, as_array,
}
use spark_runner.Client.Sanitize.{sanitize_approval_text, approval_text_is_reviewable}
use spark_runner.Client.Described.{and-left, and-right}
use spark_runner.Client.Permissions.{max_approval_text}
use spark_runner.Client.Patch.{optional_text}
use spark_runner.Client.Request.{common_descriptor}

-- A text that can be reviewed is shown as it is.
pub reviewable-exact :
    (t : Text) (limit : ℕ)
    → approval_text_is_reviewable t limit ≡ true
    → sanitize_approval_text t limit ≡ t
unfolding approval_text_is_reviewable
reviewable-exact t limit h = (text_eq_iff (sanitize_approval_text t limit) t).0 (and-right _ _ h)

pub optional_text-exact :
    (limit : ℕ) (o : Option Value)
    → (optional_text limit o).1 ≡ true
    → (optional_text limit o).0 ≡ bind o as_str
optional_text-exact limit none h = refl
optional_text-exact limit (some null) h = refl
optional_text-exact limit (some (string t)) h = ap some (reviewable-exact t limit h)
optional_text-exact limit (some (boolean b)) h = cc
optional_text-exact limit (some (number n)) h = cc
optional_text-exact limit (some (array a)) h = cc
optional_text-exact limit (some (object f)) h = cc

-- A field that is a text.
abbrev pub text_at : Value → Text → Option Text
text_at params name = bind (get params name) as_str

pub common_descriptor-exact :
    (method : Text) (params : Value)
    → (common_descriptor method params).reviewable ≡ true
    → ((common_descriptor method params).cwd ≡ text_at params (codes "cwd"))
      × ((common_descriptor method params).reason ≡ text_at params (codes "reason"))
unfolding common_descriptor
common_descriptor-exact method params h =
    let both = and-left _ _ h in
    (
      optional_text-exact max_approval_text (get params (codes "cwd")) (and-left _ _ both),
      optional_text-exact max_approval_text (get params (codes "reason")) (and-right _ _ both),
    )

pub as_array-some :
    (o : Option Value) (items : Items) → bind o as_array ≡ some items → o ≡ some (array items)
as_array-some none items h = cc
as_array-some (some (array a)) items h = cc
as_array-some (some null) items h = cc
as_array-some (some (boolean b)) items h = cc
as_array-some (some (number n)) items h = cc
as_array-some (some (string t)) items h = cc
as_array-some (some (object f)) items h = cc
