-- ===== src/Client/PatchExact.antt =====
-- A patch that can be allowed is shown exactly: src/client.rs, the arm of from_request for
-- applyPatchApproval.
use spark_runner.Prelude.{
  ℕ, zero, suc, ◌≤◌, ◌≡◌, refl, ap, sym, ◌∙◌, true, ◌&&◌, List, [], ◌∷◌, ◌++◌, append_assoc,
  append-nil, Option, none, some, arith, leb, take, length, map,
}
use spark_runner.Prelude.Text.{Text, codes, text_eq}
use spark_runner.Json.{
  Value, null, boolean, number, string, array, object, Fields, get, bind, as_object,
}
use spark_runner.Client.Permissions.{max_approval_text}
use spark_runner.Client.Described.{and-left, and-right}
use spark_runner.Client.Matrix.{apply_patch_method}
use spark_runner.Client.Patch.{
  PatchState, max_approval_list_items, add_change, add_changes, entries_of,
}
use spark_runner.Client.Request.{ApprovalDescriptor, common_descriptor}
use spark_runner.Client.Verdict.{grant_root, with_changes, apply_patch_request, from_request}
use spark_runner.Client.Exact.{optional_text-exact, text_at, common_descriptor-exact}
use spark_runner.Client.PatchShown.{exact_change, add_change-exact}

add_changes-exact :
    (entries : List (Text × Value)) (s : PatchState)
    → (add_changes s entries).reviewable ≡ true
    → (s.reviewable ≡ true)
      × ((add_changes s entries).file_changes ≡ s.file_changes ++ map exact_change entries)
add_changes-exact [] s h = (h, sym (append-nil s.file_changes))
add_changes-exact ((path, value) ∷ rest) s h =
    let (ready, rest_exact) = add_changes-exact rest (add_change s path (as_object value)) h in
    let (before, one_exact) = add_change-exact s path (as_object value) ready in
    (
      before,
      rest_exact
          ∙ ap (λ found. found ++ map exact_change rest) one_exact
          ∙ append_assoc s.file_changes (exact_change (path, value) ∷ []) (map exact_change rest),
    )

take_all : (n : ℕ) (entries : List (Text × Value)) → length entries ≤ n → take n entries ≡ entries
take_all zero [] h = refl
take_all zero (e ∷ es) h = ground (arith, h)
take_all (suc n) [] h = refl
take_all (suc n) (e ∷ es) h = ap (λ rest. e ∷ rest) (take_all n es (omega (arith, h)))

-- What a reviewer is shown of a patch.
abbrev pub ShowsPatch : ApprovalDescriptor → Value → Fields → Type 0
ShowsPatch d params changes =
    (d.file_changes
      ≡ grant_root (text_at params (codes "grantRoot")) ++ map exact_change (entries_of changes))
    × (length (entries_of changes) ≤ max_approval_list_items)
    × (d.reason ≡ text_at params (codes "reason"))

leb→le : (a b : ℕ) → leb a b ≡ true → a ≤ b
leb→le a b h = ground (arith, h)

with_changes-exact :
    (d : ApprovalDescriptor) (o : Option Fields)
    → (with_changes d o).1 ≡ true
    → (changes : Fields) × (o ≡ some changes)
      × (d.reviewable ≡ true)
      × ((with_changes d o).0.file_changes
          ≡ d.file_changes ++ map exact_change (entries_of changes))
      × (length (entries_of changes) ≤ max_approval_list_items)
      × ((with_changes d o).0.reason ≡ d.reason)
with_changes-exact d none h = cc
with_changes-exact d (some changes) h =
    let all_entries = entries_of changes in
    let start : PatchState = record {
      reviewable = d.reviewable && leb (length all_entries) max_approval_list_items;
      file_changes = d.file_changes;
      patch_bytes = 0;
    } in
    let (ready, shown) = add_changes-exact (take max_approval_list_items all_entries) start h in
    let few =
      leb→le (length all_entries) max_approval_list_items (and-right d.reviewable _ ready) in
    (
      changes,
      refl,
      and-left d.reviewable _ ready,
      shown
          ∙ ap (λ es. d.file_changes ++ map exact_change es)
              (take_all max_approval_list_items all_entries few),
      few,
      refl,
    )

as_object-some : (o : Option Value) (f : Fields) → bind o as_object ≡ some f → o ≡ some (object f)
as_object-some none f h = cc
as_object-some (some (object g)) f h = cc
as_object-some (some null) f h = cc
as_object-some (some (boolean b)) f h = cc
as_object-some (some (number n)) f h = cc
as_object-some (some (string t)) f h = cc
as_object-some (some (array a)) f h = cc

-- Where a patch can be allowed, the reviewer is shown the root that it asks for, each of its changes,
-- with its paths and its content or difference, and the reason, all exactly as the request has them and
-- in its order, and there are at most 16 changes.
pub patch-exact :
    (encoded_len : Value → Option ℕ) (params : Value)
    → (from_request encoded_len apply_patch_method params).1 ≡ true
    → (changes : Fields) × (get params (codes "fileChanges") ≡ some (object changes))
      × ShowsPatch (from_request encoded_len apply_patch_method params).0 params changes
unfolding from_request apply_patch_request text_eq
patch-exact encoded_len params h =
    let d = common_descriptor apply_patch_method params in
    let o = get params (codes "fileChanges") in
    let (changes, e, ready, shown, few, reason) = with_changes-exact _ (bind o as_object) h in
    let root =
      optional_text-exact max_approval_text (get params (codes "grantRoot"))
        (and-right d.reviewable _ ready) in
    let (cwd_exact, reason_exact) =
      common_descriptor-exact apply_patch_method params (and-left d.reviewable _ ready) in
    (
      changes,
      as_object-some o changes e,
      (
        shown ∙ ap (λ r. grant_root r ++ map exact_change (entries_of changes)) root,
        few,
        reason ∙ reason_exact,
      ),
    )
