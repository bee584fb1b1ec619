-- ===== src/Client/PatchShown.antt =====
-- A change that can be allowed is shown exactly: src/client.rs, the loop of from_request over the
-- changes of applyPatchApproval.
use spark_runner.Prelude.{
  ℕ, ◌≡◌, refl, Bool, true, false, [], ◌∷◌, ◌++◌, Option, none, some, arith, if◌then◌else◌,
}
use spark_runner.Prelude.Text.{Text, codes, text_eq}
use spark_runner.Json.{Value, Fields, as_object, field_get}
use spark_runner.Client.Sanitize.{approval_text_is_reviewable}
use spark_runner.Client.Permissions.{max_approval_text, among, text_field}
use spark_runner.Client.Described.{and-left, and-right}
use spark_runner.Client.Patch.{
  ApprovalFileChange, PatchParts, PatchState, budgeted, exact_text, exact_patch_text,
  optional_patch_path, written, updated, no_parts, patch_parts, known_operation, operations,
  push_change, add_change,
}
use spark_runner.Client.Exact.{reviewable-exact, optional_text-exact}

budgeted-exact :
    (value : Text) (total : ℕ)
    → (budgeted value total).0.1 ≡ true
    → (budgeted value total).0.0 ≡ some value
budgeted-exact value total h = ground (arith, h)

exact_text-exact :
    (o : Option Text) (total : ℕ) → (exact_text o total).0.1 ≡ true → (exact_text o total).0.0 ≡ o
exact_text-exact none total h = cc
exact_text-exact (some value) total h = budgeted-exact value total h

-- What a change writes: the content of a file that is added or deleted, or the difference and the new
-- path of one that is updated.
abbrev pub is_whole : Text → Bool
is_whole = among (codes "add" ∷ codes "delete" ∷ [])

abbrev pub ShowsParts : PatchParts → Fields → Bool → Type 0
ShowsParts parts change whole =
    (parts.content ≡ (if whole then text_field change (codes "content") else none))
    × (parts.unified_diff ≡ (if whole then none else text_field change (codes "unified_diff")))
    × (parts.move_path ≡ (if whole then none else text_field change (codes "move_path")))

parts_by :
    (change : Fields) (total : ℕ) (whole update : Bool)
    → (if whole
        then written change (exact_patch_text change (codes "content") total)
        else if update
        then updated change
            (optional_patch_path change (codes "move_path"))
            (exact_patch_text change (codes "unified_diff") total)
        else (no_parts, total)).0.change_reviewable
      ≡ true
    → ShowsParts
        (if whole
          then written change (exact_patch_text change (codes "content") total)
          else if update
          then updated change
              (optional_patch_path change (codes "move_path"))
              (exact_patch_text change (codes "unified_diff") total)
          else (no_parts, total)).0
        change
        whole
parts_by change total true update h =
    (exact_text-exact (text_field change (codes "content")) total (and-left _ _ h), refl, refl)
parts_by change total false true h = (
  refl,
  exact_text-exact (text_field change (codes "unified_diff")) total (and-left _ _ h),
  optional_text-exact max_approval_text (field_get change (codes "move_path"))
      (and-left _ _ (and-right (exact_patch_text change (codes "unified_diff") total).0.1 _ h)),
)
parts_by change total false false h = cc

abbrev pub kind_of : Option Text → Text
kind_of none = []
kind_of (some kind) = kind

-- A change as the request has it.
abbrev pub exact_fields : Text → Fields → ApprovalFileChange
exact_fields path change =
    let kind = kind_of (text_field change (codes "type")) in
    record {
      path = path;
      operation = kind;
      move_path = if is_whole kind then none else text_field change (codes "move_path");
      content = if is_whole kind then text_field change (codes "content") else none;
      unified_diff = if is_whole kind then none else text_field change (codes "unified_diff");
    }

abbrev pub exact_of : Text → Option Fields → ApprovalFileChange
exact_of path none = record {
  path = path;
  operation = [];
  move_path = none;
  content = none;
  unified_diff = none;
}
exact_of path (some change) = exact_fields path change

-- Where the operation is known, b is true.
pushed-exact :
    (s : PatchState) (path : Text) (change : Fields) (kind : Text) (b : Bool)
    → text_field change (codes "type") ≡ some kind
    → (push_change s path
        (if b then some kind else none)
        (patch_parts change (if b then some kind else none) s.patch_bytes)).reviewable
      ≡ true
    → (s.reviewable ≡ true)
      × ((push_change s path
            (if b then some kind else none)
            (patch_parts change (if b then some kind else none) s.patch_bytes)).file_changes
          ≡ s.file_changes ++ (exact_fields path change ∷ []))
pushed-exact s path change kind false e h =
    let no : false ≡ true =
      and-left false (approval_text_is_reviewable path max_approval_text)
        (and-right s.reviewable _ (and-left _ _ h)) in
    cc
pushed-exact s path change kind true e h =
    let ready = and-left _ _ h in
    let (content, diff, move) =
      parts_by change s.patch_bytes (is_whole kind) (text_eq kind (codes "update"))
        (and-right _ _ h) in
    let named = reviewable-exact path max_approval_text (and-right s.reviewable _ ready) in
    (
      and-left s.reviewable _ ready,
      rw e (λ i.
          s.file_changes
          ++ (record {
            path = named i;
            operation = kind;
            move_path = move i;
            content = content i;
            unified_diff = diff i;
          }
              ∷ [])),
    )

push_change-exact :
    (s : PatchState) (path : Text) (change : Fields) (o : Option Text)
    → text_field change (codes "type") ≡ o
    → (push_change s path
        (known_operation o)
        (patch_parts change (known_operation o) s.patch_bytes)).reviewable
      ≡ true
    → (s.reviewable ≡ true)
      × ((push_change s path
            (known_operation o)
            (patch_parts change (known_operation o) s.patch_bytes)).file_changes
          ≡ s.file_changes ++ (exact_fields path change ∷ []))
push_change-exact s path change none e h =
    let no : false ≡ true =
      and-left false (approval_text_is_reviewable path max_approval_text)
        (and-right s.reviewable _ (and-left _ _ h)) in
    cc
push_change-exact s path change (some kind) e h =
    pushed-exact s path change kind (among operations kind) e h

-- The changes of a patch, none of which is anything but an object.
abbrev pub exact_change : Text × Value → ApprovalFileChange
exact_change (path, value) = exact_of path (as_object value)

pub add_change-exact :
    (s : PatchState) (path : Text) (o : Option Fields)
    → (add_change s path o).reviewable ≡ true
    → (s.reviewable ≡ true)
      × ((add_change s path o).file_changes ≡ s.file_changes ++ (exact_of path o ∷ []))
add_change-exact s path none h = cc
add_change-exact s path (some change) h =
    push_change-exact s path change (text_field change (codes "type")) refl h
