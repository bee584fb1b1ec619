-- ===== src/Client/Informed.antt =====
-- A request that can be allowed is shown to the reviewer exactly: src/client.rs,
-- ApprovalDescriptor::from_request and approval_response.
use spark_runner.Prelude.{
  ℕ, ◌≤◌, ◌≡◌, refl, ap, ◌∙◌, true, List, [], ◌∷◌, Option, none, some, arith, leb, map, length, all,
}
use spark_runner.Prelude.Text.{Text, codes, text_eq}
use spark_runner.Json.{
  Value, null, boolean, number, string, array, object, field, end, Items, get, bind, as_array,
  elements,
}
use spark_runner.Session.{allow}
use spark_runner.Client.Sanitize.{approval_text_is_reviewable}
use spark_runner.Client.Permissions.{validated_requested_permissions}
use spark_runner.Client.Exposed.{describe_permissions}
use spark_runner.Client.Described.{and-left, and-right}
use spark_runner.Client.Counted.{IsDescribed, validated_requested_permissions-IsDescribed}
use spark_runner.Client.Matrix.{exec_command_method, permissions_method}
use spark_runner.Client.Patch.{max_approval_list_items}
use spark_runner.Client.Request.{
  ApprovalDescriptor, requires, max_approval_command, cons_text, texts_of, shown_argument,
  with_arguments, with_parts, exec_request, common_descriptor,
}
use spark_runner.Client.Exact.{reviewable-exact, text_at, common_descriptor-exact, as_array-some}
use spark_runner.Client.Verdict.{
  with_profile, grants, permissions_request, from_request, approval_response,
}

grants_lem :
    (d : ApprovalDescriptor) (profile : Value)
    → (grants d profile).reviewable ≡ true
    → ((grants d profile).requested_permission_profile ≡ some profile)
      × ((grants d profile).requested_permissions ≡ d.requested_permissions)
grants_lem d profile h = ground (arith, h)

-- What a reviewer is shown of a profile that an Allow would grant.
abbrev pub ShowsProfile : ApprovalDescriptor → Value → Type 0
ShowsProfile d profile =
    (d.requested_permission_profile ≡ some profile)
    × (d.requested_permissions ≡ some (describe_permissions profile).0)

with_profile-shows :
    (d : ApprovalDescriptor) (o : Option Value)
    → (with_profile d o).1 ≡ true
    → (profile : Value) × (o ≡ some profile) × ShowsProfile (with_profile d o).0 profile
with_profile-shows d none h = cc
with_profile-shows d (some profile) h =
    let described = describe_permissions profile in
    (
      profile,
      refl,
      grants_lem (requires described.1 (record d { requested_permissions = some described.0 }))
          profile h,
    )

-- The answer to a request for permissions that grants a profile, for this turn alone.
abbrev pub grant_of : Value → Value
grant_of profile = object (
    field (codes "permissions") profile (
      field (codes "scope") (string (codes "turn"))
        (field (codes "strictAutoReview") (boolean true) end)))

allowed_response :
    (encoded_len : Value → Option ℕ) (params profile : Value)
    → validated_requested_permissions encoded_len params ≡ some profile
    → approval_response encoded_len permissions_method allow (some params) ≡ grant_of profile
unfolding approval_response text_eq
allowed_response encoded_len params profile h = rw h refl

-- Where a request for permissions can be allowed, the answer to an Allow grants, for the turn, exactly
-- the profile that the request holds, which the reviewer is shown whole, with one description for each of
-- its file system permissions, of which there are at most 16.
pub permissions-exact :
    (encoded_len : Value → Option ℕ) (params : Value)
    → (from_request encoded_len permissions_method params).1 ≡ true
    → (profile : Value) × (approval_response encoded_len permissions_method allow (some params)
        ≡ grant_of profile)
      × (get params (codes "permissions") ≡ some profile)
      × ShowsProfile (from_request encoded_len permissions_method params).0 profile
      × IsDescribed profile
unfolding from_request permissions_request text_eq
permissions-exact encoded_len params h =
    let (profile, valid, shows) =
      with_profile-shows _ (validated_requested_permissions encoded_len params) h in
    let (requested, described) =
      validated_requested_permissions-IsDescribed encoded_len params profile valid in
    (profile, allowed_response encoded_len params profile valid, requested, shows, described)

cons_text-some :
    (t : Text) (rest : Option (List Text)) (texts : List Text)
    → cons_text (some t) rest ≡ some texts
    → (ts : List Text) × (rest ≡ some ts) × (texts ≡ t ∷ ts)
cons_text-some t none texts h = cc
cons_text-some t (some ts) texts h = (ts, refl, cc)

texts_of-some :
    (vs : List Value) (texts : List Text) → texts_of vs ≡ some texts → vs ≡ map string texts
texts_of-some [] [] h = refl
texts_of-some [] (t ∷ ts) h = cc
texts_of-some (string t ∷ vs) texts h =
    let (ts, e, same) = cons_text-some t (texts_of vs) texts h in
    let ih = texts_of-some vs ts e in cc
texts_of-some (null ∷ vs) texts h = cc
texts_of-some (boolean b ∷ vs) texts h = cc
texts_of-some (number n ∷ vs) texts h = cc
texts_of-some (array a ∷ vs) texts h = cc
texts_of-some (object f ∷ vs) texts h = cc

arguments_exact :
    (parts : List Text)
    → all (λ part. approval_text_is_reviewable part max_approval_command) parts ≡ true
    → map shown_argument parts ≡ parts
arguments_exact [] h = refl
arguments_exact (t ∷ ts) h =
    let e =
      reviewable-exact t max_approval_command
        (and-left (approval_text_is_reviewable t max_approval_command) _ h) in
    let ih =
      arguments_exact ts (and-right (approval_text_is_reviewable t max_approval_command) _ h) in
    cc (e, ih)

-- What the end of the arm for arguments leaves, where it permits.
abbrev pub Kept : ApprovalDescriptor → ApprovalDescriptor → Type 0
Kept d e = (d.reviewable ≡ true) × (e.cwd ≡ d.cwd) × (e.reason ≡ d.reason)

with_arguments-shows :
    (d : ApprovalDescriptor) (o : Option (List Text))
    → (with_arguments d o).1 ≡ true
    → (parts : List Text) × (o ≡ some parts)
      × ((with_arguments d o).0.command_arguments ≡ some parts)
      × Kept d (with_arguments d o).0
with_arguments-shows d none h = cc
with_arguments-shows d (some parts) h =
    let inner = and-left _ _ h in
    (
      parts,
      refl,
      ap some (arguments_exact parts (and-right d.reviewable _ inner)),
      (and-left d.reviewable _ inner, refl, refl),
    )

with_parts-shows :
    (d : ApprovalDescriptor) (o : Option Items)
    → (with_parts d o).1 ≡ true
    → (items : Items) × (parts : List Text) × (o ≡ some items)
      × (elements items ≡ map string parts)
      × ((with_parts d o).0.command_arguments ≡ some parts)
      × (length (elements items) ≤ max_approval_list_items)
      × Kept d (with_parts d o).0
with_parts-shows d none h = cc
with_parts-shows d (some items) h =
    let (parts, e, shows, (kept, cwd, reason)) =
      with_arguments-shows (requires (leb (length (elements items)) max_approval_list_items) d)
        (texts_of (elements items)) h in
    (
      items,
      parts,
      refl,
      texts_of-some (elements items) parts e,
      shows,
      ground (arith, and-right d.reviewable _ kept),
      (and-left d.reviewable _ kept, cwd, reason),
    )

-- What a reviewer is shown of a list of arguments.
abbrev pub ShowsArguments : ApprovalDescriptor → Value → Items → List Text → Type 0
ShowsArguments d params items parts =
    (elements items ≡ map string parts)
    × (d.command_arguments ≡ some parts)
    × (length (elements items) ≤ max_approval_list_items)
    × (d.cwd ≡ text_at params (codes "cwd"))
    × (d.reason ≡ text_at params (codes "reason"))

-- Where a request to execute a list of arguments can be allowed, the reviewer is shown these arguments,
-- the working directory and the reason exactly as the request has them, and there are at most 16 arguments.
pub exec-exact :
    (encoded_len : Value → Option ℕ) (params : Value)
    → (from_request encoded_len exec_command_method params).1 ≡ true
    → (items : Items) × (parts : List Text) × (get params (codes "command") ≡ some (array items))
      × ShowsArguments (from_request encoded_len exec_command_method params).0 params items parts
unfolding from_request exec_request text_eq
exec-exact encoded_len params h =
    let d = common_descriptor exec_command_method params in
    let o = get params (codes "command") in
    let (items, parts, e, same, shows, few, (kept, cwd, reason)) =
      with_parts-shows d (bind o as_array) h in
    let (cwd_exact, reason_exact) = common_descriptor-exact exec_command_method params kept in
    (
      items,
      parts,
      as_array-some o items e,
      (same, shows, few, cwd ∙ cwd_exact, reason ∙ reason_exact),
    )
