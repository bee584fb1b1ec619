-- ===== src/Client/Quota.antt =====
-- What a rate-limit answer admits: src/client.rs, rate_limit_windows, credits_available, quota_available.
use spark_runner.Prelude.{
  ◌^◌, Bool, true, false, not, ◌&&◌, ◌||◌, List, [], ◌∷◌, ◌++◌, Option, none, some, ltb,
  if◌then◌else◌, all,
}
use spark_runner.Prelude.Text.{codes}
use spark_runner.Json.{
  unwrap_or_null, Value, Fields, Number, natural, negative, real, get, field_get, bind, is_none_or,
  is_some_and, is_null, as_object, as_bool, as_number, values,
}

-- The `filter` on a window that is there and is not null.
abbrev pub present : Option Value → List Value
present none = []
present (some window) = if is_null window then [] else window ∷ []

abbrev pub windows : Value → List Value
windows snapshot =
    present (get snapshot (codes "primary")) ++ present (get snapshot (codes "secondary"))

abbrev pub collect : List Value → Value → List Value
collect found snapshot =
    (found ++ present (get snapshot (codes "primary")))
    ++ present (get snapshot (codes "secondary"))

abbrev pub collect_all : List Value → List Value → List Value
collect_all found [] = found
collect_all found (snapshot ∷ rest) = collect_all (collect found snapshot) rest

abbrev pub main_snapshot : Value → Option Value
main_snapshot limits = get limits (codes "rateLimits")

abbrev pub by_id : Value → Option Fields
by_id limits = bind (get limits (codes "rateLimitsByLimitId")) as_object

abbrev pub collect_main : Option Value → List Value
collect_main none = []
collect_main (some snapshot) = collect [] snapshot

abbrev pub collect_by_id : List Value → Option Fields → List Value
collect_by_id found none = found
collect_by_id found (some fields) = collect_all found (values fields)

unfoldable pub rate_limit_windows : Value → List Value
unfolding get field_get
rate_limit_windows limits = collect_by_id (collect_main (main_snapshot limits)) (by_id limits)

-- A flag of the credits, false where it is absent or is no Boolean.
abbrev pub flag : Option Bool → Bool
flag none = false
flag (some b) = b

abbrev pub credits_suffice : Value → Bool
credits_suffice credits =
    is_null credits
    || (flag (bind (get credits (codes "unlimited")) as_bool)
        || flag (bind (get credits (codes "hasCredits")) as_bool))

unfoldable pub snapshot_credits_available : Value → Bool
unfolding get field_get
snapshot_credits_available snapshot = is_none_or (get snapshot (codes "credits")) credits_suffice

unfoldable pub credits_available : Value → Bool
unfolding get field_get snapshot_credits_available values
credits_available limits =
    snapshot_credits_available (unwrap_or_null (main_snapshot limits))
    && is_none_or (by_id limits) (λ fields. all snapshot_credits_available (values fields))

abbrev pub is_absent : Option Value → Bool
is_absent reached = is_none_or reached is_null

-- `as_i64` and `(0..100).contains`: a number that `as_i64` refuses is above the range.
abbrev pub in_range : Number → Bool
in_range (natural n) = ltb n (2 ^ 63) && ltb n 100
in_range (negative n) = false
in_range (real text) = false

unfoldable pub is_open : Value → Bool
unfolding get field_get
is_open window = is_some_and (bind (get window (codes "usedPercent")) as_number) in_range

unfoldable pub not_reached : Value → Bool
unfolding get field_get
not_reached snapshot = is_absent (get snapshot (codes "rateLimitReachedType"))

abbrev pub is_empty : List Value → Bool
is_empty [] = true
is_empty (v ∷ vs) = false

unfoldable pub quota_available : Value → Bool
unfolding rate_limit_windows credits_available not_reached is_open get field_get values
quota_available limits =
    is_none_or (main_snapshot limits) not_reached
    && (is_none_or (by_id limits) (λ fields. all not_reached (values fields))
        && (not (is_empty (rate_limit_windows limits))
            && (all is_open (rate_limit_windows limits) && credits_available limits)))
