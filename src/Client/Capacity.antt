-- ===== src/Client/Capacity.antt =====
-- The windows that an answer has, and what it takes to admit a turn: src/client.rs, quota_available.
use spark_runner.Prelude.{
  ◌≡◌, ◌≢◌, ◌↔◌, refl, sym, subst, ◌∙◌, Bool, true, not, List, [], ◌∷◌, ◌++◌, append_assoc,
  append-nil, Option, none, some, all, All, All-append, all-IsTest, IsTest, and-IsTest,
}
use spark_runner.Prelude.Text.{codes}
use spark_runner.Json.{unwrap_or_null, Value, Fields, get, is_none_or, values}
use spark_runner.Client.Quota.{
  windows, present, collect_all, main_snapshot, by_id, rate_limit_windows,
  snapshot_credits_available, credits_available, is_open, not_reached, quota_available, is_empty,
  collect_main, collect_by_id, collect,
}
use spark_runner.Client.Admission.{
  main_list, by_id_list, snapshots, all_windows, IsUnreached, HasCredit, IsOpen, HasCapacity,
  AdmitsTurn, not_reached-IsTest, is_open-IsTest, snapshot_credits_available-IsTest,
}

collect_all_lem :
    (xs : List Value) (found : List Value) → collect_all found xs ≡ found ++ all_windows xs
collect_all_lem [] found = simp (append-nil)
collect_all_lem (x ∷ xs) found =
    collect_all_lem xs (collect found x)
    ∙ append_assoc (found ++ present (get x (codes "primary")))
        (present (get x (codes "secondary"))) (all_windows xs)
    ∙ simp (append_assoc)

windows_lem :
    (main : Option Value) (others : Option Fields)
    → collect_by_id (collect_main main) others ≡ all_windows (main_list main ++ by_id_list others)
windows_lem none none = refl
windows_lem none (some f) = collect_all_lem (values f) []
windows_lem (some s) none = sym (append-nil (windows s))
windows_lem (some s) (some f) = collect_all_lem (values f) (windows s)

rate_limit_windows_lem :
    (limits : Value) → rate_limit_windows limits ≡ all_windows (snapshots limits)
unfolding rate_limit_windows
rate_limit_windows_lem limits = windows_lem (main_snapshot limits) (by_id limits)

is_empty-IsTest : (vs : List Value) → IsTest (not (is_empty vs)) (vs ≢ [])
is_empty-IsTest [] = (λ h. cc, λ h. elim (h refl) [ ])
is_empty-IsTest (v ∷ vs) = (λ h e. cc, λ h. refl)

module _ {P : Value → Type 0} (p : Value → Bool) (h : (v : Value) → IsTest (p v) (P v)) where
  main-IsTest : (o : Option Value) → IsTest (is_none_or o p) (All P (main_list o))
  main-IsTest none = (λ _. tt, λ _. refl)
  main-IsTest (some s) = ((λ e. ((h s).0 e, tt)), λ q. (h s).1 q.0)

  by_id-IsTest :
      (o : Option Fields)
      → IsTest (is_none_or o (λ fields. all p (values fields))) (All P (by_id_list o))
  by_id-IsTest none = (λ _. tt, λ _. refl)
  by_id-IsTest (some fields) = all-IsTest p (values fields) h

credit_main-IsTest :
    (o : Option Value)
    → IsTest (snapshot_credits_available (unwrap_or_null o)) (All HasCredit (main_list o))
unfolding snapshot_credits_available get
credit_main-IsTest none = (λ _. tt, λ _. refl)
credit_main-IsTest (some s) = (
  (λ e. ((snapshot_credits_available-IsTest s).0 e, tt)),
  λ q. (snapshot_credits_available-IsTest s).1 q.0,
)

All-split : (P : Value → Type 0) (xs ys : List Value) → All P (xs ++ ys) → All P xs × All P ys
All-split P [] ys h = (tt, h)
All-split P (x ∷ xs) ys (p, h) = let (a, b) = All-split P xs ys h in ((p, a), b)

-- What each snapshot must have, put together and taken apart.
joined :
    (xs : List Value)
    → All IsUnreached xs
    → All HasCredit xs
    → All IsOpen (all_windows xs)
    → All HasCapacity xs
joined [] u c w = tt
joined (x ∷ xs) (u, us) (c, cs) w =
    let (o, os) = All-split IsOpen (windows x) (all_windows xs) w in ((u, c, o), joined xs us cs os)

parted :
    (xs : List Value)
    → All HasCapacity xs
    → All IsUnreached xs × All HasCredit xs × All IsOpen (all_windows xs)
parted [] h = (tt, tt, tt)
parted (x ∷ xs) ((u, c, o), h) =
    let (us, cs, os) = parted xs h in
    ((u, us), (c, cs), All-append IsOpen (windows x) (all_windows xs) o os)

-- An answer admits a turn exactly when it shows at least one window and every snapshot in it, the main
-- one and those by limit, has no limit reached, has credits or says nothing of them, and has no window
-- whose use is not an integer from 0 to 99.
pub quota_available_iff : (limits : Value) → (quota_available limits ≡ true) ↔ AdmitsTurn limits
unfolding quota_available credits_available
quota_available_iff limits =
    let main = main_snapshot limits in
    let others = by_id limits in
    let w : rate_limit_windows limits ≡ all_windows (snapshots limits) =
      rate_limit_windows_lem limits in
    let test = and-IsTest _ _ (main-IsTest not_reached not_reached-IsTest main) (
      and-IsTest _ _ (by_id-IsTest not_reached not_reached-IsTest others) (
        and-IsTest _ _ (is_empty-IsTest (rate_limit_windows limits)) (
          and-IsTest _ _ (all-IsTest is_open (rate_limit_windows limits) is_open-IsTest) (
            and-IsTest _ _ (credit_main-IsTest main) (
              by_id-IsTest snapshot_credits_available snapshot_credits_available-IsTest
                others))))) in
    let mains = main_list main in
    let rest = by_id_list others in
    (
      λ h.
          let (um, (uo, (ne, (os, (cm, co))))) = test.0 h in
          (
            subst (λ found. found ≢ []) w ne,
            joined (mains ++ rest) (All-append IsUnreached mains rest um uo)
                (All-append HasCredit mains rest cm co) (subst (All IsOpen) w os),
          ),
      λ (ne, have).
          let (us, cs, os) = parted (mains ++ rest) have in
          let (um, uo) = All-split IsUnreached mains rest us in
          let (cm, co) = All-split HasCredit mains rest cs in
          test.1 (
            um,
            (
              uo,
              (subst (λ found. found ≢ []) (sym w) ne, (subst (All IsOpen) (sym w) os, (cm, co))),
            ),
          ),
    )
