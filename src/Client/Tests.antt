-- ===== src/Client/Tests.antt =====
-- Concrete runs of the client's policy: src/client.rs.
use spark_runner.Prelude.{◌≡◌, ◌≤◌, ◌↔◌, refl, true, false, [], ◌∷◌, arith, length, All}
use spark_runner.Prelude.Exec.{ok}
use spark_runner.Prelude.Text.{
  codes, text_eq, byte_len, is_control, to_ascii_lowercase, starts_with, contains, is_whitespace,
  utf8_len,
}
use spark_runner.Json.{Value, number, object, end, field, natural, get, field_get}
use spark_runner.Client.Seen.{
  nothing_seen, insert, insert_all, IsBounded, insert_all-IsBounded, insert-insert, seen,
}
use spark_runner.Client.Quota.{
  quota_available, rate_limit_windows, credits_available, snapshot_credits_available, is_open,
  not_reached,
}
use spark_runner.Client.Admission.{AdmitsTurn}
use spark_runner.Client.Capacity.{quota_available_iff}
use spark_runner.Client.Sanitize.{sanitize_approval_text, sensitive_approval_word, without_control}
use spark_runner.Prelude.{◌++◌}
use spark_runner.Client.Token.{split_token, prefix_text, openai}
use spark_runner.Client.Hidden.{sanitize_approval_text-hidden}
use spark_runner.Client.Shown.{IsPlain, sanitize_approval_text-IsShowable}

insert_all-IsBounded_example :
    IsBounded (insert_all nothing_seen (codes "a" ∷ codes "b" ∷ codes "a" ∷ []))
insert_all-IsBounded_example = insert_all-IsBounded (codes "a" ∷ codes "b" ∷ codes "a" ∷ [])

insert-insert_example :
    insert (insert_all (insert nothing_seen (codes "a")).1 (codes "b" ∷ [])) (codes "a")
    ≡ (ok false, insert_all (insert nothing_seen (codes "a")).1 (codes "b" ∷ []))
unfolding insert seen byte_len utf8_len
insert-insert_example = insert-insert nothing_seen (codes "a") (codes "b" ∷ []) true refl

abbrev window : Value
window = object (field (codes "usedPercent") (number (natural 12)) end)

abbrev limits : Value
limits = object (field (codes "rateLimits") (object (field (codes "primary") window end)) end)

limits_suffice : quota_available limits ≡ true
unfolding quota_available rate_limit_windows credits_available snapshot_credits_available is_open
    not_reached get field_get text_eq
limits_suffice = refl

quota_available_iff_example : (quota_available limits ≡ true) ↔ AdmitsTurn limits
quota_available_iff_example = quota_available_iff limits

sanitize_approval_text-IsShowable_example :
    (length (sanitize_approval_text (codes "curl -H token=abc https://example.org") 10) ≤ 10)
    × All IsPlain (sanitize_approval_text (codes "curl -H token=abc https://example.org") 10)
sanitize_approval_text-IsShowable_example =
    sanitize_approval_text-IsShowable (codes "curl -H token=abc https://example.org") 10
      (omega arith)

sanitize_approval_text-hidden_example :
    (sensitive_approval_word (to_ascii_lowercase (split_token openai 1 1 (codes "abc"))) ≡ false)
    × (sanitize_approval_text (split_token openai 1 1 (codes "abc")) 160
        ≡ prefix_text openai ++ without_control (codes "abc"))
    × (sensitive_approval_word
          (to_ascii_lowercase (prefix_text openai ++ without_control (codes "abc")))
        ≡ true)
unfolding is_control is_whitespace to_ascii_lowercase contains starts_with
sanitize_approval_text-hidden_example =
    sanitize_approval_text-hidden openai 1 1 160 (codes "abc") refl (omega arith)
      (refl, (refl, (refl, (refl, tt)))) (refl, refl, refl, refl, refl) (omega arith)
