-- ===== src/Client/Token.antt =====
-- Tokens whose prefix is split by a character: src/client.rs, sensitive_approval_word.
use spark_runner.Prelude.{
  ℕ, zero, suc, ◌+◌, ◌≤◌, ◌≡◌, refl, inl, inr, Bool, true, false, [], ◌∷◌, ◌++◌, arith, length,
  take, drop, ◌<◌, ◌⊎◌, ◌==◌, ap, if◌then◌else◌, ◌&&◌, leb, All, Bool-cases,
}
use spark_runner.Prelude.Text.{
  contains, codes, Text, is_whitespace, is_control, filter, to_ascii_lowercase, starts_with,
}
use spark_runner.Client.Sanitize.{without_control}
use spark_runner.Client.Described.{and-right}
use spark_runner.Client.Shown.{IsPlain}

abbrev pub IsSolid : ℕ → Type 0
IsSolid c = is_whitespace c ≡ false

-- The prefixes of tokens that the source lists.
pub data TokenPrefix : Type 0 where
  openai github_classic github_fine slack : TokenPrefix

abbrev pub prefix_text : TokenPrefix → Text
prefix_text openai = codes "sk-"
prefix_text github_classic = codes "ghp_"
prefix_text github_fine = codes "github_pat_"
prefix_text slack = codes "xoxb-"

-- The text holds none of the words that make a text sensitive wherever they stand in it.
abbrev pub HoldsNoWord : Text → Type 0
HoldsNoWord text =
    (contains text (codes "token") ≡ false)
    × (contains text (codes "secret") ≡ false)
    × (contains text (codes "password") ≡ false)
    × (contains text (codes "authorization") ≡ false)
    × (contains text (codes "canary") ≡ false)

-- The text with the character c after its first n characters.
abbrev pub insert_at : ℕ → ℕ → Text → Text
insert_at n c text = take n text ++ (c ∷ drop n text)

-- A token whose prefix has been split by the character c.
abbrev pub split_token : TokenPrefix → ℕ → ℕ → Text → Text
split_token prefix n c t = insert_at n c (prefix_text prefix) ++ t

pub prefix-IsPlain : (prefix : TokenPrefix) → All IsPlain (prefix_text prefix)
unfolding is_control
prefix-IsPlain openai = ground arith
prefix-IsPlain github_classic = ground arith
prefix-IsPlain github_fine = ground arith
prefix-IsPlain slack = ground arith

pub prefix-IsSolid : (prefix : TokenPrefix) → All IsSolid (prefix_text prefix)
unfolding is_whitespace
prefix-IsSolid openai = ground arith
prefix-IsSolid github_classic = ground arith
prefix-IsSolid github_fine = ground arith
prefix-IsSolid slack = ground arith

pub All-take : (P : ℕ → Type 0) (n : ℕ) (x : Text) → All P x → All P (take n x)
All-take P zero x h = tt
All-take P (suc n) [] h = tt
All-take P (suc n) (a ∷ x) (p, h) = (p, All-take P n x h)

pub All-drop : (P : ℕ → Type 0) (n : ℕ) (x : Text) → All P x → All P (drop n x)
All-drop P zero x h = h
All-drop P (suc n) [] h = tt
All-drop P (suc n) (a ∷ x) (p, h) = All-drop P n x h

filter_plain : (x t : Text) → All IsPlain x → without_control (x ++ t) ≡ x ++ without_control t
unfolding filter
filter_plain [] t h = refl
filter_plain (a ∷ x) t (p, h) = rw p (ap (λ y. a ∷ y) (filter_plain x t h))

-- Without control characters the token is whole again.
pub restored :
    (n c : ℕ) (x t : Text)
    → is_control c ≡ true
    → All IsPlain x
    → without_control (insert_at n c x ++ t) ≡ x ++ without_control t
unfolding filter
restored zero c x t h plain = rw h (filter_plain x t plain)
restored (suc n) c [] t h plain = rw h refl
restored (suc n) c (a ∷ x) t h (p, plain) = rw p (ap (λ y. a ∷ y) (restored n c x t h plain))

abbrev lowered : ℕ → ℕ
lowered c = if leb b'A' c && leb c b'Z' then c + 32 else c

-- A control character is no letter of a pattern, in lower case either.
lowered-ne : (c d : ℕ) (b : Bool) → is_control c ≡ true → IsPlain d → (lowered c == d && b) ≡ false
unfolding is_control
lowered-ne c d b h p = ground (arith, h, p)

-- Where a text fails to start with a pattern, it fails with a control character behind it too.
pub starts_with-insert_at :
    (n c : ℕ) (x t pattern : Text)
    → is_control c ≡ true
    → All IsPlain pattern
    → starts_with (to_ascii_lowercase (take n x)) pattern ≡ false
    → starts_with (to_ascii_lowercase (insert_at n c x ++ t)) pattern ≡ false
unfolding starts_with to_ascii_lowercase
starts_with-insert_at zero c x t [] h plain e = cc
starts_with-insert_at zero c x t (d ∷ pattern) h (p, plain) e = lowered-ne c d _ h p
starts_with-insert_at (suc n) c [] t [] h plain e = cc
starts_with-insert_at (suc n) c [] t (d ∷ pattern) h (p, plain) e = lowered-ne c d _ h p
starts_with-insert_at (suc n) c (a ∷ x) t [] h plain e = cc
starts_with-insert_at (suc n) c (a ∷ x) t (d ∷ pattern) h (p, plain) e =
    elim (Bool-cases (lowered a == d)) [
      | inl same ↦ rw same (starts_with-insert_at n c x t pattern h plain (rw same at e))
      | inr apart ↦ rw apart refl
    ]

-- A part of a text that starts with a pattern is as long as the pattern, and so does the text.
starts_with-take :
    (n : ℕ) (x pattern : Text)
    → starts_with (to_ascii_lowercase (take n x)) pattern ≡ true
    → (length pattern ≤ n) × (starts_with (to_ascii_lowercase x) pattern ≡ true)
unfolding starts_with to_ascii_lowercase
starts_with-take zero [] [] h = (omega arith, refl)
starts_with-take zero (a ∷ x) [] h = (omega arith, refl)
starts_with-take zero x (d ∷ pattern) h = cc
starts_with-take (suc n) [] [] h = (omega arith, refl)
starts_with-take (suc n) [] (d ∷ pattern) h = cc
starts_with-take (suc n) (a ∷ x) [] h = (omega arith, refl)
starts_with-take (suc n) (a ∷ x) (d ∷ pattern) h =
    ground (arith, h, starts_with-take n x pattern (and-right (lowered a == d) _ h))

not_started :
    (n : ℕ) (x pattern : Text)
    → (n < length pattern) ⊎ (starts_with (to_ascii_lowercase x) pattern ≡ false)
    → starts_with (to_ascii_lowercase (take n x)) pattern ≡ false
not_started n x pattern why =
    elim (Bool-cases (starts_with (to_ascii_lowercase (take n x)) pattern)) [
      | inr e ↦ e
      | inl e ↦
          let (long, whole) = starts_with-take n x pattern e in
          elim why [
            | inl short ↦ absurd (omega (arith, short, long))
            | inr never ↦ absurd (cc (never, whole))
          ]
    ]

-- The first characters of a prefix start with no prefix.
pub part_not_started :
    (prefix : TokenPrefix) (n : ℕ)
    → n < length (prefix_text prefix)
    → (other : TokenPrefix)
    → starts_with (to_ascii_lowercase (take n (prefix_text prefix))) (prefix_text other) ≡ false
unfolding starts_with to_ascii_lowercase
part_not_started openai n h openai = not_started n (prefix_text openai) (prefix_text openai) (inl h)
part_not_started openai n h github_classic =
    not_started n (prefix_text openai) (prefix_text github_classic) (inr refl)
part_not_started openai n h github_fine =
    not_started n (prefix_text openai) (prefix_text github_fine) (inr refl)
part_not_started openai n h slack =
    not_started n (prefix_text openai) (prefix_text slack) (inr refl)
part_not_started github_classic n h openai =
    not_started n (prefix_text github_classic) (prefix_text openai) (inr refl)
part_not_started github_classic n h github_classic =
    not_started n (prefix_text github_classic) (prefix_text github_classic) (inl h)
part_not_started github_classic n h github_fine =
    not_started n (prefix_text github_classic) (prefix_text github_fine) (inr refl)
part_not_started github_classic n h slack =
    not_started n (prefix_text github_classic) (prefix_text slack) (inr refl)
part_not_started github_fine n h openai =
    not_started n (prefix_text github_fine) (prefix_text openai) (inr refl)
part_not_started github_fine n h github_classic =
    not_started n (prefix_text github_fine) (prefix_text github_classic) (inr refl)
part_not_started github_fine n h github_fine =
    not_started n (prefix_text github_fine) (prefix_text github_fine) (inl h)
part_not_started github_fine n h slack =
    not_started n (prefix_text github_fine) (prefix_text slack) (inr refl)
part_not_started slack n h openai =
    not_started n (prefix_text slack) (prefix_text openai) (inr refl)
part_not_started slack n h github_classic =
    not_started n (prefix_text slack) (prefix_text github_classic) (inr refl)
part_not_started slack n h github_fine =
    not_started n (prefix_text slack) (prefix_text github_fine) (inr refl)
part_not_started slack n h slack = not_started n (prefix_text slack) (prefix_text slack) (inl h)
