-- ===== src/Mysql/ColumnType/Stable.antt =====
-- Reading a type that was read before.
use mathlib.Core.List.{Memᴰ}
use mathlib.Core.Path.{subst}
use schemahero.Base.{
  ℕ, append_assoc, ◌≤◌, List, [], ◌∷◌, ◌++◌, Option, none, some, ◌≡◌, inl, inr, refl, sym,
  Option-cases, Bool-cases, ltb, false, ◌∙◌, if◌then◌else◌,
}
use schemahero.Base.Text.{Text, lit, has_prefix}
use schemahero.Base.Text.Number.{itoa, atoi, max_int, atoi-itoa, atoi-le, itoa-digits}
use mathlib.Core.List.Memᴰ
use schemahero.Base.Regex.{find_submatch, one_number, is_blank}
use schemahero.Base.Regex.Sizes.{find_submatch-one_number}
use schemahero.Base.Result.{Error, Result, ok, err, failed}
use schemahero.Mysql.ColumnType.{
  number, with_size, sized, fractional, maybe_parse_parameterized_column_type,
}

abbrev in_parentheses : ℕ → Text
in_parentheses n = lit " (" ++ (itoa n ++ lit ")")

abbrev normal_form : Text → ℕ → Text
normal_form word n = word ++ lit " (" ++ itoa n ++ lit ")"

normal_form-begins : (word : Text) (n : ℕ) → normal_form word n ≡ word ++ in_parentheses n
normal_form-begins word n =
    append_assoc (word ++ lit " (") (itoa n) (lit ")")
    ∙ append_assoc word (lit " (") (itoa n ++ lit ")")

sized-normal_form :
    (word default : Text) (n : ℕ)
    → n ≤ max_int
    → sized word default (normal_form word n) ≡ ok (normal_form word n)
unfolding sized number
sized-normal_form word default n h =
    rw (find_submatch-one_number word (itoa n) (itoa-digits n), sized, number, atoi-itoa n h) refl

ok_inj : {s t : Text} → ok s ≡ ok t → s ≡ t
ok_inj h = cc

err_not_ok : {e : Error} {t : Text} → err e ≡ ok t → ⊥
err_not_ok h = cc

with_size-form :
    (word digits t : Text)
    → with_size word digits ≡ ok t
    → (n : ℕ) × (n ≤ max_int) × (normal_form word n ≡ t)
unfolding number
with_size-form word digits t h = elim (Option-cases (atoi digits)) [
  | inl missing ↦ absurd (err_not_ok (rw (missing, number) at h))
  | inr (n, is) ↦ (n, atoi-le digits n is, ok_inj (rw (is, number) at h))
]

fractional-normal_form :
    (word : Text) (n : ℕ)
    → n ≤ max_int
    → ltb 6 n ≡ false
    → fractional word (normal_form word n) ≡ ok (normal_form word n)
unfolding fractional number
fractional-normal_form word n h small =
    rw
      (
        find_submatch-one_number word (itoa n) (itoa-digits n),
        fractional,
        number,
        atoi-itoa n h,
        small,
      )
      refl

-- What one branch reads begins with its word, and the branch reads it again as itself.
abbrev ReadsAgain : Text → (Text → Result Text) → Type 0
ReadsAgain word read =
    (requested t : Text)
    → read requested ≡ ok t
    → (rest : Text) × (t ≡ word ++ rest) × (read t ≡ ok t)

-- The branch for a word, among those of maybeParseParameterizedColumnType.
record IsBranch (word : Text) (read : Text → Result Text) : Type 0 where
  chosen :
      (rest : Text) → maybe_parse_parameterized_column_type (word ++ rest) ≡ read (word ++ rest)
  again : ReadsAgain word read

abbrev HasBranch : Text → Type 0
HasBranch word = (read : Text → Result Text) × IsBranch word read

sized-again :
    (word default rest : Text)
    → default ≡ word ++ rest
    → sized word default default ≡ ok default
    → ReadsAgain word (sized word default)
unfolding sized
sized-again word default rest begins stable requested t h =
    go (find_submatch (one_number word) requested) refl
  where
    missing : ok default ≡ ok t → (rest : Text) × (t ≡ word ++ rest) × (sized word default t ≡ ok t)
    missing e = let is = ok_inj e in (rest, sym is ∙ begins, rw (← is) stable)

    go :
        (o : Option (List Text))
        → find_submatch (one_number word) requested ≡ o
        → (rest : Text) × (t ≡ word ++ rest) × (sized word default t ≡ ok t)
    go none e = missing (rw (e, sized) at h)
    go (some []) e = missing (rw (e, sized) at h)
    go (some (digits ∷ r)) e =
        let (n, le, form) = with_size-form word digits t (rw (e, sized) at h) in
        (
          in_parentheses n,
          sym form ∙ normal_form-begins word n,
          rw (← form) (sized-normal_form word default n le),
        )

fractional_form :
    (word : Text) (n : ℕ) (e : Error) {t : Text}
    → (if ltb 6 n then err e else ok (normal_form word n)) ≡ ok t
    → (ltb 6 n ≡ false) × (normal_form word n ≡ t)
fractional_form word n e h = elim (Bool-cases (ltb 6 n)) [
  | inl large ↦ absurd (err_not_ok (rw large at h))
  | inr small ↦ (small, ok_inj (rw small at h))
]

fractional-again : (word : Text) → ReadsAgain word (fractional word)
unfolding fractional number
fractional-again word requested t h = go (find_submatch (one_number word) requested) refl
  where
    go :
        (o : Option (List Text))
        → find_submatch (one_number word) requested ≡ o
        → (rest : Text) × (t ≡ word ++ rest) × (fractional word t ≡ ok t)
    go none e = absurd (err_not_ok (rw (e, fractional) at h))
    go (some []) e = absurd (err_not_ok (rw (e, fractional) at h))
    go (some (digits ∷ r)) e = elim (Option-cases (atoi digits)) [
      | inl missing ↦ absurd (err_not_ok (rw (e, fractional, missing, number) at h))
      | inr (n, is) ↦
          let (small, form) =
            fractional_form word n (failed (lit "invalid " ++ word ++ lit " precision " ++ itoa n))
              {t = t} (rw (e, fractional, is, number) at h) in
          (
            in_parentheses n,
            sym form ∙ normal_form-begins word n,
            rw (← form) (fractional-normal_form word n (atoi-le digits n is) small),
          )
    ]

-- The words of the types that have one size, and of the times, which have a precision.
abbrev pub words_with_size : List Text
words_with_size =
    lit "varchar"
    ∷ lit "tinyint"
    ∷ lit "bit"
    ∷ lit "smallint"
    ∷ lit "mediumint"
    ∷ lit "int"
    ∷ lit "bigint"
    ∷ lit "binary"
    ∷ lit "varbinary"
    ∷ lit "blob"
    ∷ lit "text"
    ∷ lit "datetime"
    ∷ lit "timestamp"
    ∷ []

-- The branch of a word with a size, with the default that stands for a missing one.
sized_branch :
    (word default rest : Text)
    → ((r : Text)
        → maybe_parse_parameterized_column_type (word ++ r) ≡ sized word default (word ++ r))
    → default ≡ word ++ rest
    → sized word default default ≡ ok default
    → HasBranch word
sized_branch word default rest chosen begins stable =
    (_, record { chosen = chosen; again = sized-again word default rest begins stable })

fractional_branch :
    (word : Text)
    → ((r : Text) → maybe_parse_parameterized_column_type (word ++ r) ≡ fractional word (word ++ r))
    → HasBranch word
fractional_branch word chosen = (_, record { chosen = chosen; again = fractional-again word })

-- A branch for each of some words.
infixr 5 ◌also◌
data Branches : List Text → Type 0 where
  no_more : Branches []
  ◌also◌ :
      {word : Text} {words : List Text} → HasBranch word → Branches words → Branches (word ∷ words)

branches : Branches words_with_size
unfolding lit maybe_parse_parameterized_column_type has_prefix sized number atoi itoa find_submatch
    one_number is_blank
branches =
    sized_branch (lit "varchar") (lit "varchar (1)") (lit " (1)") (λ r. refl) refl refl
    also sized_branch (lit "tinyint") (lit "tinyint (1)") (lit " (1)") (λ r. refl) refl refl
    also sized_branch (lit "bit") (lit "bit (1)") (lit " (1)") (λ r. refl) refl refl
    also sized_branch (lit "smallint") (lit "smallint (5)") (lit " (5)") (λ r. refl) refl refl
    also sized_branch (lit "mediumint") (lit "mediumint (9)") (lit " (9)") (λ r. refl) refl refl
    also sized_branch (lit "int") (lit "int (11)") (lit " (11)") (λ r. refl) refl refl
    also sized_branch (lit "bigint") (lit "bigint (20)") (lit " (20)") (λ r. refl) refl refl
    also sized_branch (lit "binary") (lit "binary (1)") (lit " (1)") (λ r. refl) refl refl
    also sized_branch (lit "varbinary") (lit "varbinary (1)") (lit " (1)") (λ r. refl) refl refl
    also sized_branch (lit "blob") (lit "blob") (lit "") (λ r. refl) refl refl
    also sized_branch (lit "text") (lit "text") (lit "") (λ r. refl) refl refl
    also fractional_branch (lit "datetime") (λ r. refl)
    also fractional_branch (lit "timestamp") (λ r. refl)
    also no_more

branch_of : {word : Text} {words : List Text} → Branches words → Memᴰ word words → HasBranch word
branch_of no_more m = absurd (Memᴰ.not-nil m)
branch_of (branch also rest) m = elim (Memᴰ.cases_cons m) [
  | inl is ↦ subst HasBranch (sym is) branch
  | inr later ↦ branch_of rest later
]

-- What a column type that begins with one of `words_with_size` is read as is read again as itself. What
-- is behind the word is arbitrary: a size, a precision, or none, for which the default of the word
-- stands. A type that cannot be read, such as one with a number that is too large, is left out.
pub maybe_parse_parameterized_column_type_idem :
    (word rest t : Text)
    → Memᴰ word words_with_size
    → maybe_parse_parameterized_column_type (word ++ rest) ≡ ok t
    → maybe_parse_parameterized_column_type t ≡ ok t
maybe_parse_parameterized_column_type_idem word rest t m h =
    let (read, branch) = branch_of branches m in
    let (behind, begins, again) = branch.again (word ++ rest) t (sym (branch.chosen rest) ∙ h) in
    rw begins (branch.chosen behind ∙ rw begins at again)
