-- ===== src/Types/Indexes/Matching.antt =====
-- What the comparison of column sets and of indexes decides.
use schemahero.Base.{
  Bool, true, false, ◌||◌, List, [], ◌∷◌, ◌≡◌, ◌↔◌, inl, inr, refl, arith, length, any, All, Any,
  if◌then◌else◌, bool_eq,
}
use schemahero.Base.Text.{Text}
use schemahero.Base.Text.Equality.{eq_iff, eq_refl}
use schemahero.Types.Indexes.{
  Index, IndexColumn, contains_column, contains_columns, column_sets_equal, same_length,
  sorted_columns_equal, expressions_equal, index_equals, is_extended,
}

same_length_iff : (xs ys : List Text) → (same_length xs ys ≡ true) ↔ (length xs ≡ length ys)
same_length_iff [] [] = (λ h. refl, λ e. refl)
same_length_iff [] (_ ∷ ys) = (λ h. cc, λ e. absurd (omega arith))
same_length_iff (_ ∷ xs) [] = (λ h. cc, λ e. absurd (omega arith))
same_length_iff (_ ∷ xs) (_ ∷ ys) =
    (λ h. omega (arith, (same_length_iff xs ys).0 h), λ e. (same_length_iff xs ys).1 (omega arith))

-- One of the columns is this one.
abbrev pub Has : List Text → Text → Type 0
Has columns other = Any (λ c. c ≡ other) columns

contains_column_iff :
    (columns : List Text) (other : Text)
    → (contains_column columns other ≡ true) ↔ Has columns other
unfolding contains_column any
contains_column_iff [] other = (λ h. cc, λ e. absurd e)
contains_column_iff (c ∷ cs) other = ground (arith, contains_column_iff cs other, eq_iff c other)

contains_columns_iff :
    (columns others : List Text)
    → (contains_columns columns others ≡ true) ↔ All (Has columns) others
unfolding contains_columns
contains_columns_iff columns [] = (λ h. tt, λ e. refl)
contains_columns_iff columns (o ∷ os) =
    ground (arith, contains_column_iff columns o, contains_columns_iff columns os)

-- Two column lists are taken for equal exactly when they are of one length and each column of the
-- second one is in the first one.
pub column_sets_equal_iff :
    (columns others : List Text)
    → (column_sets_equal columns others ≡ true)
      ↔ ((length columns ≡ length others) × All (Has columns) others)
unfolding column_sets_equal
column_sets_equal_iff columns others =
    ground (arith, same_length_iff columns others, contains_columns_iff columns others)

All-Has-cons :
    (c : Text) (columns others : List Text)
    → All (Has columns) others
    → All (Has (c ∷ columns)) others
All-Has-cons c columns [] h = tt
All-Has-cons c columns (o ∷ os) (h, hs) = (inr h, All-Has-cons c columns os hs)

All-Has_self : (columns : List Text) → All (Has columns) columns
All-Has_self [] = tt
All-Has_self (c ∷ cs) = (inl refl, All-Has-cons c cs cs (All-Has_self cs))

pub column_sets_equal_refl : (columns : List Text) → column_sets_equal columns columns ≡ true
column_sets_equal_refl columns =
    (column_sets_equal_iff columns columns).1 (refl, All-Has_self columns)

pub sorted_columns_equal_refl : (cs : List IndexColumn) → sorted_columns_equal cs cs ≡ true
unfolding sorted_columns_equal
sorted_columns_equal_refl [] = refl
sorted_columns_equal_refl (c ∷ cs) = simp (eq_refl, sorted_columns_equal_refl cs)

pub expressions_equal_refl : (es : List Text) → expressions_equal es es ≡ true
unfolding expressions_equal
expressions_equal_refl [] = refl
expressions_equal_refl (e ∷ es) = simp (eq_refl, expressions_equal_refl es)

pub bool_eq_refl : (b : Bool) → bool_eq b b ≡ true
bool_eq_refl true = refl
bool_eq_refl false = refl

if_same : (b x y : Bool) → x ≡ true → y ≡ true → (if b then x else y) ≡ true
if_same true x y p q = p
if_same false x y p q = q

-- Every index is equal to itself.
pub index_equals_refl : (i : Index) → index_equals i i ≡ true
unfolding index_equals
index_equals_refl i =
    simp
      (
        eq_refl, bool_eq_refl, column_sets_equal_refl, sorted_columns_equal_refl,
        expressions_equal_refl,
      )
      (if_same (is_extended i || is_extended i) true true refl refl)
