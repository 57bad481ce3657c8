-- ===== src/Types/Keys.antt =====
-- pkg/database/types/keyconstraint.go
use mathlib.Core.Logic.{◌↔◌}
use schemahero.Base.{
  Bool, true, false, ◌&&◌, Option, none, some, List, [], ◌∷◌, ◌++◌, ◌≡◌, refl, arith, bool_eq,
  if◌then◌else◌,
}
use schemahero.Base.Text.{Text, lit, ◌==◌, is_empty, join}
use schemahero.Base.Text.Equality.{eq_iff}
use schemahero.Types.Names.{bare_table_name}

pub record KeyConstraint : Type 0 where
  pub name : Text
  pub columns : List Text
  pub is_primary : Bool

-- Equal lengths, and equal entries at each place.
unfoldable pub columns_equal : List Text → List Text → Bool
columns_equal [] [] = true
columns_equal [] (_ ∷ _) = false
columns_equal (_ ∷ _) [] = false
columns_equal (a ∷ xs) (b ∷ ys) = a == b && columns_equal xs ys

-- KeyConstraint.Equals, where nil equals nil
unfoldable pub key_equals : Option KeyConstraint → Option KeyConstraint → Bool
unfolding columns_equal
key_equals none none = true
key_equals none (some _) = false
key_equals (some _) none = false
key_equals (some k) (some other) =
    bool_eq k.is_primary other.is_primary && columns_equal k.columns other.columns

-- KeyConstraint.GenerateName
unfoldable pub generate_name : KeyConstraint → Text → Text
unfolding bare_table_name
generate_name k table_name =
    if is_empty k.name
    then if k.is_primary
      then bare_table_name table_name ++ lit "_pkey"
      else bare_table_name table_name ++ lit "_" ++ join (lit "_") k.columns ++ lit "_key"
    else k.name

pub columns_equal_iff : (xs ys : List Text) → (columns_equal xs ys ≡ true) ↔ (xs ≡ ys)
unfolding columns_equal
columns_equal_iff [] [] = (λ h. refl, λ e. refl)
columns_equal_iff [] (b ∷ ys) = (λ h. cc, λ e. cc)
columns_equal_iff (a ∷ xs) [] = (λ h. cc, λ e. cc)
columns_equal_iff (a ∷ xs) (b ∷ ys) = ground (arith, columns_equal_iff xs ys, eq_iff a b)

-- What of a key matters to the planner: whether it is there, is primary, and its ordered columns.
abbrev pub shape : Option KeyConstraint → Option (Bool × List Text)
shape none = none
shape (some k) = some (k.is_primary, k.columns)

-- Two keys are equal exactly when both are nil, or both are set, are primary or not alike, and have
-- the same columns in the same order; the name plays no part.
pub key_equals_iff :
    (k other : Option KeyConstraint) → (key_equals k other ≡ true) ↔ (shape k ≡ shape other)
unfolding key_equals
key_equals_iff none none = (λ h. refl, λ e. refl)
key_equals_iff none (some other) = (λ h. cc, λ e. cc)
key_equals_iff (some k) none = (λ h. cc, λ e. cc)
key_equals_iff (some k) (some other) = ground (arith, columns_equal_iff k.columns other.columns)
