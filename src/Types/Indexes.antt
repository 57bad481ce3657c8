-- ===== src/Types/Indexes.antt =====
-- pkg/database/types/index.go, without the name generators
pub mod Matching
pub mod Conversions
use schemahero.Base.{
  Bool, true, false, not, ◌&&◌, ◌||◌, List, [], ◌∷◌, map, if◌then◌else◌, bool_eq, any,
}
use schemahero.Base.Text.{Text, lit, ◌==◌, is_empty, to_lower, to_upper, trim_space}
use schemahero.Types.Canonical.{canonicalize_sql_expr}

pub record IndexColumn : Type 0 where
  pub column : Text
  pub op_class : Text
  pub sort : Text
  pub nulls : Text

-- The map of storage parameters is the list of its entries.
pub record Index : Type 0 where
  pub columns : List Text
  pub name : Text
  pub is_unique : Bool
  pub parameters : List (Text × Text)
  pub type : Text
  pub condition : Text
  pub expressions : List Text
  pub sorted_columns : List IndexColumn

-- normalizeIndexMethod
unfoldable pub normalize_index_method : Text → Text
normalize_index_method method =
    let m = to_lower (trim_space method) in if is_empty m then lit "btree" else m

-- normalizeSQLFragment
unfoldable pub normalize_sql_fragment : Text → Text
normalize_sql_fragment s = canonicalize_sql_expr s

abbrev normalize_sort : Text → Text
normalize_sort s = let t = to_upper (trim_space s) in if is_empty t then lit "ASC" else t

-- One round of the loop of sortedColumnsEqual.
unfoldable pub sorted_column_equal : IndexColumn → IndexColumn → Bool
sorted_column_equal a b =
    (a.column == b.column)
    && (normalize_sort a.sort == normalize_sort b.sort)
    && (to_upper (trim_space a.nulls) == to_upper (trim_space b.nulls))
    && (to_lower (trim_space a.op_class) == to_lower (trim_space b.op_class))

-- sortedColumnsEqual
unfoldable pub sorted_columns_equal : List IndexColumn → List IndexColumn → Bool
unfolding sorted_column_equal
sorted_columns_equal [] [] = true
sorted_columns_equal [] (_ ∷ _) = false
sorted_columns_equal (_ ∷ _) [] = false
sorted_columns_equal (a ∷ r) (b ∷ r') = sorted_column_equal a b && sorted_columns_equal r r'

-- expressionsEqual
unfoldable pub expressions_equal : List Text → List Text → Bool
unfolding normalize_sql_fragment
expressions_equal [] [] = true
expressions_equal [] (_ ∷ _) = false
expressions_equal (_ ∷ _) [] = false
expressions_equal (a ∷ r) (b ∷ r') =
    (normalize_sql_fragment a == normalize_sql_fragment b) && expressions_equal r r'

-- Some element is equal to the text; the inner loop of both column set comparisons.
unfoldable pub contains_column : List Text → Text → Bool
contains_column columns other = any (λ c. c == other) columns

abbrev same_length : List Text → List Text → Bool
same_length [] [] = true
same_length [] (_ ∷ _) = false
same_length (_ ∷ _) [] = false
same_length (_ ∷ r) (_ ∷ r') = same_length r r'

-- Every column of the second list is in the first.
unfoldable pub contains_columns : List Text → List Text → Bool
contains_columns columns [] = true
contains_columns columns (other ∷ others) =
    contains_column columns other && contains_columns columns others

-- As many columns, and every one of the second list is in the first.
unfoldable pub column_sets_equal : List Text → List Text → Bool
unfolding contains_column contains_columns
column_sets_equal columns others = same_length columns others && contains_columns columns others

abbrev pub is_extended : Index → Bool
is_extended i = elim i.sorted_columns [
  | [] ↦ elim i.expressions [ [] ↦ false | _ ∷ _ ↦ true ]
  | _ ∷ _ ↦ true
]

-- Index.Equals
unfoldable pub index_equals : Index → Index → Bool
unfolding normalize_index_method sorted_columns_equal expressions_equal column_sets_equal
index_equals idx other =
    (idx.name == other.name)
    && bool_eq idx.is_unique other.is_unique
    && (normalize_index_method idx.type == normalize_index_method other.type)
    && (normalize_sql_fragment idx.condition == normalize_sql_fragment other.condition)
    && (if is_extended idx || is_extended other
        then sorted_columns_equal idx.sorted_columns other.sorted_columns
          && expressions_equal idx.expressions other.expressions
        else column_sets_equal idx.columns other.columns)
