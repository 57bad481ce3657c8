-- ===== src/Mysql/ColumnType.antt =====
-- plugins/mysql/lib/parameterized.go and alias.go: the spelling of column types.
pub mod Alias
pub mod Tests
pub mod Stable
use schemahero.Base.{
  ℕ, Bool, true, false, not, List, [], ◌∷◌, ◌++◌, Option, none, some, if◌then◌else◌, any, ltb,
}
use schemahero.Base.Text.{Text, lit, ◌==◌, has_prefix, contains, replace_all}
use schemahero.Base.Text.Number.{itoa, atoi}
use schemahero.Base.Regex.{find_submatch, one_number, spaced_number, two_numbers}
use schemahero.Base.Result.{Result, ok, err, failed, bad_number, ◌>>=◌}

abbrev pub unparameterized_column_types : List Text
unparameterized_column_types =
    lit "date"
    ∷ lit "datetime"
    ∷ lit "timestamp"
    ∷ lit "tinyblob"
    ∷ lit "tinytext"
    ∷ lit "mediumblob"
    ∷ lit "mediumtext"
    ∷ lit "longblob"
    ∷ lit "longtext"
    ∷ lit "blob"
    ∷ lit "text"
    ∷ []

-- isParameterizedColumnType
unfoldable pub is_parameterized_column_type : Text → Bool
is_parameterized_column_type requested =
    not (any (λ t. t == requested) unparameterized_column_types)

-- strconv.Atoi, whose error is returned as it is
unfoldable pub number : Text → Result ℕ
number digits = elim (atoi digits) [ none ↦ err (bad_number digits) | some n ↦ ok n ]

-- fmt.Sprintf("word (%d)", max)
abbrev pub with_size : Text → Text → Result Text
with_size word digits = do n ← number digits; ok (word ++ lit " (" ++ itoa n ++ lit ")")

-- One branch for a type with a size: the default stands for a missing one.
unfoldable pub sized : Text → Text → Text → Result Text
unfolding number
sized word default requested = elim (find_submatch (one_number word) requested) [
  | some (digits ∷ _) ↦ with_size word digits
  | _ ↦ ok default
]

-- The branches of datetime and timestamp, whose precision is required and at most 6.
unfoldable pub fractional : Text → Text → Result Text
unfolding number
fractional word requested = elim (find_submatch (one_number word) requested) [
  | some (digits ∷ _) ↦ do
    n ← number digits
    if ltb 6 n
        then err (failed (lit "invalid " ++ word ++ lit " precision " ++ itoa n))
        else ok (word ++ lit " (" ++ itoa n ++ lit ")")
  | _ ↦ err (failed (lit "invalid " ++ word ++ lit " precision"))
]

abbrev pub with_precision_and_scale : Text → Text → Text → Text
with_precision_and_scale word precision scale =
    word ++ lit " (" ++ precision ++ lit ", " ++ scale ++ lit ")"

-- The branch of decimal.
unfoldable pub decimal_type : Text → Text
decimal_type requested = elim (find_submatch (two_numbers (lit "decimal")) requested) [
  | some (precision ∷ scale ∷ _) ↦ with_precision_and_scale (lit "decimal") precision scale
  | _ ↦ elim (find_submatch (spaced_number (lit "decimal")) requested) [
    | some (precision ∷ _) ↦ lit "decimal (" ++ precision ++ lit ", 0)"
    | _ ↦ lit "decimal (10, 0)"
  ]
]

-- The branch of float.
unfoldable pub float_type : Text → Result Text
unfolding number
float_type requested = elim (find_submatch (two_numbers (lit "float")) requested) [
  | some (precision ∷ scale ∷ _) ↦ ok (with_precision_and_scale (lit "float") precision scale)
  | _ ↦ elim (find_submatch (spaced_number (lit "float")) requested) [
    | some (precision ∷ _) ↦ do
      n ← number precision
      ok (if ltb 24 n then lit "double" else lit "float")
    | _ ↦ ok (lit "float")
  ]
]

-- The branch of double.
unfoldable pub double_type : Text → Text
double_type requested = elim (find_submatch (two_numbers (lit "double")) requested) [
  | some (precision ∷ scale ∷ _) ↦ with_precision_and_scale (lit "double") precision scale
  | _ ↦ lit "double"
]

abbrev char_for_character : Text → Text
char_for_character requested =
    if contains (lit "character") requested
    then replace_all (lit "character") (lit "char") requested
    else requested

-- maybeParseParameterizedColumnType
unfoldable pub maybe_parse_parameterized_column_type : Text → Result Text
unfolding sized fractional decimal_type float_type double_type
maybe_parse_parameterized_column_type t =
    if has_prefix (lit "varchar") t
    then sized (lit "varchar") (lit "varchar (1)") t
    else if has_prefix (lit "char") t
    then sized (lit "char") (lit "char (11)") (char_for_character t)
    else if has_prefix (lit "datetime") t
    then fractional (lit "datetime") t
    else if has_prefix (lit "timestamp") t
    then fractional (lit "timestamp") t
    else if has_prefix (lit "tinyint") t
    then sized (lit "tinyint") (lit "tinyint (1)") t
    else if has_prefix (lit "bit") t
    then sized (lit "bit") (lit "bit (1)") t
    else if has_prefix (lit "smallint") t
    then sized (lit "smallint") (lit "smallint (5)") t
    else if has_prefix (lit "mediumint") t
    then sized (lit "mediumint") (lit "mediumint (9)") t
    else if has_prefix (lit "int") t
    then sized (lit "int") (lit "int (11)") t
    else if has_prefix (lit "bigint") t
    then sized (lit "bigint") (lit "bigint (20)") t
    else if has_prefix (lit "decimal") t
    then ok (decimal_type t)
    else if has_prefix (lit "float") t
    then float_type t
    else if has_prefix (lit "double") t
    then ok (double_type t)
    else if has_prefix (lit "binary") t
    then sized (lit "binary") (lit "binary (1)") t
    else if has_prefix (lit "varbinary") t
    then sized (lit "varbinary") (lit "varbinary (1)") t
    else if has_prefix (lit "blob") t
    then sized (lit "blob") (lit "blob") t
    else if has_prefix (lit "text") t
    then sized (lit "text") (lit "text") t
    else if has_prefix (lit "json") t
    then ok (lit "json")
    else ok []
