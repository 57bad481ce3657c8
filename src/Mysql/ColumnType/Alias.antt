-- ===== src/Mysql/ColumnType/Alias.antt =====
-- plugins/mysql/lib/alias.go. A result of "" means that the type is no alias.
use schemahero.Base.{◌||◌, [], ◌∷◌, ◌++◌, some, if◌then◌else◌, any}
use schemahero.Base.Text.{Text, lit, ◌==◌, has_prefix, contains, replace_all}
use schemahero.Base.Regex.{find_submatch, one_number, spaced_number, two_numbers}
use schemahero.Mysql.ColumnType.{unparameterized_column_types, with_precision_and_scale}

-- MySQL reports a length for these types, and does not accept it in a statement.
without_reported_length : Text → Text
without_reported_length t =
    if t == lit "text (65535)"
    then lit "text"
    else if t == lit "tinytext (255)"
    then lit "tinytext"
    else if t == lit "mediumtext (16777215)"
    then lit "mediumtext"
    else if t == lit "longtext (4294967295)"
    then lit "longtext"
    else if t == lit "blob (65535)"
    then lit "blob"
    else if t == lit "tinyblob (255)"
    then lit "tinyblob"
    else if t == lit "mediumblob (16777215)"
    then lit "mediumblob"
    else if t == lit "longblob (4294967295)"
    then lit "longblob"
    else t

-- unaliasUnparameterizedColumnType
unfoldable pub unalias_unparameterized_column_type : Text → Text
unfolding without_reported_length
unalias_unparameterized_column_type t =
    if t == lit "bool" || t == lit "boolean"
    then lit "tinyint (1)"
    else let bare = without_reported_length t in
      if any (λ k. k == bare) unparameterized_column_types then bare else []

abbrev dec_for_decimal : Text → Text
dec_for_decimal t =
    if contains (lit "decimal") t then replace_all (lit "decimal") (lit "dec") t else t

unalias_char : Text → Text
unalias_char t = elim (find_submatch (one_number (lit "char")) t) [
  | some (len ∷ _) ↦ lit "character (" ++ len ++ lit ")"
  | _ ↦ lit "character"
]

unalias_integer : Text → Text
unalias_integer t = elim (find_submatch (spaced_number (lit "integer")) t) [
  | some (max ∷ _) ↦ lit "int (" ++ max ++ lit ")"
  | _ ↦ lit "int (11)"
]

unalias_dec : Text → Text
unalias_dec t = elim (find_submatch (two_numbers (lit "dec")) t) [
  | some (precision ∷ scale ∷ _) ↦ with_precision_and_scale (lit "decimal") precision scale
  | _ ↦ elim (find_submatch (spaced_number (lit "dec")) t) [
    | some (precision ∷ _) ↦ lit "decimal (" ++ precision ++ lit ", 0)"
    | _ ↦ lit "decimal (10, 0)"
  ]
]

unalias_double_precision : Text → Text
unalias_double_precision t = elim (find_submatch (two_numbers (lit "double precision")) t) [
  | some (precision ∷ scale ∷ _) ↦ with_precision_and_scale (lit "double") precision scale
  | _ ↦ lit "double"
]

-- unaliasParameterizedColumnType
unfoldable pub unalias_parameterized_column_type : Text → Text
unfolding unalias_char unalias_integer unalias_dec unalias_double_precision
unalias_parameterized_column_type t =
    if has_prefix (lit "char ") t
      || has_prefix (lit "char(") t
      || t == lit "character"
      || t == lit "char"
    then unalias_char t
    else if has_prefix (lit "integer") t
    then unalias_integer t
    else if has_prefix (lit "dec") t
    then unalias_dec (dec_for_decimal t)
    else if has_prefix (lit "double precision") t
    then unalias_double_precision t
    else []
