-- ===== src/Postgres/Alter.antt =====
-- plugins/postgres/lib/alter.go and oid.go: what becomes of a column whose declaration was read.
pub mod Drift
use schemahero.Base.{
  Bool, true, false, not, ◌&&◌, ◌||◌, List, [], ◌∷◌, ◌++◌, Option, none, some, any, beq,
  if◌then◌else◌,
}
use schemahero.Base.Text.{Text, lit, ◌==◌, has_prefix, contains, join}
use schemahero.Types.Canonical.{canonicalize_sql_expr}
use schemahero.Types.Columns.{Column, ColumnConstraints, bools_equal}
use schemahero.Postgres.Names.{Pgx, sanitize_table_name}

-- The rest of a match of oidClassRegexp behind a quote: `::` and a byte that does not end the line
abbrev has_cast : Text → Bool
has_cast (a ∷ b ∷ c ∷ s) = beq a b':' && beq b b':' && not (beq c b'\n')
has_cast (a ∷ b ∷ []) = false
has_cast (a ∷ []) = false
has_cast [] = false

-- What stands up to the last quote of the line that is followed by a cast.
unfoldable pub up_to_last_quote : Text → Option Text
up_to_last_quote [] = none
up_to_last_quote (c ∷ s) =
    let later = up_to_last_quote s in
    if beq c b'\n' then none else elim later [
      | some t ↦ some (c ∷ t)
      | none ↦ if beq c b'\'' && has_cast s then some (c ∷ []) else none
    ]

unfoldable pub find_literal : Text → Option Text
unfolding up_to_last_quote
find_literal [] = none
find_literal (c ∷ s) =
    let later = find_literal s in
    if beq c b'\''
    then elim (up_to_last_quote s) [ some t ↦ some (c ∷ t) | none ↦ later ]
    else later

-- stripOIDClass
unfoldable pub strip_oid_class : Text → Text
unfolding find_literal
strip_oid_class value = elim (find_literal value) [ some t ↦ t | none ↦ value ]

-- formatColumnDefault
unfoldable pub format_column_default : Text → Text
unfolding strip_oid_class has_prefix contains
format_column_default raw =
    let value = strip_oid_class raw in
    if has_prefix (lit "'") value || contains (lit "(") value
    then value
    else lit "'" ++ value ++ lit "'"

-- columnDefaultsEqual
unfoldable pub column_defaults_equal : Option Text → Option Text → Bool
unfolding canonicalize_sql_expr
column_defaults_equal none none = true
column_defaults_equal none (some _) = false
column_defaults_equal (some _) none = false
column_defaults_equal (some a) (some b) = canonicalize_sql_expr a == canonicalize_sql_expr b

abbrev pub with_time_zone : Text → Text
with_time_zone t =
    if t == lit "timestamp"
    then lit "timestamp without time zone"
    else if t == lit "time"
    then lit "time without time zone"
    else t

abbrev pub null_constraint : Option ColumnConstraints → Option Bool
null_constraint none = none
null_constraint (some c) = c.not_null

-- columnsMatch of the PostgreSQL plugin
unfoldable pub postgres_columns_match : Column → Column → Bool
unfolding column_defaults_equal bools_equal
postgres_columns_match a b =
    (with_time_zone a.data_type == with_time_zone b.data_type)
    && (if a.is_array then b.is_array else not b.is_array)
    && column_defaults_equal a.column_default b.column_default
    && bools_equal (null_constraint a.constraints) (null_constraint b.constraints)

abbrev pub is_not_null : Option Bool → Bool
is_not_null (some b) = b
is_not_null none = false

abbrev pub is_serial : Text → Bool
is_serial t = t == lit "serial" || t == lit "bigserial"

module _ (pgx : Pgx) (table_name : Text) where
  -- The three steps that make an existing column not null
  unfoldable pub add_not_null_statements : Column → Column → List Text
  unfolding column_defaults_equal format_column_default sanitize_table_name
  add_not_null_statements existing column =
      let table = sanitize_table_name pgx table_name in
      let name = pgx.sanitize (existing.name ∷ []) in
      elim column.column_default [
        | none ↦ []
        | some d ↦
            (if column_defaults_equal existing.column_default (some d)
              then []
              else (lit "alter table "
                  ++ table
                  ++ lit " alter column "
                  ++ name
                  ++ lit " set default "
                  ++ format_column_default d)
                ∷ [])
            ++ (lit "update "
                ++ table
                ++ lit " set "
                ++ name
                ++ lit "="
                ++ format_column_default d
                ++ lit " where "
                ++ name
                ++ lit " is null")
              ∷ []
      ]
      ++ (lit "alter table " ++ table ++ lit " alter column " ++ name ++ lit " set not null") ∷ []

  abbrev alter_column : Column → Text
  alter_column existing = lit "alter column " ++ pgx.sanitize (existing.name ∷ [])

  abbrev pub type_changes : Column → Column → List Text
  type_changes existing column =
      if existing.data_type == column.data_type
      then if (if column.is_array then existing.is_array else not existing.is_array)
        then []
        else (alter_column existing
            ++ lit " type "
            ++ column.data_type
            ++ lit "[] using "
            ++ pgx.sanitize (existing.name ∷ [])
            ++ lit "::"
            ++ column.data_type
            ++ lit "[]")
          ∷ []
      else (alter_column existing ++ lit " type " ++ column.data_type) ∷ []

  abbrev pub default_changes : Column → Option Text → Option Text → List Text
  default_changes existing none none = []
  default_changes existing (some _) none = (alter_column existing ++ lit " drop default") ∷ []
  default_changes existing present (some d) =
      if column_defaults_equal present (some d)
      then []
      else (alter_column existing ++ lit " set default " ++ format_column_default d) ∷ []

  abbrev pub null_changes : List Text → Column → Column → List Text
  null_changes primary_keys existing column =
      if any (λ k. column.name == k) primary_keys
      then []
      else if is_not_null (null_constraint existing.constraints)
          && not (is_not_null (null_constraint column.constraints))
      then (alter_column existing ++ lit " drop not null") ∷ []
      else []

  unfoldable pub column_changes : List Text → Column → Column → List Text
  unfolding column_defaults_equal format_column_default any
  column_changes primary_keys existing column =
      if is_serial column.data_type
      then []
      else type_changes existing column
        ++ default_changes existing existing.column_default column.column_default
        ++ null_changes primary_keys existing column

  abbrev pub joined_changes : List Text → List Text
  joined_changes [] = []
  joined_changes (c ∷ cs) =
      (lit "alter table "
        ++ sanitize_table_name pgx table_name
        ++ lit " "
        ++ join (lit ", ") (c ∷ cs))
      ∷ []

  -- AlterColumnStatements for a declared column that was found and converted
  unfoldable pub altered_column_statements : List Text → Column → Column → List Text
  unfolding postgres_columns_match add_not_null_statements column_changes sanitize_table_name join
  altered_column_statements primary_keys existing column =
      if postgres_columns_match existing column
      then []
      else if is_not_null (null_constraint column.constraints)
          && not (is_not_null (null_constraint existing.constraints))
      then add_not_null_statements existing column
      else joined_changes (column_changes primary_keys existing column)
