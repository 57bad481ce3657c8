-- ===== src/Mysql/Alter.antt =====
-- plugins/mysql/lib/alter.go: what becomes of a column that the table has.
use schemahero.Base.{
  Bool, true, false, ◌&&◌, ◌||◌, List, [], ◌∷◌, Option, none, some, if◌then◌else◌, any,
}
use schemahero.Base.Text.{Text, ◌==◌, is_empty}
use schemahero.Base.Result.{Result, ok, ◌>>=◌}
use schemahero.Schema.Mysql.{MysqlTableColumn}
use schemahero.Types.Columns.{Column, bools_equal}
use schemahero.Mysql.Column.{schema_column_to_column, not_null_of, auto_increment_of}
use schemahero.Mysql.AlterStatements.{modify_column_ddl, drop_column_ddl}

abbrev or_default : Text → Text → Text
or_default value default = if is_empty value then default else value

-- Two defaults: both unset, or both set and equal.
unfoldable pub defaults_equal : Option Text → Option Text → Bool
defaults_equal none none = true
defaults_equal none (some _) = false
defaults_equal (some _) none = false
defaults_equal (some a) (some b) = a == b

-- columnsMatch
unfoldable pub columns_match : Column → Column → Text → Text → Bool
columns_match existing spec default_charset default_collation =
    (existing.data_type == spec.data_type)
    && (or_default existing.charset default_charset == or_default spec.charset default_charset)
    && (is_empty spec.collation
        || or_default existing.collation default_collation == spec.collation)
    && defaults_equal existing.column_default spec.column_default
    && bools_equal (not_null_of existing) (not_null_of spec)
    && bools_equal (auto_increment_of existing) (auto_increment_of spec)

-- ensureColumnConstraintsNotNullTrue
unfoldable pub ensure_column_constraints_not_null_true : Column → Column
ensure_column_constraints_not_null_true c = record c {
  constraints = some (record { not_null = some true });
}

-- The first declared column of this name.
unfoldable pub find_column : Text → List MysqlTableColumn → Option MysqlTableColumn
find_column name [] = none
find_column name (c ∷ r) = if c.name == name then some c else find_column name r

-- A declared column as the planner compares it: a column of the primary key is not null.
unfoldable pub desired_column : List Text → MysqlTableColumn → Result Column
unfolding ensure_column_constraints_not_null_true any
desired_column primary_keys desired = do
  column ← schema_column_to_column desired
  ok (
      if any (λ k. column.name == k) primary_keys
      then ensure_column_constraints_not_null_true column
      else column)

-- AlterColumnStatements
unfoldable pub alter_column_statements :
    Text → List Text → List MysqlTableColumn → Column → Text → Text → Result (List Text)
unfolding find_column desired_column columns_match
alter_column_statements table_name primary_keys desired existing default_charset default_collation =
    elim (find_column existing.name desired) [
      | none ↦ ok (drop_column_ddl table_name existing.name)
      | some d ↦ do
        column ← desired_column primary_keys d
        ok (
            if columns_match existing column default_charset default_collation
            then []
            else modify_column_ddl
                (record { table_name = table_name; existing_column = existing; column = column }))
    ]
