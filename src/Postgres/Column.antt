-- ===== src/Postgres/Column.antt =====
-- plugins/postgres/lib/column.go
use schemahero.Base.{
  Bool, true, false, not, List, [], ◌∷◌, ◌++◌, Option, none, some, if◌then◌else◌, ltb, length,
}
use schemahero.Base.Text.{Text, lit, is_empty, split}
use schemahero.Base.Result.{Result, ok, ◌>>=◌}
use schemahero.Schema.Postgresql.{PostgresqlTableColumn, PostgresqlTableColumnConstraints}
use schemahero.Types.Columns.{Column, ColumnConstraints}
use schemahero.Postgres.Names.{Pgx, sanitize_table_name}
use schemahero.Postgres.ColumnType.{
  is_parameterized_column_type, unalias_unparameterized_column_type,
  unalias_parameterized_column_type, maybe_parse_parameterized_column_type,
}
use schemahero.Postgres.Alter.{format_column_default, null_constraint}

abbrev if_set : Text → Text → Text
if_set unaliased requested = if is_empty unaliased then requested else unaliased

abbrev first_part : List Text → Text
first_part [] = []
first_part (p ∷ ps) = p

-- The type in front of the brackets of an array
unfoldable pub element_type : Text → Text
unfolding split
element_type t = first_part (split b'[' t)

unfoldable pub unaliased_type : Text → Text
unfolding unalias_unparameterized_column_type unalias_parameterized_column_type
unaliased_type t =
    let plain = if_set (unalias_unparameterized_column_type t) t in
    if_set (unalias_parameterized_column_type plain) plain

-- The type that a column is compared and created with; a type that is not known is kept.
unfoldable pub column_data_type : Text → Result Text
unfolding unaliased_type is_parameterized_column_type maybe_parse_parameterized_column_type
column_data_type t =
    let requested = unaliased_type t in
    if not (is_parameterized_column_type requested) then ok requested else do
      column_type ← maybe_parse_parameterized_column_type requested
      ok (if_set column_type requested)

abbrev pub column_constraints : Option PostgresqlTableColumnConstraints → Option ColumnConstraints
column_constraints none = none
column_constraints (some c) = some (record { not_null = c.not_null })

-- schemaColumnToColumn
unfoldable pub schema_column_to_column : PostgresqlTableColumn → Result Column
unfolding element_type column_data_type
schema_column_to_column c = do
  data_type ← column_data_type (element_type c.type)
  ok (record {
    name = c.name;
    data_type = data_type;
    column_default = c.default;
    constraints = column_constraints c.constraints;
    attributes = none;
    is_array = ltb (length (element_type c.type)) (length c.type);
    charset = [];
    collation = [];
    is_static = false;
  })

abbrev nullability : Option Bool → Text
nullability none = []
nullability (some true) = lit " not null"
nullability (some false) = lit " null"

abbrev default_clause : Option Text → Text
default_clause none = []
default_clause (some d) = lit " default " ++ format_column_default d

module _ (pgx : Pgx) where
  -- columnAsInsert
  unfoldable pub column_as_insert : PostgresqlTableColumn → Result Text
  unfolding schema_column_to_column format_column_default
  column_as_insert column = do
    c ← schema_column_to_column column
    ok (
        pgx.sanitize (column.name ∷ [])
        ++ lit " "
        ++ c.data_type
        ++ (if c.is_array then lit "[]" else [])
        ++ nullability (null_constraint c.constraints)
        ++ default_clause c.column_default)

  -- InsertColumnStatement
  unfoldable pub insert_column_statement : Text → PostgresqlTableColumn → Result Text
  unfolding column_as_insert sanitize_table_name
  insert_column_statement table_name desired = do
    fields ← column_as_insert desired
    ok (lit "alter table " ++ sanitize_table_name pgx table_name ++ lit " add column " ++ fields)
