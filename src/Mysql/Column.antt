-- ===== src/Mysql/Column.antt =====
-- plugins/mysql/lib/column.go
use schemahero.Base.{Bool, true, false, not, ◌&&◌, ◌||◌, ◌++◌, Option, none, some, if◌then◌else◌}
use schemahero.Base.Text.{Text, lit, ◌==◌, is_empty}
use schemahero.Base.Result.{Result, ok, err, failed, ◌>>=◌}
use schemahero.Schema.Mysql.{
  MysqlTableColumn, MysqlTableColumnConstraints, MysqlTableColumnAttributes,
}
use schemahero.Types.Columns.{Column, ColumnConstraints, ColumnAttributes}
use schemahero.Mysql.ColumnType.{
  is_parameterized_column_type, maybe_parse_parameterized_column_type,
}
use schemahero.Mysql.ColumnType.Alias.{
  unalias_unparameterized_column_type, unalias_parameterized_column_type,
}

abbrev pub column_constraints : Option MysqlTableColumnConstraints → Option ColumnConstraints
column_constraints none = none
column_constraints (some c) = some (record { not_null = c.not_null })

abbrev pub column_attributes : Option MysqlTableColumnAttributes → Option ColumnAttributes
column_attributes none = none
column_attributes (some a) = some (record { auto_increment = a.auto_increment })

abbrev if_set : Text → Text → Text
if_set unaliased requested = if is_empty unaliased then requested else unaliased

-- The requested type with its aliases replaced.
unfoldable pub unaliased_type : Text → Text
unaliased_type t =
    let plain = if_set (unalias_unparameterized_column_type t) t in
    if_set (unalias_parameterized_column_type plain) plain

-- The type that a column is compared and created with.
unfoldable pub column_data_type : Text → Result Text
unfolding unaliased_type
column_data_type t =
    let requested = unaliased_type t in
    if not (is_parameterized_column_type requested) then ok requested else do
      column_type ← maybe_parse_parameterized_column_type requested
      if is_empty column_type
          then err
              (failed (lit "unknown column type. cannot validate column type \"" ++ t ++ lit "\""))
          else ok column_type

-- schemaColumnToColumn
unfoldable pub schema_column_to_column : MysqlTableColumn → Result Column
schema_column_to_column c = do
  data_type ← column_data_type c.type
  ok (record {
    name = c.name;
    data_type = data_type;
    column_default = c.default;
    constraints = column_constraints c.constraints;
    attributes = column_attributes c.attributes;
    is_array = false;
    charset = c.charset;
    collation = c.collation;
    is_static = false;
  })

abbrev pub not_null_of : Column → Option Bool
not_null_of c = elim c.constraints [ none ↦ none | some k ↦ k.not_null ]

abbrev pub auto_increment_of : Column → Option Bool
auto_increment_of c = elim c.attributes [ none ↦ none | some a ↦ a.auto_increment ]

abbrev nullability : Option Bool → Text
nullability none = lit ""
nullability (some true) = lit " not null"
nullability (some false) = lit " null"

abbrev increment : Option Bool → Text
increment (some true) = lit " auto_increment"
increment _ = lit ""

-- The default value is quoted, but for CURRENT_TIMESTAMP on a point in time.
default_clause : Text → Option Text → Text
default_clause data_type none = lit ""
default_clause data_type (some value) =
    if (data_type == lit "datetime" || data_type == lit "timestamp")
      && value == lit "CURRENT_TIMESTAMP"
    then lit " default " ++ value
    else lit " default '" ++ value ++ lit "'"

abbrev clause_if_set : Text → Text → Text
clause_if_set keyword value = if is_empty value then lit "" else keyword ++ value

-- mysqlColumnAsInsert
unfoldable pub mysql_column_as_insert : MysqlTableColumn → Result Text
unfolding default_clause
mysql_column_as_insert column = do
  c ← schema_column_to_column column
  ok (
      lit "`"
      ++ column.name
      ++ lit "` "
      ++ c.data_type
      ++ clause_if_set (lit " character set ") c.charset
      ++ clause_if_set (lit " collate ") c.collation
      ++ nullability (not_null_of c)
      ++ increment (auto_increment_of c)
      ++ default_clause c.data_type c.column_default)

-- InsertColumnStatement
unfoldable pub insert_column_statement : Text → MysqlTableColumn → Result Text
insert_column_statement table_name column = do
  fields ← mysql_column_as_insert column
  ok (lit "alter table `" ++ table_name ++ lit "` add column " ++ fields)
