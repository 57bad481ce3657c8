-- ===== src/Mysql/Deploy/Columns.antt =====
-- The column statements: an alteration or a drop of each column of the table, then an addition of
-- each declared column that the table lacks.
pub mod Steady
use schemahero.Base.{
  ℕ, Bool, true, false, not, ◌&&◌, ◌||◌, List, [], ◌∷◌, ◌++◌, map, Option, none, some,
  if◌then◌else◌, any,
}
use schemahero.Base.Text.{Text, lit, ◌==◌, contains}
use schemahero.Base.Text.Number.{itoa}
use schemahero.Base.Result.{Result, ok, wrap, ◌>>=◌, collect}
use schemahero.Schema.Mysql.{MysqlTableSchema, MysqlTableColumn}
use schemahero.Types.Columns.{Column}
use schemahero.Mysql.ColumnType.{
  is_parameterized_column_type, maybe_parse_parameterized_column_type,
}
use schemahero.Mysql.Column.{insert_column_statement}
use schemahero.Mysql.Alter.{alter_column_statements}
use schemahero.Mysql.Connection.{MysqlConnection, ColumnRow, ignores_max_length, with_max_length}
use schemahero.Mysql.Deploy.Charset.{get_default_charset_and_collation_for_table}

abbrev or_empty : Option Text → Text
or_empty none = []
or_empty (some s) = s

row_data_type : ColumnRow → Result Text
row_data_type r =
    if is_parameterized_column_type r.column_type
    then wrap (lit "failed to parse parameterized column type")
        (maybe_parse_parameterized_column_type r.column_type)
    else ok (with_max_length r.column_type r.max_length)

-- The column of the table that a row describes.
unfoldable pub existing_column : ColumnRow → Result Column
unfolding row_data_type
existing_column r = do
  data_type ← row_data_type r
  ok (record {
    name = r.name;
    data_type = data_type;
    column_default = r.default;
    constraints = some (record { not_null = some (r.is_nullable == lit "NO") });
    attributes = some (record { auto_increment = some (contains (lit "auto_increment") r.extra) });
    is_array = false;
    charset = or_empty r.charset;
    collation = or_empty r.collation;
    is_static = false;
  })

-- One round of the loop over the rows.
unfoldable pub row_statements :
    Text → MysqlTableSchema → Text × Text → ColumnRow → Result (List Text)
row_statements table_name schema defaults r = do
  existing ← existing_column r
  wrap (lit "failed to create alter column statement") (
      alter_column_statements table_name schema.primary_key schema.columns existing defaults.0
        defaults.1)

-- One round of the loop over the declared columns.
unfoldable pub missing_column_statements :
    Text → List ColumnRow → MysqlTableColumn → Result (List Text)
missing_column_statements table_name rows desired =
    if any (λ r. r.name == desired.name) rows then ok [] else do
      statement ←
          wrap (lit "failed to create insert column statement")
            (insert_column_statement table_name desired)
      ok (statement ∷ [])

-- buildColumnStatements
unfoldable pub build_column_statements :
    MysqlConnection → Text → MysqlTableSchema → Result (List Text)
build_column_statements m table_name schema = do
  defaults ←
      wrap (lit "get default charset and collation")
        (get_default_charset_and_collation_for_table m table_name)
  rows ← wrap (lit "failed to query from information_schema") (m.column_rows table_name)
  altered ← collect (row_statements table_name schema defaults) rows
  added ← collect (missing_column_statements table_name rows) schema.columns
  ok (altered ++ added)
