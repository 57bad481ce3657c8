-- ===== src/Types/Columns.antt =====
-- pkg/database/types/column.go and table.go
use schemahero.Base.{Bool, true, false, Option, none, some}
use schemahero.Base.Text.{Text}
use schemahero.Base.Result.{Result, ok}
use schemahero.Schema.Postgresql.{
  PostgresqlTableColumnConstraints, PostgresqlTableColumnAttributes, PostgresqlTableColumn,
}
use schemahero.Schema.Sqlite.{
  SqliteTableColumnConstraints, SqliteTableColumn, RqliteTableColumnConstraints,
  RqliteTableColumnAttributes, RqliteTableColumn,
}
use schemahero.Schema.Mysql.{
  MysqlTableColumn, MysqlTableColumnConstraints, MysqlTableColumnAttributes,
}

pub record ColumnConstraints : Type 0 where
  pub not_null : Option Bool

pub record ColumnAttributes : Type 0 where
  pub auto_increment : Option Bool

-- BoolsEqual: nil and a pointer to false are the same
unfoldable pub bools_equal : Option Bool → Option Bool → Bool
bools_equal (some true) (some true) = true
bools_equal (some true) _ = false
bools_equal _ (some true) = false
bools_equal _ _ = true

pub record Column : Type 0 where
  pub name : Text
  pub data_type : Text
  pub column_default : Option Text
  pub constraints : Option ColumnConstraints
  pub attributes : Option ColumnAttributes
  pub is_array : Bool
  pub charset : Text
  pub collation : Text
  pub is_static : Bool

pub record Table : Type 0 where
  pub name : Text
  pub schema : Text
  pub charset : Text
  pub collation : Text

abbrev mysql_constraints : Option ColumnConstraints → Option MysqlTableColumnConstraints
mysql_constraints none = none
mysql_constraints (some c) = some (record { not_null = c.not_null })

abbrev mysql_attributes : Option ColumnAttributes → Option MysqlTableColumnAttributes
mysql_attributes none = none
mysql_attributes (some a) = some (record { auto_increment = a.auto_increment })

-- ColumnToMysqlSchemaColumn
unfoldable pub column_to_mysql_schema_column : Column → Result MysqlTableColumn
column_to_mysql_schema_column c = ok (record {
  name = c.name;
  type = c.data_type;
  constraints = mysql_constraints c.constraints;
  attributes = mysql_attributes c.attributes;
  default = c.column_default;
  charset = c.charset;
  collation = c.collation;
})

abbrev postgresql_constraints : Option ColumnConstraints → Option PostgresqlTableColumnConstraints
postgresql_constraints none = none
postgresql_constraints (some c) = some (record { not_null = c.not_null })

abbrev postgresql_attributes : Option ColumnAttributes → Option PostgresqlTableColumnAttributes
postgresql_attributes none = none
postgresql_attributes (some a) = some (record { auto_increment = a.auto_increment })

-- ColumnToPostgresqlSchemaColumn
unfoldable pub column_to_postgresql_schema_column : Column → Result PostgresqlTableColumn
column_to_postgresql_schema_column c = ok (record {
  name = c.name;
  type = c.data_type;
  constraints = postgresql_constraints c.constraints;
  attributes = postgresql_attributes c.attributes;
  default = c.column_default;
})

abbrev rqlite_constraints : Option ColumnConstraints → Option RqliteTableColumnConstraints
rqlite_constraints none = none
rqlite_constraints (some c) = some (record { not_null = c.not_null })

abbrev rqlite_attributes : Option ColumnAttributes → Option RqliteTableColumnAttributes
rqlite_attributes none = none
rqlite_attributes (some a) = some (record { auto_increment = a.auto_increment })

-- ColumnToRqliteSchemaColumn
unfoldable pub column_to_rqlite_schema_column : Column → Result RqliteTableColumn
column_to_rqlite_schema_column c = ok (record {
  name = c.name;
  type = c.data_type;
  constraints = rqlite_constraints c.constraints;
  attributes = rqlite_attributes c.attributes;
  default = c.column_default;
})

abbrev sqlite_constraints : Option ColumnConstraints → Option SqliteTableColumnConstraints
sqlite_constraints none = none
sqlite_constraints (some c) = some (record { not_null = c.not_null })

-- ColumnToSqliteSchemaColumn, which sets no attributes
unfoldable pub column_to_sqlite_schema_column : Column → Result SqliteTableColumn
column_to_sqlite_schema_column c = ok (record {
  name = c.name;
  type = c.data_type;
  constraints = sqlite_constraints c.constraints;
  attributes = none;
  default = c.column_default;
})
