-- ===== src/Types/Indexes/Conversions.antt =====
-- The conversions of pkg/database/types/index.go between `Index` and the declared indexes.
pub mod RoundTrip
use schemahero.Base.{Bool, List, [], ◌∷◌, map}
use schemahero.Base.Text.{Text}
use schemahero.Schema.Mysql.{MysqlTableIndex}
use schemahero.Schema.Dialects.{
  PostgresqlTableIndex, PostgresqlTableIndexColumn, RqliteTableIndex, SqliteTableIndex,
}
use schemahero.Types.Indexes.{Index, IndexColumn}

-- An index with columns, a name and uniqueness, and Go's zero values elsewhere.
abbrev plain_index : List Text → Text → Bool → Index
plain_index columns name is_unique = record {
  columns = columns;
  name = name;
  is_unique = is_unique;
  parameters = [];
  type = [];
  condition = [];
  expressions = [];
  sorted_columns = [];
}

unfoldable pub index_to_mysql_schema_index : Index → MysqlTableIndex
index_to_mysql_schema_index i = record {
  columns = i.columns;
  name = i.name;
  is_unique = i.is_unique;
  type = [];
}

abbrev pub to_schema_column : IndexColumn → PostgresqlTableIndexColumn
to_schema_column c = record {
  column = c.column;
  op_class = c.op_class;
  sort = c.sort;
  nulls = c.nulls;
}

abbrev pub of_schema_column : PostgresqlTableIndexColumn → IndexColumn
of_schema_column c = record {
  column = c.column;
  op_class = c.op_class;
  sort = c.sort;
  nulls = c.nulls;
}

unfoldable pub index_to_postgresql_schema_index : Index → PostgresqlTableIndex
index_to_postgresql_schema_index i = record {
  columns = i.columns;
  name = i.name;
  is_unique = i.is_unique;
  type = i.type;
  parameters = i.parameters;
  condition = i.condition;
  expressions = i.expressions;
  sorted_columns = map to_schema_column i.sorted_columns;
}

unfoldable pub index_to_rqlite_schema_index : Index → RqliteTableIndex
index_to_rqlite_schema_index i = record {
  columns = i.columns;
  name = i.name;
  is_unique = i.is_unique;
  type = [];
}

unfoldable pub index_to_sqlite_schema_index : Index → SqliteTableIndex
index_to_sqlite_schema_index i = record {
  columns = i.columns;
  name = i.name;
  is_unique = i.is_unique;
  type = [];
}

unfoldable pub mysql_schema_index_to_index : MysqlTableIndex → Index
mysql_schema_index_to_index i = plain_index i.columns i.name i.is_unique

-- The bare names, where only sorted columns are given.
abbrev pub columns_or_sorted : List Text → List IndexColumn → List Text
columns_or_sorted [] sorted = map (λ c. c.column) sorted
columns_or_sorted (c ∷ r) sorted = c ∷ r

unfoldable pub postgresql_schema_index_to_index : PostgresqlTableIndex → Index
postgresql_schema_index_to_index i =
    let sorted = map of_schema_column i.sorted_columns in
    record {
      columns = columns_or_sorted i.columns sorted;
      name = i.name;
      is_unique = i.is_unique;
      parameters = i.parameters;
      type = i.type;
      condition = i.condition;
      expressions = i.expressions;
      sorted_columns = sorted;
    }

unfoldable pub sqlite_schema_index_to_index : SqliteTableIndex → Index
sqlite_schema_index_to_index i = plain_index i.columns i.name i.is_unique

unfoldable pub rqlite_schema_index_to_index : RqliteTableIndex → Index
rqlite_schema_index_to_index i = plain_index i.columns i.name i.is_unique
