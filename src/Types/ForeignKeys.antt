-- ===== src/Types/ForeignKeys.antt =====
-- pkg/database/types/foreignkey.go, without the name generators
use schemahero.Base.{Bool, ◌&&◌, ◌||◌, List, ◌++◌, if◌then◌else◌}
use schemahero.Base.Text.{Text, lit, ◌==◌, is_empty, to_upper, trim_space, contains}
use schemahero.Schema.Mysql.{MysqlTableForeignKey}
use schemahero.Schema.Dialects.{
  PostgresqlTableForeignKey, RqliteTableForeignKey, SqliteTableForeignKey,
}
use schemahero.Types.Indexes.{column_sets_equal}

pub record ForeignKey : Type 0 where
  pub child_columns : List Text
  pub parent_table : Text
  pub parent_columns : List Text
  pub name : Text
  pub on_delete : Text

-- normalizeOnDelete
unfoldable pub normalize_on_delete : Text → Text
normalize_on_delete s =
    let up = to_upper (trim_space s) in if up == lit "NO ACTION" || is_empty up then lit "" else up

-- onDeleteEquals; strings.EqualFold compares the upper cases
unfoldable pub on_delete_equals : Text → Text → Bool
unfolding normalize_on_delete
on_delete_equals a b = to_upper (normalize_on_delete a) == to_upper (normalize_on_delete b)

-- ForeignKey.Equals
unfoldable pub foreign_key_equals : ForeignKey → ForeignKey → Bool
unfolding on_delete_equals
foreign_key_equals fk other =
    (is_empty fk.name || is_empty other.name || fk.name == other.name)
    && (fk.parent_table == other.parent_table)
    && on_delete_equals fk.on_delete other.on_delete
    && column_sets_equal fk.child_columns other.child_columns
    && column_sets_equal fk.parent_columns other.parent_columns

unfoldable pub foreign_key_to_mysql_schema_foreign_key : ForeignKey → MysqlTableForeignKey
foreign_key_to_mysql_schema_foreign_key fk = record {
  columns = fk.child_columns;
  references = record { table = fk.parent_table; columns = fk.parent_columns };
  on_delete = fk.on_delete;
  name = fk.name;
}

unfoldable pub foreign_key_to_postgresql_schema_foreign_key : ForeignKey → PostgresqlTableForeignKey
foreign_key_to_postgresql_schema_foreign_key fk = record {
  columns = fk.child_columns;
  references = record { table = fk.parent_table; columns = fk.parent_columns };
  on_delete = fk.on_delete;
  name = fk.name;
}

unfoldable pub foreign_key_to_rqlite_schema_foreign_key : ForeignKey → RqliteTableForeignKey
foreign_key_to_rqlite_schema_foreign_key fk = record {
  columns = fk.child_columns;
  references = record { table = fk.parent_table; columns = fk.parent_columns };
  on_delete = fk.on_delete;
  name = fk.name;
}

unfoldable pub foreign_key_to_sqlite_schema_foreign_key : ForeignKey → SqliteTableForeignKey
foreign_key_to_sqlite_schema_foreign_key fk = record {
  columns = fk.child_columns;
  references = record { table = fk.parent_table; columns = fk.parent_columns };
  on_delete = fk.on_delete;
  name = fk.name;
}

unfoldable pub mysql_schema_foreign_key_to_foreign_key : MysqlTableForeignKey → ForeignKey
mysql_schema_foreign_key_to_foreign_key fk = record {
  child_columns = fk.columns;
  parent_table = fk.references.table;
  parent_columns = fk.references.columns;
  name = fk.name;
  on_delete = fk.on_delete;
}

unfoldable pub postgresql_schema_foreign_key_to_foreign_key : PostgresqlTableForeignKey → ForeignKey
postgresql_schema_foreign_key_to_foreign_key fk = record {
  child_columns = fk.columns;
  parent_table = fk.references.table;
  parent_columns = fk.references.columns;
  name = fk.name;
  on_delete = fk.on_delete;
}

-- QualifyParentTableToSchema
unfoldable pub qualify_parent_table_to_schema : Text → Text → Text
qualify_parent_table_to_schema parent_table schema =
    if is_empty schema || contains (lit ".") parent_table
    then parent_table
    else schema ++ lit "." ++ parent_table

unfoldable pub sqlite_schema_foreign_key_to_foreign_key : SqliteTableForeignKey → ForeignKey
sqlite_schema_foreign_key_to_foreign_key fk = record {
  child_columns = fk.columns;
  parent_table = fk.references.table;
  parent_columns = fk.references.columns;
  name = fk.name;
  on_delete = fk.on_delete;
}

unfoldable pub rqlite_schema_foreign_key_to_foreign_key : RqliteTableForeignKey → ForeignKey
rqlite_schema_foreign_key_to_foreign_key fk = record {
  child_columns = fk.columns;
  parent_table = fk.references.table;
  parent_columns = fk.references.columns;
  name = fk.name;
  on_delete = fk.on_delete;
}
