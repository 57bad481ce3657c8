-- ===== src/Mysql/Connection.antt =====
-- plugins/mysql/lib/tables.go: what the planner reads of a table. The server that answers the queries
-- on information_schema is a parameter: its answers, each of which may be an error, for the database
-- that the connection names.
use schemahero.Base.{
  ℕ, Bool, true, false, not, List, [], ◌∷◌, ◌++◌, map, Option, none, some, if◌then◌else◌, any,
}
use schemahero.Base.Text.{Text, lit, ◌==◌, split, contains}
use schemahero.Base.Text.Number.{itoa}
use schemahero.Base.Result.{Result, ok, wrap, ◌>>=◌}
use schemahero.Types.Columns.{Column, Table}
use schemahero.Types.Keys.{KeyConstraint}
use schemahero.Types.Indexes.{Index}
use schemahero.Types.ForeignKeys.{ForeignKey}

pub record TableRow : Type 0 where
  pub name : Text
  pub collation : Text
  pub charset : Text

-- COLUMN_NAME, COLUMN_DEFAULT, IS_NULLABLE, EXTRA, COLUMN_TYPE, CHARACTER_MAXIMUM_LENGTH,
-- CHARACTER_SET_NAME, COLLATION_NAME
pub record ColumnRow : Type 0 where
  pub name : Text
  pub default : Option Text
  pub is_nullable : Text
  pub extra : Text
  pub column_type : Text
  pub max_length : Option ℕ
  pub charset : Option Text
  pub collation : Option Text

-- The row of GetTableSchema: DATA_TYPE, and the precision and scale of a number.
pub record SchemaRow : Type 0 where
  pub name : Text
  pub default : Option Text
  pub is_nullable : Text
  pub extra : Text
  pub data_type : Text
  pub max_length : Option ℕ
  pub numeric_precision : Option ℕ
  pub numeric_scale : Option ℕ

pub record IndexRow : Type 0 where
  pub name : Text
  pub non_unique : Bool
  pub columns : Text

pub record ForeignKeyRow : Type 0 where
  pub child_column : Text
  pub name : Text
  pub parent_table : Text
  pub parent_column : Text
  pub delete_rule : Text

pub record KeyRow : Type 0 where
  pub constraint_name : Text
  pub column_name : Text

-- The answers of the server, by the name of the table.
pub record MysqlConnection : Type 0 where
  pub table_count : Text → Result ℕ
  pub database_charset : Result (Text × Text)
  pub table_charset : Text → Result (Option Text × Option Text)
  pub collation_charset : Text → Result Text
  pub table_rows : Result (List TableRow)
  pub column_rows : Text → Result (List ColumnRow)
  pub schema_rows : Text → Result (List SchemaRow)
  pub index_rows : Text → Result (List IndexRow)
  pub foreign_key_rows : Text → Result (List ForeignKeyRow)
  pub key_rows : Text → Result (List KeyRow)

-- ListTables
unfoldable pub list_tables : MysqlConnection → Result (List Table)
list_tables m = do
  database ←
      wrap (lit "failed to select database default charset and collection") m.database_charset
  rows ← wrap (lit "failed to query tables") m.table_rows
  ok (
      map
        (λ r. record {
          name = r.name;
          schema = [];
          charset = if r.charset == database.0 then [] else r.charset;
          collation = if r.collation == database.1 then [] else r.collation;
        })
        rows)

abbrev to_index : IndexRow → Index
to_index r = record {
  columns = split b',' r.columns;
  name = r.name;
  is_unique = not r.non_unique;
  parameters = [];
  type = [];
  condition = [];
  expressions = [];
  sorted_columns = [];
}

-- ListTableIndexes
unfoldable pub list_table_indexes : MysqlConnection → Text → Result (List Index)
list_table_indexes m table_name = do
  rows ← wrap (lit "failed to query indexes") (m.index_rows table_name)
  ok (map to_index rows)

-- One row of ListTableForeignKeys: a key that is known by its name gets the columns that the source
-- writes there, those of the row's own key with the row's column once more.
unfoldable pub add_foreign_key_row : List ForeignKey → ForeignKeyRow → List ForeignKey
add_foreign_key_row [] r =
    record {
      child_columns = r.child_column ∷ [];
      parent_table = r.parent_table;
      parent_columns = r.parent_column ∷ [];
      name = r.name;
      on_delete = r.delete_rule;
    }
    ∷ []
add_foreign_key_row (fk ∷ fks) r =
    let rest = add_foreign_key_row fks r in
    if fk.name == r.name
    then record fk {
      child_columns = r.child_column ∷ r.child_column ∷ [];
      parent_columns = r.parent_column ∷ r.parent_column ∷ [];
    }
      ∷ fks
    else fk ∷ rest

unfoldable pub foreign_keys_of_rows : List ForeignKey → List ForeignKeyRow → List ForeignKey
unfolding add_foreign_key_row
foreign_keys_of_rows found [] = found
foreign_keys_of_rows found (r ∷ rs) = foreign_keys_of_rows (add_foreign_key_row found r) rs

-- ListTableForeignKeys
unfoldable pub list_table_foreign_keys : MysqlConnection → Text → Result (List ForeignKey)
unfolding foreign_keys_of_rows
list_table_foreign_keys m table_name = do
  rows ← wrap (lit "failed to query foreign keys") (m.foreign_key_rows table_name)
  ok (foreign_keys_of_rows [] rows)

unfoldable pub key_from : KeyConstraint → List KeyRow → KeyConstraint
key_from k [] = k
key_from k (r ∷ rs) =
    key_from (record k { name = r.constraint_name; columns = k.columns ++ r.column_name ∷ [] }) rs

unfoldable pub key_of_rows : List KeyRow → Option KeyConstraint
unfolding key_from
key_of_rows [] = none
key_of_rows (r ∷ rs) =
    some (key_from (record { name = []; columns = []; is_primary = true }) (r ∷ rs))

-- GetTablePrimaryKey
unfoldable pub get_table_primary_key : MysqlConnection → Text → Result (Option KeyConstraint)
unfolding key_of_rows
get_table_primary_key m table_name = do
  rows ← wrap (lit "failed to query primary keys") (m.key_rows table_name)
  ok (key_of_rows rows)

-- The types whose length MySQL reports and the program leaves out.
unfoldable pub ignores_max_length : Text → Bool
ignores_max_length t =
    any (λ k. t == k)
      (lit "text"
        ∷ lit "tinytext"
        ∷ lit "mediumtext"
        ∷ lit "longtext"
        ∷ lit "blob"
        ∷ lit "tinyblob"
        ∷ lit "mediumblob"
        ∷ lit "longblob"
        ∷ [])

abbrev pub with_max_length : Text → Option ℕ → Text
with_max_length t none = t
with_max_length t (some n) = if ignores_max_length t then t else t ++ lit " (" ++ itoa n ++ lit ")"

abbrev with_numeric_size : Text → Option ℕ → Option ℕ → Text
with_numeric_size t (some precision) (some scale) =
    t ++ lit " (" ++ itoa precision ++ lit ", " ++ itoa scale ++ lit ")"
with_numeric_size t _ _ = t

-- GetTableSchema
unfoldable pub get_table_schema : MysqlConnection → Text → Result (List Column)
get_table_schema m table_name = do
  rows ← wrap (lit "failed to query table schema") (m.schema_rows table_name)
  ok (
      map
        (λ r. record {
          name = r.name;
          data_type =
              with_numeric_size (with_max_length r.data_type r.max_length) r.numeric_precision
                r.numeric_scale;
          column_default = r.default;
          constraints = some (record { not_null = some (r.is_nullable == lit "NO") });
          attributes =
              some (record { auto_increment = some (contains (lit "auto_increment") r.extra) });
          is_array = false;
          charset = [];
          collation = [];
          is_static = false;
        })
        rows)
