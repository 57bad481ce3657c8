-- ===== src/Postgres/Rows.antt =====
-- What a PostgreSQL server answers to the queries of plugins/postgres/lib, and a connection to it.
use schemahero.Base.{ℕ, Bool, List, Option}
use schemahero.Base.Maps.{TextMap}
use schemahero.Base.Text.{Text}
use schemahero.Base.Result.{Result}
use schemahero.Mysql.Connection.{KeyRow}

-- information_schema.columns; udt_name is read by the planner only
pub record ColumnRow : Type 0 where
  pub name : Text
  pub default : Option Text
  pub is_nullable : Text
  pub data_type : Text
  pub udt_name : Text
  pub max_length : Option ℕ

pub record IndexRow : Type 0 where
  pub name : Text
  pub method : Text
  pub is_unique : Bool
  pub columns : List Text
  pub parameters : TextMap Text
  pub predicate : Option Text
  pub definition : Text

pub record ForeignKeyRow : Type 0 where
  pub child_column : Text
  pub parent_table : Text
  pub parent_column : Text
  pub delete_rule : Text
  pub name : Text
  pub parent_schema : Text

-- A constraint or a trigger with its definition
pub record DefinitionRow : Type 0 where
  pub name : Text
  pub definition : Text

pub record PolicyRow : Type 0 where
  pub name : Text
  pub command : Text
  pub permissive : Bool
  pub using : Option Text
  pub with_check : Option Text
  pub roles : List Text

-- The connection: the schemas that it reads, its own one, and the answers of the server, by schema and
-- table or by the name that the query is given.
pub record PostgresConnection : Type 0 where
  pub schemas : List Text
  pub schema : Text
  pub table_names : Text → Result (List Text)
  pub table_count : Text → Text → Result ℕ
  pub column_rows : Text → Text → Result (List ColumnRow)
  pub schema_rows : Text → Text → Result (List ColumnRow)
  pub constraint_names : Text → Text → Result (List Text)
  pub index_rows : Text → Result (List IndexRow)
  pub foreign_key_rows : Text → Text → Result (List ForeignKeyRow)
  pub check_rows : Text → Text → Result (List DefinitionRow)
  pub exclusion_rows : Text → Text → Result (List DefinitionRow)
  pub trigger_rows : Text → Text → Result (List DefinitionRow)
  pub key_rows : Text → Text → Result (List KeyRow)
  -- none where there is no such table
  pub row_security : Text → Text → Result (Option (Bool × Bool))
  pub policy_rows : Text → Text → Result (List PolicyRow)
  pub extension_count : Text → Result ℕ
  -- by the signature of the function; none where there is none
  pub function_definition : Text → Result (Option Text)
