-- ===== src/Mysql/Deploy/Tests.antt =====
-- A table `users` of a small database, and each theorem on plans and their execution at it.
pub mod Keys
pub mod Servers
use mathlib.Core.List.Memᴰ
use schemahero.Base.{
  true, false, List, [], ◌∷◌, ◌++◌, Option, none, some, ◌≡◌, ◌≢◌, refl, arith, any, All, keep,
  length, beq, if◌then◌else◌, ◌↔◌, ◌⊎◌,
}
use schemahero.Base.Text.{
  Text, lit, ◌==◌, has_prefix, contains, replace_all, split, join, to_lower, to_upper, trim_space,
}
use schemahero.Base.Text.Number.{itoa, atoi}
use schemahero.Base.Regex.{regex, find_submatch, one_number, is_blank}
use schemahero.Base.Result.{ok, not_found}
use schemahero.Schema.Mysql.{
  MysqlTableSchema, MysqlTableColumn, MysqlTableColumnConstraints, MysqlTableIndex,
  MysqlTableForeignKey,
}
use schemahero.Types.Columns.{Column, bools_equal}
use schemahero.Types.Keys.{shape}
use schemahero.Types.Indexes.{Index, column_sets_equal, index_equals}
use schemahero.Types.ForeignKeys.{
  ForeignKey, foreign_key_equals, mysql_schema_foreign_key_to_foreign_key,
}
use schemahero.Mysql.Connection.{
  MysqlConnection, ColumnRow, ForeignKeyRow, foreign_keys_of_rows, list_table_foreign_keys,
  list_table_indexes, get_table_primary_key,
}
use schemahero.Types.Indexes.Conversions.{mysql_schema_index_to_index}
use schemahero.Types.Names.{generate_mysql_index_name, generate_mysql_fk_name}
use schemahero.Types.Canonical.{canonicalize_sql_expr}
use schemahero.Mysql.ColumnType.{
  number, sized, is_parameterized_column_type, maybe_parse_parameterized_column_type,
}
use schemahero.Mysql.ColumnType.Alias.{
  unalias_parameterized_column_type, unalias_unparameterized_column_type,
}
use schemahero.Mysql.ColumnType.Stable.{maybe_parse_parameterized_column_type_idem}
use schemahero.Mysql.Column.{column_data_type, schema_column_to_column}
use schemahero.Mysql.Alter.{defaults_equal, find_column, desired_column, columns_match}
use schemahero.Mysql.AlterStatements.{add_constraint_statement, drop_column_ddl}
use schemahero.Mysql.Constraints.{
  add_index_statement, remove_index_statement, add_foreign_key_statement,
  remove_foreign_key_statement,
}
use schemahero.Mysql.Deploy.{plan_connected}
use schemahero.Mysql.Deploy.Columns.{build_column_statements, row_statements}
use schemahero.Mysql.Deploy.Columns.Steady.{
  bools_equal_iff, columns_match_refl, column_plan_steady, undeclared_column_dropped,
}
use schemahero.Mysql.Deploy.Charset.{build_table_charset_and_collation_statements}
use schemahero.Mysql.Deploy.Charset.Converge.{charset_plan_steady}
use schemahero.Mysql.Deploy.Keys.{
  remove_primary_key_statements, add_primary_key_statements, statement_of, foreign_key_statements,
}
use schemahero.Mysql.Deploy.Keys.Converge.{primary_key_plan_exact}
use schemahero.Mysql.Deploy.Keys.ForeignKeys.{
  is_present, is_declared, foreign_key_plan_empty_iff, declared_foreign_key_dropped,
  replaced_foreign_key_dropped_twice, composite_foreign_key_never_present,
}
use schemahero.Mysql.Deploy.Keys.Exact.{foreign_key_plan_exact}
use schemahero.Mysql.Fixtures.{generate_fixtures, generate_fixtures-plan_iff}
use schemahero.Mysql.Deploy.Execute.{
  Executed, done, stopped, execute_statements, execute_statements-stopped,
}
use schemahero.Mysql.Deploy.Charset.{get_default_charset_and_collation_for_table}
use schemahero.Mysql.Deploy.Keys.{
  desired_primary_key, is_desired, is_current, name_indexes, remove_index_statements,
  add_index_statements,
}
use schemahero.Mysql.Deploy.Columns.{existing_column}
use schemahero.Mysql.Deploy.Columns.Steady.{Agrees}
use schemahero.Mysql.Deploy.Charset.Converge.{CharsetAgrees}
use schemahero.Mysql.Deploy.Steady.{InSync, plan_steady}

abbrev pub not_null : Option MysqlTableColumnConstraints
not_null = some (record { not_null = some true })

abbrev pub id_column : MysqlTableColumn
id_column = record {
  name = lit "id";
  type = lit "int (11)";
  constraints = not_null;
  attributes = none;
  default = none;
  charset = [];
  collation = [];
}

abbrev pub team_column : MysqlTableColumn
team_column = record {
  name = lit "team";
  type = lit "varchar (9)";
  constraints = none;
  attributes = none;
  default = some (lit "x");
  charset = [];
  collation = [];
}

abbrev pub team_index : MysqlTableIndex
team_index = record { columns = lit "team" ∷ []; name = []; is_unique = false; type = [] }

abbrev pub team_key : MysqlTableForeignKey
team_key = record {
  columns = lit "team" ∷ [];
  references = record { table = lit "teams"; columns = lit "id" ∷ [] };
  on_delete = [];
  name = [];
}

abbrev pub users : MysqlTableSchema
users = record {
  primary_key = lit "id" ∷ [];
  foreign_keys = team_key ∷ [];
  indexes = team_index ∷ [];
  columns = id_column ∷ team_column ∷ [];
  is_deleted = false;
  default_charset = [];
  collation = [];
}

abbrev pub id_row : ColumnRow
id_row = record {
  name = lit "id";
  default = none;
  is_nullable = lit "NO";
  extra = [];
  column_type = lit "int(11)";
  max_length = none;
  charset = none;
  collation = none;
}

abbrev pub team_row : ColumnRow
team_row = record {
  name = lit "team";
  default = some (lit "x");
  is_nullable = lit "YES";
  extra = [];
  column_type = lit "varchar(9)";
  max_length = some 9;
  charset = some (lit "utf8");
  collation = some (lit "general");
}

abbrev pub team_key_row : ForeignKeyRow
team_key_row = record {
  child_column = lit "team";
  name = lit "users_team_fkey";
  parent_table = lit "teams";
  parent_column = lit "id";
  delete_rule = lit "NO ACTION";
}

abbrev pub server : MysqlConnection
server = record {
  table_count = λ t. ok 1;
  database_charset = ok (lit "utf8", lit "general");
  table_charset = λ t. ok (some (lit "utf8"), some (lit "general"));
  collation_charset = λ c. ok (lit "utf8");
  table_rows = ok [];
  column_rows = λ t. ok (id_row ∷ team_row ∷ []);
  schema_rows = λ t. ok [];
  index_rows = λ t.
      ok (record { name = lit "idx_users_team"; non_unique = true; columns = lit "team" } ∷ []);
  foreign_key_rows = λ t. ok (team_key_row ∷ []);
  key_rows = λ t. ok (record { constraint_name = lit "PRIMARY"; column_name = lit "id" } ∷ []);
}

id_row-Agrees : Agrees (lit "id" ∷ []) users.columns (lit "utf8", lit "general") id_row
unfolding existing_column find_column desired_column schema_column_to_column columns_match
    column_data_type maybe_parse_parameterized_column_type lit ◌==◌ any has_prefix contains
    replace_all itoa atoi regex bools_equal is_parameterized_column_type
    unalias_parameterized_column_type unalias_unparameterized_column_type defaults_equal
id_row-Agrees = record {
  existing = _;
  read = refl;
  declared = id_column;
  found = refl;
  desired = _;
  valid = refl;
  matches = refl;
}

team_row-Agrees : Agrees (lit "id" ∷ []) users.columns (lit "utf8", lit "general") team_row
unfolding existing_column find_column desired_column schema_column_to_column columns_match
    column_data_type maybe_parse_parameterized_column_type lit ◌==◌ any has_prefix contains
    replace_all itoa atoi regex bools_equal is_parameterized_column_type
    unalias_parameterized_column_type unalias_unparameterized_column_type defaults_equal
team_row-Agrees = record {
  existing = _;
  read = refl;
  declared = team_column;
  found = refl;
  desired = _;
  valid = refl;
  matches = refl;
}

pub users-InSync : InSync server (lit "users") users
unfolding lit any ◌==◌ list_table_indexes get_table_primary_key list_table_foreign_keys
    desired_primary_key is_desired is_current name_indexes index_equals foreign_key_equals
    mysql_schema_index_to_index mysql_schema_foreign_key_to_foreign_key generate_mysql_index_name
    join split get_default_charset_and_collation_for_table to_lower to_upper trim_space
    canonicalize_sql_expr
users-InSync = record {
  charset = lit "utf8";
  collation = lit "general";
  database = (lit "utf8", lit "general");
  defaults = (lit "utf8", lit "general");
  rows = id_row ∷ team_row ∷ [];
  key = _;
  indexes = _;
  foreign_keys = _;
  table_read = refl;
  database_read = refl;
  charset_agrees = CharsetAgrees.inherited refl refl refl;
  key_read = refl;
  key_agrees = refl;
  indexes_read = refl;
  indexes_declared = (refl, tt);
  indexes_present = (refl, tt);
  defaults_read = refl;
  rows_read = refl;
  columns_agree = (id_row-Agrees, (team_row-Agrees, tt));
  columns_present = (refl, (refl, tt));
  foreign_keys_read = refl;
  foreign_keys_present = (refl, tt);
  foreign_keys_declared = (refl, tt);
}

plan_steady_example : plan_connected server (lit "users") users none 1 ≡ ok []
plan_steady_example = plan_steady server (lit "users") users 1 users-InSync (omega arith) refl

-- A server that logs what it executes and refuses the statements of three bytes.
abbrev bad : Text
bad = 98 ∷ 97 ∷ 100 ∷ []

abbrev log_server : Text → List Text → Executed (List Text)
log_server t log = if beq (length t) 3 then stopped not_found log else done (t ∷ log)

execute_statements-stopped_example :
    (before : List Text) × (statement : Text) × (after : List Text) × (u : List Text) × (lit "a"
        ∷ bad
        ∷ lit "b"
        ∷ []
      ≡ before ++ statement ∷ after)
    × (execute_statements log_server before [] ≡ done u)
    × (statement ≢ [])
    × (log_server statement u ≡ stopped not_found (lit "a" ∷ []))
unfolding lit execute_statements
execute_statements-stopped_example =
    execute_statements-stopped log_server (lit "a" ∷ bad ∷ lit "b" ∷ []) [] not_found (lit "a" ∷ [])
      refl

abbrev id_read : Column
id_read = record {
  name = lit "id";
  data_type = lit "int (11)";
  column_default = some (lit "1");
  constraints = some (record { not_null = some true });
  attributes = none;
  is_array = false;
  charset = [];
  collation = lit "general";
  is_static = false;
}

maybe_parse_parameterized_column_type_idem_example :
    maybe_parse_parameterized_column_type (lit "varchar (255)") ≡ ok (lit "varchar (255)")
unfolding maybe_parse_parameterized_column_type has_prefix sized number find_submatch one_number
    is_blank lit itoa atoi
maybe_parse_parameterized_column_type_idem_example =
    maybe_parse_parameterized_column_type_idem (lit "varchar") (lit "(255)") (lit "varchar (255)")
      (Memᴰ.head refl) refl

generate_fixtures-plan_iff_example :
    (generate_fixtures (lit "users") (some users) none ≡ ok (lit "x" ∷ []))
    ↔ (plan_connected server (lit "users") users none 0 ≡ ok (lit "x" ∷ []))
generate_fixtures-plan_iff_example =
    generate_fixtures-plan_iff server (lit "users") users none (lit "x" ∷ [])
