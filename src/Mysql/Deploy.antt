-- ===== src/Mysql/Deploy.antt =====
-- plugins/mysql/lib/deploy.go: the plan for a table, from its declaration and the connection. The
-- functions stand in the order of a plan; `Columns` and `Keys` hold its parts.
pub mod Charset
pub mod Columns
pub mod Keys
pub mod Execute
pub mod Steady
pub mod Tests
use Prim.Native.Nat.{zero, suc}
use schemahero.Base.{
  ℕ, Bool, true, false, List, [], ◌∷◌, ◌++◌, Option, none, some, if◌then◌else◌, beq,
}
use schemahero.Base.Text.{Text, lit}
use schemahero.Base.Result.{Result, ok, err, failed, wrap, ◌>>=◌}
use schemahero.Schema.Mysql.{MysqlTableSchema}
use schemahero.Schema.SeedData.{SeedData}
use schemahero.Mysql.Create.{seed_data_statements, create_table_statements}
use schemahero.Mysql.Connection.{MysqlConnection}
use Charset.{build_table_charset_and_collation_statements}
use Columns.{build_column_statements}
use Keys.{
  build_remove_primary_key_statements, build_add_primary_key_statements,
  build_foreign_key_statements, build_remove_index_statements, build_add_index_statements,
}

-- PlanMysqlView
unfoldable pub plan_mysql_view {ℓ} : {V : Type ℓ} → Text → Text → V → Result (List Text)
plan_mysql_view uri view_name schema = err (failed (lit "not implemented"))

unfoldable pub drop_table_statement : Text → Text
drop_table_statement table_name = lit "drop table `" ++ table_name ++ lit "`"

unfoldable pub seed_statements : Text → Option SeedData → Result (List Text)
seed_statements table_name none = ok []
seed_statements table_name (some seed) =
    wrap (lit "create seed data statements") (seed_data_statements table_name seed)

-- The statements for a table that exists, without the seed data.
unfoldable pub alter_table_statements :
    MysqlConnection → Text → MysqlTableSchema → Result (List Text)
alter_table_statements m table_name declared = do
  (charset, schema) ←
      wrap (lit "failed to build table charset and collation statements")
        (build_table_charset_and_collation_statements m table_name declared)
  removed_key ←
      wrap (lit "failed to build remove primary key statements")
        (build_remove_primary_key_statements m table_name schema)
  (removed_indexes, named) ←
      wrap (lit "failed to build remove index statements")
        (build_remove_index_statements m table_name schema)
  columns ←
      wrap (lit "failed to build column statements") (build_column_statements m table_name named)
  added_key ←
      wrap (lit "failed to build add primary key statements")
        (build_add_primary_key_statements m table_name named)
  foreign_keys ←
      wrap (lit "failed to build foreign key statements")
        (build_foreign_key_statements m table_name named)
  added_indexes ←
      wrap (lit "failed to build add index statements")
        (build_add_index_statements m table_name named)
  ok (
      charset ++ removed_key ++ removed_indexes ++ columns ++ added_key ++ foreign_keys
      ++ added_indexes)

-- PlanMysqlTable, behind the connection and the count of tables of this name.
unfoldable pub plan_connected :
    MysqlConnection → Text → MysqlTableSchema → Option SeedData → ℕ → Result (List Text)
unfolding seed_statements
plan_connected m table_name schema seed count =
    if schema.is_deleted
    then ok (if beq count 0 then [] else drop_table_statement table_name ∷ [])
    else do
      seeded ← seed_statements table_name seed
      statements ←
          if beq count 0
          then wrap (lit "failed to create table statement")
              (create_table_statements table_name schema)
          else alter_table_statements m table_name schema
      ok (statements ++ seeded)

module _ (connect : Text → Result MysqlConnection) where
  -- PlanMysqlTable; `connect` is Connect of connection.go, over the driver
  unfoldable pub plan_mysql_table :
      Text → Text → MysqlTableSchema → Option SeedData → Result (List Text)
  unfolding plan_connected
  plan_mysql_table uri table_name schema seed = do
    m ← wrap (lit "failed to connect to mysql") (connect uri)
    count ← wrap (lit "failed to scan") (m.table_count table_name)
    plan_connected m table_name schema seed count

  -- PlanMysqlTableSeedDataOnly
  unfoldable pub plan_mysql_table_seed_data_only :
      Text → Text → Option SeedData → Result (List Text)
  plan_mysql_table_seed_data_only uri table_name none = ok []
  plan_mysql_table_seed_data_only uri table_name (some seed) = do
    m ← wrap (lit "failed to connect to mysql") (connect uri)
    count ← wrap (lit "failed to check if table exists") (m.table_count table_name)
    if beq count 0
        then err (
            failed (
              lit "table "
              ++ table_name
              ++ lit " does not exist, cannot apply seed data without schema"))
        else wrap (lit "failed to create seed data statements")
            (seed_data_statements table_name seed)
