-- ===== src/Mysql/Planner.antt =====
-- The connection of the MySQL plugin as pkg/database/database.go uses it: PlanTableSchema,
-- PlanViewSchema and PlanTypeSchema of plugins/mysql/lib/connection.go. Connect is a parameter, over
-- the driver of the server.
use schemahero.Base.{List, Option, none, some}
use schemahero.Base.Text.{Text, lit}
use schemahero.Base.Result.{Result, ok, err, failed, ◌>>=◌}
use schemahero.Schema.Cassandra.{CassandraDataTypeSchema}
use schemahero.Schema.SeedData.{SeedData}
use schemahero.Mysql.Connection.{MysqlConnection}
use schemahero.Mysql.Deploy.{plan_mysql_table, plan_mysql_table_seed_data_only, plan_mysql_view}
use schemahero.Database.Plan.{
  AnyTableSchema, nil_schema, postgresql_schema, mysql_schema, timescaledb_schema, sqlite_schema,
  rqlite_schema, cassandra_schema, AnyViewSchema, plain_view, timescaledb_view, Planner,
}

module _ (connect : Text → Result MysqlConnection) where
  abbrev wrong_schema : Result (List Text)
  wrong_schema = err (failed (lit "tableSchema must be *MysqlTableSchema"))

  -- PlanTableSchema; a nil pointer of the right type is read by PlanMysqlTable, whose panic the caller
  -- sees as an error of the plugin's process.
  unfoldable pub plan_table_schema :
      Text → Text → AnyTableSchema → Option SeedData → Result (List Text)
  plan_table_schema uri table_name nil_schema (some seed) =
      plan_mysql_table_seed_data_only connect uri table_name (some seed)
  plan_table_schema uri table_name nil_schema none = wrong_schema
  plan_table_schema uri table_name (mysql_schema (some schema)) seed =
      plan_mysql_table connect uri table_name schema seed
  plan_table_schema uri table_name (mysql_schema none) seed =
      err (failed (lit "nil pointer dereference"))
  plan_table_schema uri table_name (postgresql_schema s) seed = wrong_schema
  plan_table_schema uri table_name (timescaledb_schema s) seed = wrong_schema
  plan_table_schema uri table_name (sqlite_schema s) seed = wrong_schema
  plan_table_schema uri table_name (rqlite_schema s) seed = wrong_schema
  plan_table_schema uri table_name (cassandra_schema s) seed = wrong_schema

-- PlanViewSchema
unfoldable pub plan_view_schema : Text → Text → AnyViewSchema → Result (List Text)
unfolding plan_mysql_view
plan_view_schema uri view_name (plain_view v) = plan_mysql_view uri view_name v
plan_view_schema uri view_name (timescaledb_view v) =
    err (failed (lit "viewSchema must be *NotImplementedViewSchema"))

-- PlanTypeSchema
unfoldable pub plan_type_schema : Text → Text → Option CassandraDataTypeSchema → Result (List Text)
plan_type_schema uri type_name schema = err (failed (lit "type schemas are not supported in MySQL"))

-- The connection keeps its address, and each plan connects again.
abbrev pub mysql_planner : (Text → Result MysqlConnection) → Planner Text
mysql_planner connect = record {
  get_connection = λ driver uri. connect uri >>= (λ m. ok uri);
  plan_table_schema = plan_table_schema connect;
  plan_view_schema = plan_view_schema;
  plan_type_schema = plan_type_schema;
}
