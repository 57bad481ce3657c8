-- ===== src/Database/Plan.antt =====
-- The planners of pkg/database/database.go: which schema of a declaration goes to the plugin of the
-- driver. The plugin's connection and the decoding of YAML and of Kubernetes objects are parameters.
use schemahero.Base.{Bool, ◌||◌, List, [], ◌∷◌, ◌++◌, Option, none, some, any, if◌then◌else◌}
use schemahero.Base.Text.{Text, lit, ◌==◌}
use schemahero.Base.Result.{Result, ok, err, failed, wrap, ◌>>=◌}
use schemahero.Schema.Mysql.{MysqlTableSchema}
use schemahero.Schema.Postgresql.{PostgresqlTableSchema}
use schemahero.Schema.Sqlite.{SqliteTableSchema, RqliteTableSchema}
use schemahero.Schema.Cassandra.{CassandraTableSchema, CassandraDataTypeSchema}
use schemahero.Schema.Timescaledb.{TimescaleDbTableSchema, TimescaleDbViewSchema}
use schemahero.Schema.SeedData.{SeedData}
use schemahero.Schema.Table.{
  TableSchema, TableSpec, ViewSchema, ViewSpec, NotImplementedViewSchema, DataTypeSpec,
}
use schemahero.Mysql.AlterStatements.{quote}

-- The `interface{}` that a table's schema is passed in: nothing, or a pointer with its type, which may
-- be nil with the interface itself not nil.
pub data AnyTableSchema : Type 0 where
  nil_schema : AnyTableSchema
  postgresql_schema : Option PostgresqlTableSchema → AnyTableSchema
  mysql_schema : Option MysqlTableSchema → AnyTableSchema
  timescaledb_schema : Option TimescaleDbTableSchema → AnyTableSchema
  sqlite_schema : Option SqliteTableSchema → AnyTableSchema
  rqlite_schema : Option RqliteTableSchema → AnyTableSchema
  cassandra_schema : Option CassandraTableSchema → AnyTableSchema

pub data AnyViewSchema : Type 0 where
  plain_view : Option NotImplementedViewSchema → AnyViewSchema
  timescaledb_view : Option TimescaleDbViewSchema → AnyViewSchema

-- What a plugin's connection offers; it is opened on a driver and an address.
pub record Planner (Connection : Type 0) : Type 0 where
  pub get_connection : Text → Text → Result Connection
  pub plan_table_schema : Connection → Text → AnyTableSchema → Option SeedData → Result (List Text)
  pub plan_view_schema : Connection → Text → AnyViewSchema → Result (List Text)
  pub plan_type_schema : Connection → Text → Option CassandraDataTypeSchema → Result (List Text)

-- The fields of the struct Database that planning reads.
pub record Target : Type 0 where
  pub driver : Text
  pub uri : Text
  pub deploy_seed_data : Bool

unfoldable pub is_planned_driver : Text → Bool
unfolding any
is_planned_driver driver =
    any (λ k. driver == k)
      (lit "postgres"
        ∷ lit "cockroachdb"
        ∷ lit "mysql"
        ∷ lit "timescaledb"
        ∷ lit "sqlite"
        ∷ lit "sqlite3"
        ∷ lit "rqlite"
        ∷ lit "cassandra"
        ∷ [])

-- The switch over the driver
unfoldable pub schema_for : Text → TableSchema → AnyTableSchema
schema_for driver s =
    if driver == lit "postgres"
    then postgresql_schema s.postgres
    else if driver == lit "cockroachdb"
    then postgresql_schema s.cockroachdb
    else if driver == lit "mysql"
    then mysql_schema s.mysql
    else if driver == lit "timescaledb"
    then timescaledb_schema s.timescaledb
    else if driver == lit "sqlite" || driver == lit "sqlite3"
    then sqlite_schema s.sqlite
    else if driver == lit "rqlite"
    then rqlite_schema s.rqlite
    else if driver == lit "cassandra"
    then cassandra_schema s.cassandra
    else nil_schema

module _ {Connection : Type 0} (planner : Planner Connection) (d : Target) where
  abbrev connect : Result Connection
  connect = wrap (lit "failed to get database connection") (planner.get_connection d.driver d.uri)

  abbrev unknown_driver : Result (List Text)
  unknown_driver = err (failed (lit "unknown database driver: " ++ quote d.driver))

  abbrev seed_data_plan : TableSpec → Option SeedData → Result (List Text)
  seed_data_plan spec none = ok []
  seed_data_plan spec (some seed) =
      if is_planned_driver d.driver
      then (do conn ← connect; planner.plan_table_schema conn spec.name nil_schema (some seed))
      else unknown_driver

  -- PlanSyncSeedData
  unfoldable pub plan_sync_seed_data : TableSpec → Result (List Text)
  unfolding is_planned_driver
  plan_sync_seed_data spec = seed_data_plan spec spec.seed_data

  abbrev schema_plan : TableSpec → Option TableSchema → Result (List Text)
  schema_plan spec none = if d.deploy_seed_data then plan_sync_seed_data spec else ok []
  schema_plan spec (some schema) =
      let seed = if d.deploy_seed_data then spec.seed_data else none in
      if is_planned_driver d.driver
      then (do
        conn ← connect
        planner.plan_table_schema conn spec.name (schema_for d.driver schema) seed)
      else unknown_driver

  -- PlanSyncTableSpec; without seed data PlanSyncSeedData returns nothing, as the code here does.
  unfoldable pub plan_sync_table_spec : TableSpec → Result (List Text)
  unfolding is_planned_driver schema_for plan_sync_seed_data
  plan_sync_table_spec spec = schema_plan spec spec.schema

  -- The PostgreSQL branch: the comparison of the interface with nil holds for no typed pointer.
  abbrev view_schema_for : ViewSchema → AnyViewSchema
  view_schema_for s =
      if d.driver == lit "postgres" || d.driver == lit "cockroachdb"
      then plain_view s.postgres
      else timescaledb_view s.timescaledb

  abbrev mysql_view_plan :
      ViewSpec → Connection → Option NotImplementedViewSchema → Result (List Text)
  mysql_view_plan spec conn none = ok []
  mysql_view_plan spec conn (some v) = planner.plan_view_schema conn spec.name (plain_view (some v))

  abbrev view_plan : ViewSpec → Option ViewSchema → Result (List Text)
  view_plan spec none = ok []
  view_plan spec (some s) =
      if d.driver == lit "postgres"
        || d.driver == lit "cockroachdb"
        || d.driver == lit "timescaledb"
      then (do conn ← connect; planner.plan_view_schema conn spec.name (view_schema_for s))
      else if d.driver == lit "mysql"
      then (do conn ← connect; mysql_view_plan spec conn s.mysql)
      else err (failed (lit "driver " ++ d.driver ++ lit " does not support views"))

  -- PlanSyncViewSpec
  unfoldable pub plan_sync_view_spec : ViewSpec → Result (List Text)
  plan_sync_view_spec spec = view_plan spec spec.schema

  -- PlanSyncTypeSpec
  unfoldable pub plan_sync_type_spec : DataTypeSpec → Result (List Text)
  plan_sync_type_spec spec = elim spec.schema [
    | none ↦ ok []
    | some s ↦
        if d.driver == lit "cassandra"
        then (do conn ← connect; planner.plan_type_schema conn spec.name s.cassandra)
        else err (failed (lit "planning types is not supported for driver " ++ quote d.driver))
  ]
