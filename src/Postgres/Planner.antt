-- ===== src/Postgres/Planner.antt =====
-- The connection of the PostgreSQL plugin as pkg/database/database.go uses it: PlanTableSchema,
-- PlanViewSchema, PlanTypeSchema and DeployStatements of plugins/postgres/lib/connection.go with
-- PlanPostgresView and DeployPostgresStatements of deploy.go. Connect is a parameter, over the driver.
use schemahero.Base.{List, Option, none, some}
use schemahero.Base.Text.{Text, lit}
use schemahero.Base.Result.{Result, ok, err, failed, wrap, ◌>>=◌}
use schemahero.Schema.Cassandra.{CassandraDataTypeSchema}
use schemahero.Schema.SeedData.{SeedData}
use schemahero.Types.Names.{Digest}
use schemahero.Mysql.Deploy.Execute.{Executed, execute_statements}
use schemahero.Postgres.Names.{Pgx}
use schemahero.Postgres.Rows.{PostgresConnection}
use schemahero.Postgres.Deploy.{
  check_if_table_exists, plan_postgres_table, plan_postgres_table_seed_data_only,
}
use schemahero.Database.Plan.{
  AnyTableSchema, nil_schema, postgresql_schema, mysql_schema, timescaledb_schema, sqlite_schema,
  rqlite_schema, cassandra_schema, AnyViewSchema, Planner,
}

module _ (sha256 : Digest) (pgx : Pgx) (connect : Text → Result PostgresConnection) where
  abbrev wrong_schema : Result (List Text)
  wrong_schema = err (failed (lit "tableSchema must be *PostgresqlTableSchema"))

  -- PlanTableSchema; a nil pointer of the right type is read by PlanPostgresTable once it has looked for
  -- the table, and the caller sees the panic as an error of the plugin's process.
  unfoldable pub plan_table_schema :
      Text → Text → AnyTableSchema → Option SeedData → Result (List Text)
  unfolding check_if_table_exists
  plan_table_schema uri table_name nil_schema (some seed) =
      plan_postgres_table_seed_data_only sha256 pgx connect uri table_name (some seed)
  plan_table_schema uri table_name nil_schema none = wrong_schema
  plan_table_schema uri table_name (postgresql_schema (some schema)) seed =
      plan_postgres_table sha256 pgx connect uri table_name schema seed
  plan_table_schema uri table_name (postgresql_schema none) seed = do
    p ← wrap (lit "failed to connect to postgres") (connect uri)
    found ← wrap (lit "failed to check if table exists") (check_if_table_exists p table_name)
    err (failed (lit "nil pointer dereference"))
  plan_table_schema uri table_name (mysql_schema s) seed = wrong_schema
  plan_table_schema uri table_name (timescaledb_schema s) seed = wrong_schema
  plan_table_schema uri table_name (sqlite_schema s) seed = wrong_schema
  plan_table_schema uri table_name (rqlite_schema s) seed = wrong_schema
  plan_table_schema uri table_name (cassandra_schema s) seed = wrong_schema

-- PlanViewSchema, which passes no schema to PlanPostgresView
unfoldable pub plan_view_schema : Text → Text → AnyViewSchema → Result (List Text)
plan_view_schema uri view_name schema = err (failed (lit "not implemented"))

-- PlanTypeSchema
unfoldable pub plan_type_schema : Text → Text → Option CassandraDataTypeSchema → Result (List Text)
plan_type_schema uri type_name schema =
    err (failed (lit "type schemas are not yet implemented for PostgreSQL"))

-- The connection keeps its address, and each plan connects again.
abbrev pub postgres_planner : Digest → Pgx → (Text → Result PostgresConnection) → Planner Text
postgres_planner sha256 pgx connect = record {
  get_connection = λ driver uri. connect uri >>= (λ p. ok uri);
  plan_table_schema = plan_table_schema sha256 pgx connect;
  plan_view_schema = plan_view_schema;
  plan_type_schema = plan_type_schema;
}

module _ {ℓ} {S : Type ℓ} where
  -- DeployPostgresStatements; the loop over the statements is that of the MySQL plugin, and `connect`
  -- gives the server's state or an error.
  unfoldable pub deploy_postgres_statements :
      (Text → S → Executed S) → Result S → List Text → Result (Executed S)
  unfolding execute_statements
  deploy_postgres_statements exec connected statements =
      connected >>= (λ s. ok (execute_statements exec statements s))
