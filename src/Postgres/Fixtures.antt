-- ===== src/Postgres/Fixtures.antt =====
-- GenerateFixtures of plugins/postgres/lib/connection.go: the statements that create a table, without a
-- connection; and SeedDataStatementsWithExistingSchema of create.go, which has a connection but no
-- declaration.
pub mod Indexes
use schemahero.Base.{Bool, true, false, List, [], ◌++◌, Option, none, some, if◌then◌else◌}
use schemahero.Base.Text.{Text, lit}
use schemahero.Base.Result.{Result, ok, err, failed, wrap, ◌>>=◌}
use schemahero.Schema.Postgresql.{PostgresqlTableSchema}
use schemahero.Schema.SeedData.{SeedData}
use schemahero.Types.Names.{Digest}
use schemahero.Postgres.Names.{Pgx}
use schemahero.Postgres.Connection.{
  list_table_constraints, list_table_indexes, get_table_primary_key,
}
use schemahero.Postgres.Rows.{PostgresConnection}
use schemahero.Postgres.Keys.{build_index_statements}
use schemahero.Postgres.Create.{seed_data_statements, create_table_statements}
use schemahero.Postgres.Deploy.{check_if_table_exists, key_columns}

module _ (sha256 : Digest) (pgx : Pgx) where
  abbrev with_seed : Text → PostgresqlTableSchema → Option SeedData → List Text → Result (List Text)
  with_seed name schema none statements = ok statements
  with_seed name schema (some seed) statements = do
    seeded ←
        wrap (lit "failed to create seed data statements")
          (seed_data_statements sha256 pgx name schema.primary_key schema.indexes seed)
    ok (statements ++ seeded)

  -- GenerateFixtures, of a table whose schema for PostgreSQL may be missing
  unfoldable pub generate_fixtures :
      Text → Option PostgresqlTableSchema → Option SeedData → Result (List Text)
  unfolding create_table_statements seed_data_statements
  generate_fixtures name none seed = ok []
  generate_fixtures name (some schema) seed = if schema.is_deleted then ok [] else do
    statements ←
        wrap (lit "failed to create table statements")
          (create_table_statements sha256 pgx name schema)
    with_seed name schema seed statements

  -- The statements for the indexes of a table, over what the connection lists
  abbrev pub index_plan : PostgresConnection → Text → PostgresqlTableSchema → Result (List Text)
  index_plan p name schema =
      build_index_statements sha256 pgx name schema.indexes (list_table_indexes p name)
        (list_table_constraints p name) (check_if_table_exists p name)

  abbrev existing_seeds : PostgresConnection → Text → SeedData → Bool → Result (List Text)
  existing_seeds p name seed false = err (
      failed (lit "table " ++ name ++ lit " does not exist, cannot apply seed data without schema"))
  existing_seeds p name seed true = do
    key ← wrap (lit "failed to get table primary key") (get_table_primary_key p name)
    seed_data_statements sha256 pgx name (key_columns sha256 pgx key) [] seed

  -- SeedDataStatementsWithExistingSchema
  unfoldable pub seed_data_statements_with_existing_schema :
      (Text → Result PostgresConnection) → Text → Text → SeedData → Result (List Text)
  unfolding check_if_table_exists get_table_primary_key seed_data_statements
  seed_data_statements_with_existing_schema connect uri name seed = do
    p ← wrap (lit "failed to connect to postgres") (connect uri)
    table_exists ← wrap (lit "failed to check if table exists") (check_if_table_exists p name)
    existing_seeds p name seed table_exists
