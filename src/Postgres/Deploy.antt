-- ===== src/Postgres/Deploy.antt =====
-- plugins/postgres/lib/deploy.go: the plan for a table, from its declaration and the connection.
pub mod InSync
pub mod Steady
pub mod Tests
use schemahero.Base.{
  ℕ, Bool, true, false, not, ◌&&◌, List, [], ◌∷◌, ◌++◌, map, Option, none, some, if◌then◌else◌, any,
  beq,
}
use schemahero.Base.Text.{Text, lit, ◌==◌, is_empty}
use schemahero.Base.Text.Number.{itoa}
use schemahero.Base.Result.{Result, ok, err, failed, wrap, collect, ◌>>=◌}
use schemahero.Schema.SeedData.{SeedData}
use schemahero.Schema.Postgresql.{PostgresqlTableColumn, PostgresqlTableSchema}
use schemahero.Types.Columns.{Column}
use schemahero.Types.Keys.{KeyConstraint}
use schemahero.Types.Names.{Digest}
use schemahero.Postgres.Names.{Pgx, split_qualified_table_name, sanitize_table_name}
use schemahero.Postgres.Alter.{altered_column_statements, strip_oid_class}
use schemahero.Postgres.Column.{schema_column_to_column, insert_column_statement}
use schemahero.Postgres.Connection.{
  read_default, with_max_length, udt_name_to_data_type, list_table_constraints, list_table_indexes,
  list_table_foreign_keys, list_table_check_constraints, list_table_exclusion_constraints,
  list_table_triggers, get_table_primary_key, get_table_schema, get_table_row_security,
  list_table_policies,
}
use schemahero.Postgres.Rows.{PostgresConnection, ColumnRow}
use schemahero.Postgres.Keys.{
  build_primary_key_statements, build_postgres_foreign_key_statements, build_index_statements,
}
use schemahero.Postgres.Checks.{build_check_constraint_statements}
use schemahero.Postgres.Exclusions.{build_exclusion_constraint_statements}
use schemahero.Postgres.Triggers.{build_trigger_statements}
use schemahero.Postgres.Security.{build_row_level_security_statements}
use schemahero.Postgres.Create.{seed_data_statements, create_table_statements}

-- CheckIfTableExists
unfoldable pub check_if_table_exists : PostgresConnection → Text → Result Bool
unfolding split_qualified_table_name
check_if_table_exists p table_name =
    let (schema, table) = split_qualified_table_name table_name in
    wrap (lit "failed to scan") (p.table_count schema table) >>= (λ n. ok (not (beq n 0)))

-- The type of a row of the table, without its length
abbrev row_type : ColumnRow → Text
row_type r =
    if r.data_type == lit "ARRAY"
    then udt_name_to_data_type r.udt_name
    else if r.data_type == lit "USER-DEFINED"
    then udt_name_to_data_type r.udt_name
    else r.data_type

-- The column of the table that a row describes
unfoldable pub existing_column : ColumnRow → Column
unfolding strip_oid_class udt_name_to_data_type itoa
existing_column r = record {
  name = r.name;
  data_type = with_max_length (row_type r) r.max_length;
  column_default = read_default r.default;
  constraints = some (record { not_null = some (r.is_nullable == lit "NO") });
  attributes = none;
  is_array = r.data_type == lit "ARRAY";
  charset = [];
  collation = [];
  is_static = false;
}

unfoldable pub find_column : Text → List PostgresqlTableColumn → Option PostgresqlTableColumn
find_column name [] = none
find_column name (c ∷ cs) =
    let rest = find_column name cs in if c.name == name then some c else rest

module _ (sha256 : Digest) (pgx : Pgx) where
  -- AlterColumnStatements: an alteration of a declared column, or a drop of one that is not
  unfoldable pub alter_column_statements :
      Text → List Text → List PostgresqlTableColumn → Column → Result (List Text)
  unfolding find_column schema_column_to_column altered_column_statements sanitize_table_name
  alter_column_statements table_name primary_keys desired existing =
      elim (find_column existing.name desired) [
        | none ↦ ok (
            (lit "alter table "
              ++ sanitize_table_name pgx table_name
              ++ lit " drop column "
              ++ pgx.sanitize (existing.name ∷ []))
            ∷ [])
        | some d ↦ schema_column_to_column d >>= (λ column.
            ok (altered_column_statements pgx table_name primary_keys existing column))
      ]

  -- One round of the loop over the rows
  unfoldable pub row_statements : Text → PostgresqlTableSchema → ColumnRow → Result (List Text)
  unfolding existing_column alter_column_statements
  row_statements table_name schema r =
      wrap (lit "failed to create alter column statement")
        (alter_column_statements table_name schema.primary_key schema.columns (existing_column r))

  -- One round of the loop over the declared columns
  unfoldable pub missing_column_statements :
      Text → List ColumnRow → PostgresqlTableColumn → Result (List Text)
  unfolding insert_column_statement any
  missing_column_statements table_name rows desired =
      if any (λ r. r.name == desired.name) rows then ok [] else do
        statement ←
            wrap (lit "failed to create insert column statement")
              (insert_column_statement pgx table_name desired)
        ok (statement ∷ [])

  -- BuildColumnStatements
  unfoldable pub build_column_statements :
      PostgresConnection → Text → PostgresqlTableSchema → Result (List Text)
  unfolding split_qualified_table_name collect row_statements missing_column_statements
  build_column_statements p table_name schema =
      let (located_schema, table) = split_qualified_table_name table_name in
      do
        rows ←
            wrap (lit "failed to select from information_schema")
              (p.column_rows located_schema table)
        altered ← collect (row_statements table_name schema) rows
        added ← collect (missing_column_statements table_name rows) schema.columns
        ok (altered ++ added)

  -- The statements for a table that exists, without the seed data
  unfoldable pub alter_table_statements :
      PostgresConnection → Text → PostgresqlTableSchema → Result (List Text)
  unfolding build_column_statements build_primary_key_statements get_table_primary_key
      build_postgres_foreign_key_statements list_table_foreign_keys list_table_check_constraints
      build_check_constraint_statements build_index_statements list_table_indexes
      list_table_constraints check_if_table_exists build_exclusion_constraint_statements
      list_table_exclusion_constraints build_trigger_statements list_table_triggers
      build_row_level_security_statements get_table_row_security list_table_policies
  alter_table_statements p table_name schema = do
    columns ←
        wrap (lit "failed to build column statement") (build_column_statements p table_name schema)
    primary_key ← wrap (lit "failed to build primary key statements") (
        build_primary_key_statements sha256 pgx table_name schema.primary_key
          (get_table_primary_key p table_name))
    foreign_keys ← wrap (lit "failed to build foreign key statements") (
        build_postgres_foreign_key_statements sha256 pgx table_name schema.foreign_keys
          (list_table_foreign_keys p table_name))
    checks ← wrap (lit "failed to build check constraint statements") (
        build_check_constraint_statements sha256 pgx table_name schema.checks
          (list_table_check_constraints p table_name))
    indexes ← wrap (lit "failed to build index statements") (
        build_index_statements sha256 pgx table_name schema.indexes
          (list_table_indexes p table_name) (list_table_constraints p table_name)
          (check_if_table_exists p table_name))
    exclusions ← wrap (lit "failed to build exclusion constraint statements") (
        build_exclusion_constraint_statements sha256 pgx table_name schema.exclusion_constraints
          (list_table_exclusion_constraints p table_name))
    triggers ← wrap (lit "failed to build trigger statements") (
        build_trigger_statements pgx table_name schema.schema schema.json_triggers schema.triggers
          (list_table_triggers p table_name))
    security ← wrap (lit "failed to build row level security statements") (
        build_row_level_security_statements pgx table_name schema.row_level_security schema.policies
          (get_table_row_security p table_name) (list_table_policies p table_name))
    ok (
        columns ++ primary_key ++ foreign_keys ++ checks ++ indexes ++ exclusions ++ triggers
        ++ security)

  abbrev seeds_of : Text → PostgresqlTableSchema → Option SeedData → Result (List Text)
  seeds_of table_name schema none = ok []
  seeds_of table_name schema (some seed) =
      wrap (lit "create seed data statements")
        (seed_data_statements sha256 pgx table_name schema.primary_key schema.indexes seed)

  -- A table that is new: its create statement, the seed data, and its other indexes
  unfoldable pub new_table_statements :
      PostgresConnection → Text → PostgresqlTableSchema → List Text → Result (List Text)
  unfolding create_table_statements build_index_statements list_table_indexes list_table_constraints
      check_if_table_exists
  new_table_statements p table_name schema seeded = do
    created ←
        wrap (lit "failed to create table statement")
          (create_table_statements sha256 pgx table_name schema)
    indexes ← wrap (lit "failed to build index statements") (
        build_index_statements sha256 pgx table_name schema.indexes
          (list_table_indexes p table_name) (list_table_constraints p table_name)
          (check_if_table_exists p table_name))
    ok (created ++ seeded ++ indexes)

  -- PlanPostgresTable, behind the connection
  unfoldable pub plan_connected :
      PostgresConnection → Text → PostgresqlTableSchema → Option SeedData → Result (List Text)
  unfolding check_if_table_exists sanitize_table_name seed_data_statements new_table_statements
  plan_connected p table_name schema seed = do
    table_exists ← wrap (lit "failed to check if table exists") (check_if_table_exists p table_name)
    if schema.is_deleted
        then ok (
            if table_exists
            then (lit "drop table " ++ sanitize_table_name pgx table_name) ∷ []
            else [])
        else do
          seeded ← seeds_of table_name schema seed
          if table_exists
              then alter_table_statements p table_name schema
                >>= (λ altered. ok (altered ++ seeded))
              else new_table_statements p table_name schema seeded

  -- The primary key of a table of which only that matters to the seed data
  abbrev pub key_columns : Option KeyConstraint → List Text
  key_columns none = []
  key_columns (some k) = k.columns

  module _ (connect : Text → Result PostgresConnection) where
    -- PlanPostgresTable; `connect` is Connect of connection.go, over the driver
    unfoldable pub plan_postgres_table :
        Text → Text → PostgresqlTableSchema → Option SeedData → Result (List Text)
    unfolding plan_connected
    plan_postgres_table uri table_name schema seed = do
      p ← wrap (lit "failed to connect to postgres") (connect uri)
      plan_connected p table_name schema seed

    abbrev seeds_only : PostgresConnection → Text → SeedData → Bool → Result (List Text)
    seeds_only p table_name seed false = err (
        failed (
          lit "table "
          ++ table_name
          ++ lit " does not exist, cannot apply seed data without schema"))
    seeds_only p table_name seed true = do
      columns ← wrap (lit "failed to get existing table schema") (get_table_schema p table_name)
      key ← wrap (lit "failed to get table primary key") (get_table_primary_key p table_name)
      wrap (lit "failed to create seed data statements")
          (seed_data_statements sha256 pgx table_name (key_columns key) [] seed)

    -- PlanPostgresTableSeedDataOnly; of the table that it reads, SeedDataStatements reads the key only
    unfoldable pub plan_postgres_table_seed_data_only :
        Text → Text → Option SeedData → Result (List Text)
    unfolding check_if_table_exists get_table_schema get_table_primary_key seed_data_statements
    plan_postgres_table_seed_data_only uri table_name none = ok []
    plan_postgres_table_seed_data_only uri table_name (some seed) = do
      p ← wrap (lit "failed to connect to postgres") (connect uri)
      table_exists ←
          wrap (lit "failed to check if table exists") (check_if_table_exists p table_name)
      seeds_only p table_name seed table_exists
