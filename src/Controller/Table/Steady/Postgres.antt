-- ===== src/Controller/Table/Steady/Postgres.antt =====
-- A PostgreSQL table that is as it is declared: from the reconciler down to the planner of the plugin.
use schemahero.Base.{true, false, none, some, ◌≡◌, refl, ◌∙◌}
use schemahero.Base.Text.{Text, lit, ◌==◌}
use schemahero.Base.Result.{Result, ok}
use schemahero.Schema.Postgresql.{PostgresqlTableSchema}
use schemahero.Schema.Table.{Table, TableSchema}
use schemahero.Schema.Database.{Database}
use schemahero.Types.Names.{Digest}
use schemahero.Postgres.Names.{Pgx}
use schemahero.Postgres.Rows.{PostgresConnection}
use schemahero.Postgres.Deploy.{plan_postgres_table, plan_connected}
use schemahero.Postgres.Deploy.Steady.{postgres_plan_steady}
use schemahero.Postgres.Deploy.InSync.{InSync}
use schemahero.Postgres.Planner.{postgres_planner, plan_table_schema}
use schemahero.Database.Plan.{
  is_planned_driver, schema_for, postgresql_schema, plan_sync_table_spec,
}
use schemahero.Controller.Table.{TableCluster, record_plan, plan}
use schemahero.Controller.Table.Steady.{plan-nothing}

postgres_is_planned : is_planned_driver (lit "postgres") ≡ true
unfolding is_planned_driver lit ◌==◌
postgres_is_planned = refl

postgres_schema_for :
    (s : TableSchema) → schema_for (lit "postgres") s ≡ postgresql_schema s.postgres
unfolding schema_for lit ◌==◌
postgres_schema_for s = refl

module _ (sha256 : Digest) (pgx : Pgx) (connect : Text → Result PostgresConnection)
    (p : PostgresConnection) (uri : Text) (connected : connect uri ≡ ok p) where
  plan_postgres_table-connected :
      (name : Text) (schema : PostgresqlTableSchema)
      → plan_postgres_table sha256 pgx connect uri name schema none
        ≡ plan_connected sha256 pgx p name schema none
  unfolding plan_postgres_table
  plan_postgres_table-connected name schema = rw connected refl

  plan_sync_table_spec-postgres :
      (t : Table) (declared : TableSchema) (schema : PostgresqlTableSchema)
      → t.spec.schema ≡ some declared
      → declared.postgres ≡ some schema
      → plan_sync_table_spec
          (postgres_planner sha256 pgx connect)
          (record { driver = lit "postgres"; uri = uri; deploy_seed_data = false })
          t.spec
        ≡ plan_postgres_table sha256 pgx connect uri t.spec.name schema none
  unfolding plan_sync_table_spec plan_table_schema
  plan_sync_table_spec-postgres t declared schema is own =
      rw (is, postgres_is_planned, connected, postgres_schema_for declared, own) refl

-- Where seed data is not deployed and the database is PostgreSQL: the plan for a table that is there,
-- that is not declared deleted and that is as it is declared (`InSync`, where row level security is
-- managed or left out) stores no migration and only records in the status of the table that it is
-- planned.
pub plan-postgres_steady :
    {S : Type 0} (c : TableCluster S Text) (sha256 : Digest) (pgx : Pgx)
    (connect : Text → Result PostgresConnection) (p : PostgresConnection) (uri : Text)
    (db : Database) (t : Table) (s : S) (declared : TableSchema) (schema : PostgresqlTableSchema)
    → c.planner s ≡ postgres_planner sha256 pgx connect
    → c.get_connection db s ≡ ok (lit "postgres", uri)
    → db.spec.deploy_seed_data ≡ false
    → connect uri ≡ ok p
    → t.spec.schema ≡ some declared
    → declared.postgres ≡ some schema
    → schema.is_deleted ≡ false
    → InSync sha256 pgx p t.spec.name schema
    → plan c db t s ≡ record_plan c t s
plan-postgres_steady c sha256 pgx connect p uri db t s declared schema planner details seeds
      connected is own live sync =
    let steady =
      plan_sync_table_spec-postgres sha256 pgx connect p uri connected t declared schema is own
      ∙ plan_postgres_table-connected sha256 pgx connect p uri connected t.spec.name schema
      ∙ postgres_plan_steady sha256 pgx p t.spec.name schema sync live in
    plan-nothing c (lit "postgres") uri db t s details seeds (rw planner steady)
