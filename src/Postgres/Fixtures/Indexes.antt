-- ===== src/Postgres/Fixtures/Indexes.antt =====
-- GenerateFixtures of plugins/postgres/lib/connection.go beside PlanPostgresTable of deploy.go: what the
-- fixtures of a table lack.
use schemahero.Base.{false, List, [], ◌++◌, append-nil, Option, none, some, ◌≡◌, ◌↔◌, refl, sym}
use schemahero.Base.Text.{Text, lit}
use schemahero.Base.Result.{Result, ok, err, wrap, ◌>>=◌}
use schemahero.Schema.Postgresql.{PostgresqlTableSchema}
use schemahero.Schema.SeedData.{SeedData}
use schemahero.Types.Names.{Digest}
use schemahero.Postgres.Names.{Pgx}
use schemahero.Postgres.Rows.{PostgresConnection}
use schemahero.Postgres.Create.{seed_data_statements, create_table_statements}
use schemahero.Postgres.Deploy.{check_if_table_exists, new_table_statements, plan_connected}
use schemahero.Postgres.Fixtures.{generate_fixtures, index_plan}

-- The statements are those of a successful run, followed by others.
Extends : Result (List Text) → List Text → List Text → Type 0
Extends r more statements =
    (created : List Text) × (r ≡ ok created) × (statements ≡ created ++ more)

-- The run of the plan and that of the fixtures, over what creates the table.
created_alike :
    (r : Result (List Text)) (seeded more t : List Text)
    → ((do
      s ← wrap (lit "failed to create table statement") r
      i ← wrap (lit "failed to build index statements") (ok more)
      ok (s ++ seeded ++ i))
        ≡ ok t)
      ↔ Extends (do s ← wrap (lit "failed to create table statements") r; ok (s ++ seeded)) more t
unfolding Extends
created_alike (ok s) seeded more t = (λ h. (s ++ seeded, refl, cc), λ (u, h, k). cc)
created_alike (err e) seeded more t = (λ h. cc, λ (u, h, k). cc)

without_seed :
    (r : Result (List Text))
    → (do s ← wrap (lit "failed to create table statements") r; ok (s ++ []))
      ≡ (do s ← wrap (lit "failed to create table statements") r; ok s)
without_seed (ok s) = rw (append-nil s) refl
without_seed (err e) = refl

-- For a table that is not declared deleted and that the database lacks, where its indexes are planned
-- without an error: the plan succeeds exactly if the fixtures are generated, and it is the fixtures
-- followed by the statements for the indexes, which the fixtures lack.
pub generate_fixtures-plan-indexes_iff :
    (sha256 : Digest) (pgx : Pgx) (p : PostgresConnection) (name : Text)
    (schema : PostgresqlTableSchema) (seed : Option SeedData) (indexes statements : List Text)
    → schema.is_deleted ≡ false
    → check_if_table_exists p name ≡ ok false
    → index_plan sha256 pgx p name schema ≡ ok indexes
    → (plan_connected sha256 pgx p name schema seed ≡ ok statements) ↔ (
        (created : List Text) × (generate_fixtures sha256 pgx name (some schema) seed ≡ ok created)
        × (statements ≡ created ++ indexes))
unfolding generate_fixtures plan_connected new_table_statements seed_data_statements Extends
generate_fixtures-plan-indexes_iff sha256 pgx p name schema none indexes t live lacks planned =
    let created = create_table_statements sha256 pgx name schema in
    rw (planned, lacks, sym (without_seed created), live) (created_alike created [] indexes t)
generate_fixtures-plan-indexes_iff sha256 pgx p name schema (some seed) indexes t live lacks
      planned =
    rw (planned, lacks, live)
      (created_alike (create_table_statements sha256 pgx name schema) _ indexes t)
