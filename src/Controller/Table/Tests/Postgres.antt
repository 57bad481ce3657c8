-- ===== src/Controller/Table/Tests/Postgres.antt =====
-- The cluster of the tests with a table of a PostgreSQL database.
use schemahero.Base.{none, some, ◌≡◌, refl}
use schemahero.Base.Text.{Text, lit}
use schemahero.Base.Result.{ok}
use schemahero.Schema.Table.{Table, TableSchema}
use schemahero.Postgres.Tests.{digest, pgx}
use schemahero.Postgres.Deploy.Tests.{server, people, people-InSync}
use schemahero.Postgres.Planner.{postgres_planner}
use schemahero.Controller.Batch.Tests.{database}
use schemahero.Controller.Table.{TableCluster, plan, record_plan}
use schemahero.Controller.Table.Steady.Postgres.{plan-postgres_steady}
use schemahero.Controller.Table.Tests.{Stored, cluster, declared, users_table}

abbrev declared_people : TableSchema
declared_people = record declared { postgres = some people; mysql = none }

abbrev people_table : Table
people_table = record users_table {
  spec = record users_table.spec { name = lit "people"; schema = some declared_people };
}

abbrev postgres_cluster : TableCluster Stored Text
postgres_cluster = record (cluster (postgres_planner digest pgx (λ uri. ok server))) {
  get_connection = λ db s. ok (lit "postgres", lit "uri");
}

plan-postgres_steady_example :
    plan postgres_cluster database people_table (people_table, none)
    ≡ record_plan postgres_cluster people_table (people_table, none)
plan-postgres_steady_example =
    plan-postgres_steady postgres_cluster digest pgx (λ uri. ok server) server (lit "uri") database
      people_table (people_table, none) declared_people people refl refl refl refl refl refl refl
      people-InSync
