-- ===== src/Controller/Table/Steady.antt =====
-- A MySQL table that is as it is declared: from the reconciler down to the planner of the plugin.
pub mod Postgres
use schemahero.Base.{ℕ, ◌<◌, true, false, [], none, some, ◌≡◌, refl, ◌∙◌}
use schemahero.Base.Text.{Text, lit, ◌==◌}
use schemahero.Base.Result.{Result, ok}
use schemahero.Schema.Mysql.{MysqlTableSchema}
use schemahero.Schema.Table.{Table, TableSchema}
use schemahero.Schema.Database.{Database}
use schemahero.Mysql.Connection.{MysqlConnection}
use schemahero.Mysql.Deploy.{plan_mysql_table, plan_connected}
use schemahero.Mysql.Deploy.Steady.{InSync, plan_steady}
use schemahero.Mysql.Planner.{mysql_planner, plan_table_schema}
use schemahero.Database.Plan.{is_planned_driver, schema_for, mysql_schema, plan_sync_table_spec}
use schemahero.Controller.Table.{
  TableCluster, table_statements, record_plan, deploy_plan, plan_on, plan,
}

mysql_is_planned : is_planned_driver (lit "mysql") ≡ true
unfolding is_planned_driver lit ◌==◌
mysql_is_planned = refl

mysql_schema_for : (s : TableSchema) → schema_for (lit "mysql") s ≡ mysql_schema s.mysql
unfolding schema_for lit ◌==◌
mysql_schema_for s = refl

module _ (connect : Text → Result MysqlConnection) (m : MysqlConnection) (uri : Text)
    (connected : connect uri ≡ ok m) where
  -- Connecting and counting the tables of that name do not fail.
  plan_mysql_table-connected :
      (name : Text) (schema : MysqlTableSchema) (count : ℕ)
      → m.table_count name ≡ ok count
      → plan_mysql_table connect uri name schema none ≡ plan_connected m name schema none count
  unfolding plan_mysql_table
  plan_mysql_table-connected name schema count counted = rw (connected, counted) refl

  plan_sync_table_spec-mysql :
      (t : Table) (declared : TableSchema) (schema : MysqlTableSchema)
      → t.spec.schema ≡ some declared
      → declared.mysql ≡ some schema
      → plan_sync_table_spec
          (mysql_planner connect)
          (record { driver = lit "mysql"; uri = uri; deploy_seed_data = false })
          t.spec
        ≡ plan_mysql_table connect uri t.spec.name schema none
  unfolding plan_sync_table_spec plan_table_schema
  plan_sync_table_spec-mysql t declared schema is own =
      rw (is, mysql_is_planned, connected, mysql_schema_for declared, own) refl

-- A plan without statements stores no migration.
pub plan-nothing :
    {S : Type 0} (c : TableCluster S Text) (driver uri : Text) (db : Database) (t : Table) (s : S)
    → c.get_connection db s ≡ ok (driver, uri)
    → db.spec.deploy_seed_data ≡ false
    → plan_sync_table_spec
        (c.planner s)
        (record { driver = driver; uri = uri; deploy_seed_data = false })
        t.spec
      ≡ ok []
    → plan c db t s ≡ record_plan c t s
unfolding plan plan_on table_statements deploy_plan
plan-nothing c driver uri db t s details seeds steady = rw (details, seeds, steady) refl

-- Where seed data is not deployed and the database is MySQL: the plan for a table that is there, that is
-- not declared deleted and that is as it is declared (`InSync`) stores no migration and only records
-- in the status of the table that it is planned.
pub plan-steady :
    {S : Type 0} (c : TableCluster S Text) (connect : Text → Result MysqlConnection)
    (m : MysqlConnection) (uri : Text) (db : Database) (t : Table) (s : S) (declared : TableSchema)
    (schema : MysqlTableSchema) (count : ℕ)
    → c.planner s ≡ mysql_planner connect
    → c.get_connection db s ≡ ok (lit "mysql", uri)
    → db.spec.deploy_seed_data ≡ false
    → connect uri ≡ ok m
    → m.table_count t.spec.name ≡ ok count
    → 0 < count
    → t.spec.schema ≡ some declared
    → declared.mysql ≡ some schema
    → schema.is_deleted ≡ false
    → InSync m t.spec.name schema
    → plan c db t s ≡ record_plan c t s
plan-steady c connect m uri db t s declared schema count planner details seeds connected counted
      there is own live sync =
    let steady =
      plan_sync_table_spec-mysql connect m uri connected t declared schema is own
      ∙ plan_mysql_table-connected connect m uri connected t.spec.name schema count counted
      ∙ plan_steady m t.spec.name schema count sync there live in
    plan-nothing c (lit "mysql") uri db t s details seeds (rw planner steady)
