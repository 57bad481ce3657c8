-- ===== src/Controller/Table.antt =====
-- pkg/controller/table: what the reconciler asks of the cluster, and plan of reconcile_table.go, which
-- plans one table and stores its migration. The API server, the plugins, encoding/json and the clock
-- are parameters.
pub mod Batched
pub mod Reconcile
pub mod Planned
pub mod Requeued
pub mod Together
pub mod Steady
pub mod Tests
use schemahero.Base.{
  ℕ, Bool, true, false, ◌&&◌, List, [], ◌∷◌, ◌++◌, Option, none, some, take, if◌then◌else◌,
}
use schemahero.Base.Text.{Text, lit, join}
use schemahero.Base.Text.Number.{ℤ, pos}
use schemahero.Base.Result.{Error, Result, ok, err, wrapped, wrap, ◌>>=◌}
use schemahero.Types.Names.{Digest}
use schemahero.Schema.Migration.{Migration, MigrationStatus, TableReference, planned}
use schemahero.Schema.SeedData.{SeedData}
use schemahero.Schema.Table.{Table, TableSpec}
use schemahero.Schema.Database.{Database}
use schemahero.Mysql.Deploy.Execute.{Executed, done, stopped, continue}
use schemahero.Database.Plan.{Planner, Target, plan_sync_table_spec, plan_sync_seed_data}
use schemahero.Controller.Migration.{is_not_found, with_result}

-- A get takes the namespace first. `marshal` is json.Marshal of a struct with the spec only.
pub record TableCluster (S Connection : Type 0) : Type 0 where
  pub planner : S → Planner Connection
  pub marshal : TableSpec → Result Text
  pub sha256 : Digest
  pub rest_config : S → Result {0} Unit
  pub databases_client : S → Result {0} Unit
  pub get_table : Text → Text → S → Result Table
  pub get_database : Text → Text → S → Result Database
  pub get_ready_replicas : Text → Text → S → Result ℤ
  pub get_extension_phase : Text → Text → S → Result Text
  pub get_connection : Database → S → Result (Text × Text)
  pub get_migration : Text → Text → S → Result Migration
  pub create_migration : Migration → S → Result S
  pub update_migration : Migration → S → Result S
  pub own_by_table : Table → Migration → S → Result {0} Unit
  pub own_by_database : Database → Migration → S → Result {0} Unit
  pub update_table_status : Table → S → Result S
  pub now : S → ℕ

abbrev pub is_set {ℓ} : {A : Type ℓ} → Option A → Bool
is_set none = false
is_set (some a) = true

abbrev pub is_nil {ℓ} : {A : Type ℓ} → List A → Bool
is_nil [] = true
is_nil (x ∷ xs) = false

abbrev pub of_result : {S : Type 0} → S → Result S → Executed S
of_result s (ok s') = done s'
of_result s (err e) = stopped e s

abbrev pub target_of : Database → Text × Text → Target
target_of db (driver, uri) = record {
  driver = driver;
  uri = uri;
  deploy_seed_data = db.spec.deploy_seed_data;
}

-- The status of a new migration at a time
abbrev pub planned_status : Database → ℕ → MigrationStatus
planned_status db time = record {
  phase = planned;
  planned_at = pos time;
  invalidated_at = pos 0;
  approved_at = if db.spec.immediate_deploy then pos time else pos 0;
  rejected_at = pos 0;
  executed_at = pos 0;
}

abbrev pub mark_planned : Text → Table → Table
mark_planned sha t = record t { status = record { last_planned_table_spec_sha = sha } }

module _ {S Connection : Type 0} (c : TableCluster S Connection) where
  -- GetSHA
  unfoldable pub get_sha : Table → Result Text
  get_sha t = do json ← wrap (lit "failed to marshal") (c.marshal t.spec); ok (c.sha256.hex json)

  -- The seed data is planned once the schema is in place.
  abbrev seed_statements : Database → Target → Table → List Text → S → Result (List Text)
  seed_statements db target t schema_statements s =
      if db.spec.deploy_seed_data && is_set t.spec.seed_data && is_nil schema_statements
      then wrap (lit "failed to plan seed for table " ++ t.name)
          (plan_sync_seed_data (c.planner s) target t.spec)
      else ok []

  -- The statements of a table, as plan and planBatch compute them.
  unfoldable pub table_statements : Database → Target → Table → S → Result (List Text)
  table_statements db target t s = do
    schema_statements ←
        wrap (lit "failed to plan sync for table " ++ t.name)
          (plan_sync_table_spec (c.planner s) target t.spec)
    seed ← seed_statements db target t schema_statements s
    ok (schema_statements ++ seed)

  abbrev stored : Result {0} Unit → Migration → S → Result Migration → Executed S
  stored owner m s (ok existing) = of_result s (
      wrap (lit "failed to update migration resource")
        (c.update_migration (record existing { spec = m.spec; status = m.status }) s))
  stored owner m s (err e) =
      if is_not_found e
      then with_result owner s (λ _.
        of_result s (wrap (lit "failed to create migration resource") (c.create_migration m s)))
      else stopped (wrapped (lit "failed to get existing migration") e) s

  -- Creates the migration, or writes it over the one of that name; `owner` is the result of setting
  -- its owner.
  unfoldable pub store_migration : Result {0} Unit → Migration → S → Executed S
  unfolding is_not_found
  store_migration owner m s = stored owner m s (c.get_migration m.namespace m.name s)

  -- The status update behind a plan
  unfoldable pub record_plan : Table → S → Executed S
  unfolding get_sha
  record_plan t s =
      with_result (wrap (lit "failed to get table sha for status update") (get_sha t)) s (λ sha.
        of_result s (
          wrap (lit "failed to update table status")
            (c.update_table_status (mark_planned sha t) s)))

  abbrev pub table_migration : Database → Table → Text → List Text → S → Migration
  table_migration db t sha statements s = record {
    name = take 7 sha;
    namespace = t.namespace;
    resource_version = 0;
    spec = record {
      database_name = t.spec.database;
      table_name = t.name;
      table_namespace = t.namespace;
      generated_ddl = join (lit ";\n") statements;
      edited_ddl = [];
      tables = [];
    };
    status = planned_status db (c.now s);
  }

  unfoldable pub deploy_plan : Database → Table → S → List Text → Executed S
  unfolding get_sha store_migration record_plan
  deploy_plan db t s [] = record_plan t s
  deploy_plan db t s (x ∷ statements) =
      with_result (wrap (lit "failed to get sha of table") (get_sha t)) s (λ sha.
        let m = table_migration db t sha (x ∷ statements) s in
        continue
          (store_migration (wrap (lit "failed to set owner on miration") (c.own_by_table t m s)) m
            s)
          (record_plan t))

  unfoldable pub plan_on : Database → Table → S → Text × Text → Executed S
  unfolding table_statements deploy_plan
  plan_on db t s details =
      with_result (table_statements db (target_of db details) t s) s (deploy_plan db t s)

  -- plan
  unfoldable pub plan : Database → Table → S → Executed S
  unfolding plan_on
  plan db t s =
      with_result
        (wrap (lit "failed to get connection details for database") (c.get_connection db s)) s
        (plan_on db t s)
