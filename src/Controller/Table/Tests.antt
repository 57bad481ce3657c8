-- ===== src/Controller/Table/Tests.antt =====
-- A cluster that stores one table and one migration, with a planner that is passed.
pub mod Postgres
use schemahero.Base.{
  ℕ, zero, suc, ◌+◌, true, ◌&&◌, [], ◌∷◌, ◌++◌, Option, none, some, ◌≡◌, refl, sym, arith, any,
  take, if◌then◌else◌,
}
use schemahero.Base.Text.{Text, lit, ◌==◌}
use schemahero.Base.Text.Equality.{eq_iff, eq_refl}
use schemahero.Base.Text.Number.{pos}
use schemahero.Base.Result.{Result, ok, err, not_found, wrapped}
use schemahero.Types.Names.{Digest}
use schemahero.Schema.Migration.{Migration}
use schemahero.Schema.Table.{Table, TableSchema}
use schemahero.Schema.Database.{Database}
use schemahero.Mysql.Deploy.Tests.{users, server, users-InSync}
use schemahero.Mysql.Planner.{mysql_planner}
use schemahero.Mysql.Deploy.Execute.{done, stopped}
use schemahero.Database.Ddl.{get_statements_from_ddl}
use schemahero.Database.Ddl.RoundTrip.{terminated}
use schemahero.Database.Tests.{drop-IsLine}
use schemahero.Database.Plan.{Planner, plan_sync_table_spec, is_planned_driver}
use schemahero.Controller.Migration.{should_apply_migration}
use schemahero.Controller.Outcomes.{if-eq-ok, both}
use schemahero.Controller.Batch.{new_batch_manager}
use schemahero.Controller.Batch.Tests.{database, table}
use schemahero.Controller.Table.{
  TableCluster, mark_planned, get_sha, table_migration, plan, record_plan, table_statements,
  store_migration,
}
use schemahero.Controller.Table.Batched.{plan_batch, batch_migration}
use schemahero.Controller.Table.Reconcile.{World, finished, reconcile}
use schemahero.Controller.Table.Planned.{TableStores, plan-refused, plan-get_statements_from_ddl}
use schemahero.Controller.Table.Together.{
  Unobserved, joined_plans, plan_batch-get_statements_from_ddl,
}
use schemahero.Controller.Table.Requeued.{reconcile-requeued}
use schemahero.Controller.Table.Steady.{plan-steady}

abbrev Stored : Type 0
Stored = Table × Option Migration

abbrev zeros : ℕ → Text
zeros zero = []
zeros (suc n) = b'0' ∷ zeros n

abbrev digest : Digest
digest = record { hex = λ s. zeros 64; length-hex = λ s. refl }

abbrev stored_migration : Text → Text → Option Migration → Result Migration
stored_migration namespace name none = err not_found
stored_migration namespace name (some m) =
    if m.namespace == namespace && m.name == name then ok m else err not_found

abbrev cluster : Planner Text → TableCluster Stored Text
cluster planner = record {
  planner = λ s. planner;
  marshal = λ spec. ok spec.name;
  sha256 = digest;
  rest_config = λ s. ok tt;
  databases_client = λ s. ok tt;
  get_table = λ namespace name s.
      if s.0.namespace == namespace && s.0.name == name then ok s.0 else err not_found;
  get_database = λ namespace name s. err not_found;
  get_ready_replicas = λ namespace name s. ok (pos 1);
  get_extension_phase = λ namespace name s. err not_found;
  get_connection = λ db s. ok (lit "mysql", lit "uri");
  get_migration = λ namespace name s. stored_migration namespace name s.1;
  create_migration = λ m s. ok (s.0, some (record m { resource_version = 1 }));
  update_migration = λ m s. ok (s.0, some (record m { resource_version = 1 }));
  own_by_table = λ t m s. ok tt;
  own_by_database = λ db m s. ok tt;
  update_table_status = λ t s. ok (record t { resource_version = s.0.resource_version + 1 }, s.1);
  now = λ s. 7;
}

abbrev drops : Planner Text
drops = record {
  get_connection = λ driver uri. ok uri;
  plan_table_schema = λ conn name schema seed.
      if name == lit "users" then ok (lit "drop a" ∷ lit "drop a" ∷ []) else err not_found;
  plan_view_schema = λ conn name schema. ok [];
  plan_type_schema = λ conn name schema. ok [];
}

stored_migration-named :
    (namespace name : Text) (o : Option Migration) (m : Migration)
    → stored_migration namespace name o ≡ ok m
    → (m.namespace ≡ namespace) × (m.name ≡ name)
stored_migration-named namespace name none m h = cc
stored_migration-named namespace name (some old) m h =
    let (found, is) = if-eq-ok _ _ m not_found h in
    let (same_namespace, same_name) = both _ _ found in
    rw (sym is)
      ((eq_iff old.namespace namespace).0 same_namespace, (eq_iff old.name name).0 same_name)

ok_inj : {A : Type 0} {a b : A} → ok a ≡ ok b → a ≡ b
ok_inj h = cc

cluster_laws : (planner : Planner Text) → TableStores (cluster planner)
cluster_laws planner = record {
  status_apart = λ t s s' namespace name h. rw (sym (ok_inj h)) refl;
  created = λ m s s' h. (1, rw (sym (ok_inj h)) (rw (eq_refl m.namespace, eq_refl m.name) refl));
  updated = λ m s s' h. (1, rw (sym (ok_inj h)) (rw (eq_refl m.namespace, eq_refl m.name) refl));
  named = λ namespace name s m h. stored_migration-named namespace name s.1 m h;
}

cluster-Unobserved : (planner : Planner Text) → Unobserved (cluster planner)
cluster-Unobserved planner = record { planner_apart = λ t s s' h. refl }

abbrev pub declared : TableSchema
declared = record {
  postgres = none;
  mysql = some users;
  cockroachdb = none;
  cassandra = none;
  timescaledb = none;
  sqlite = none;
  rqlite = none;
}

abbrev users_table : Table
users_table = record table {
  spec = record table.spec { name = lit "users"; schema = some declared };
}

abbrev immediate : Database
immediate = record database { spec = record database.spec { immediate_deploy = true } }

abbrev before : Stored
before = (users_table, none)

abbrev drop_migration : Migration
drop_migration =
    table_migration (cluster drops) immediate users_table (zeros 64)
      (lit "drop a" ∷ lit "drop a" ∷ []) before

abbrev after : Stored
after = (
  record (mark_planned (zeros 64) users_table) { resource_version = 2 },
  some (record drop_migration { resource_version = 1 }),
)

plan_runs : plan (cluster drops) immediate users_table before ≡ done after
unfolding plan plan_sync_table_spec is_planned_driver any lit ◌==◌
plan_runs = refl

plan-get_statements_from_ddl_example :
    (sha : Text) × (m : Migration) × (get_sha (cluster drops) users_table ≡ ok sha)
    × (stored_migration (lit "n") (take 7 sha) after.1 ≡ ok m)
    × (get_statements_from_ddl m.spec.generated_ddl ≡ terminated (lit "drop a" ∷ lit "drop a" ∷ []))
    × (should_apply_migration m ≡ true)
unfolding lit table_statements plan_sync_table_spec is_planned_driver any ◌==◌
plan-get_statements_from_ddl_example =
    plan-get_statements_from_ddl (cluster drops) (cluster_laws drops) immediate users_table before
      after (lit "mysql", lit "uri") (lit "drop a") (lit "drop a" ∷ []) (omega arith) refl refl
      (drop-IsLine, (drop-IsLine, tt)) plan_runs

-- The API server has no endpoint for the status of the table.
abbrev refusing : TableCluster Stored Text
refusing = record (cluster drops) { update_table_status = λ t s. err not_found }

refusing_laws : TableStores refusing
refusing_laws = record {
  status_apart = λ t s s' namespace name h. cc;
  created = (cluster_laws drops).created;
  updated = (cluster_laws drops).updated;
  named = (cluster_laws drops).named;
}

abbrev stored_only : Stored
stored_only = (users_table, some (record drop_migration { resource_version = 1 }))

plan-refused_example :
    (plan refusing immediate users_table before
      ≡ stopped (wrapped (lit "failed to update table status") not_found) stored_only)
    × (m : Migration) × (stored_migration (lit "n") (take 7 (zeros 64)) stored_only.1 ≡ ok m)
    × (get_statements_from_ddl m.spec.generated_ddl ≡ terminated (lit "drop a" ∷ lit "drop a" ∷ []))
    × (should_apply_migration m ≡ true)
unfolding lit table_statements plan_sync_table_spec is_planned_driver any ◌==◌ store_migration
    get_sha
plan-refused_example =
    plan-refused refusing refusing_laws immediate users_table before stored_only
      (lit "mysql", lit "uri") (lit "drop a") (lit "drop a" ∷ []) (zeros 64) not_found (omega arith)
      refl refl (drop-IsLine, (drop-IsLine, tt)) refl refl refl

abbrev other_table : Table
other_table = record users_table { spec = record users_table.spec { name = lit "other" } }

abbrev drop_batch : Migration
drop_batch =
    batch_migration (cluster drops) immediate users_table
      (record {
        all_statements = lit "drop a" ∷ lit "drop a" ∷ [];
        processed_tables = users_table ∷ [];
        sha_inputs = zeros 64 ∷ [];
      })
      before

abbrev after_batch : Stored
after_batch = (
  record (mark_planned (zeros 64) users_table) { resource_version = 2 },
  some (record drop_batch { resource_version = 1 }),
)

-- The first table of the batch cannot be planned.
plan_batch_runs :
    plan_batch (cluster drops) immediate (other_table ∷ users_table ∷ []) before ≡ done after_batch
unfolding plan_batch batch_migration plan_sync_table_spec is_planned_driver any lit ◌==◌
plan_batch_runs = refl

plan_batch-get_statements_from_ddl_example :
    (id : Text) × (m : Migration) × (stored_migration (lit "n") (lit "batch-" ++ id) after_batch.1
      ≡ ok m)
    × (get_statements_from_ddl m.spec.generated_ddl ≡ terminated (lit "drop a" ∷ lit "drop a" ∷ []))
    × (should_apply_migration m ≡ true)
unfolding lit joined_plans table_statements plan_sync_table_spec is_planned_driver any ◌==◌
plan_batch-get_statements_from_ddl_example =
    plan_batch-get_statements_from_ddl (cluster drops) (cluster_laws drops)
      (cluster-Unobserved drops) immediate (other_table ∷ users_table ∷ []) before after_batch
      (lit "mysql", lit "uri") (lit "drop a") (lit "drop a" ∷ []) (λ u. omega arith) refl refl
      (drop-IsLine, (drop-IsLine, tt)) plan_batch_runs

abbrev ten : ℕ
ten = 10

abbrev waiting : World Stored
waiting = record { cluster = before; manager = new_batch_manager }

reconcile-requeued_example : (ten ≡ 10) × (waiting ≡ waiting)
unfolding reconcile lit ◌==◌ any
reconcile-requeued_example =
    reconcile-requeued (cluster drops) (lit "*" ∷ []) (lit "n") (lit "t") waiting waiting 10 refl

plan-steady_example :
    plan (cluster (mysql_planner (λ uri. ok server))) database users_table before
    ≡ record_plan (cluster (mysql_planner (λ uri. ok server))) users_table before
plan-steady_example =
    plan-steady (cluster (mysql_planner (λ uri. ok server))) (λ uri. ok server) server (lit "uri")
      database users_table before declared users 1 refl refl refl refl refl (omega arith) refl refl
      refl users-InSync
