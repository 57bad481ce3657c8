-- ===== src/Controller/Tests.antt =====
-- A cluster that stores one migration and logs the statements that its database executes.
use schemahero.Base.{◌+◌, ◌&&◌, List, [], ◌∷◌, ◌++◌, ◌≡◌, refl, sym, arith, any, beq, if◌then◌else◌}
use schemahero.Base.Text.{Text, lit, ◌==◌, split, trim_space, has_suffix}
use schemahero.Base.Text.Equality.{eq_iff, eq_refl}
use schemahero.Base.Text.Number.{pos}
use schemahero.Base.Result.{Result, ok, err, conflict, not_found}
use schemahero.Schema.Migration.{Migration, approved}
use schemahero.Mysql.Deploy.Execute.{done}
use schemahero.Database.Apply.{apply_sync}
use schemahero.Database.Ddl.{get_statements_from_ddl}
use schemahero.Controller.Outcomes.{if-eq-ok, both}
use schemahero.Controller.Migration.{
  Cluster, reconcile, mark_executed, mark_time, record_execution, should_apply_migration,
}
use schemahero.Controller.Migration.Once.{Stores, reconcile-again}
use schemahero.Controller.Migration.Conflict.{record_execution-conflict}

abbrev Stored : Type 0
Stored = Migration × List Text

abbrev update : Migration → Stored → Result Stored
update m (old, log) =
    if beq m.resource_version old.resource_version
    then ok (record m { resource_version = m.resource_version + 1 }, log)
    else err conflict

abbrev get : Text → Text → Stored → Result Migration
get namespace name (old, log) =
    if old.namespace == namespace && old.name == name then ok old else err not_found

abbrev cluster : Cluster Stored Unit Unit
cluster = record {
  plugins = record {
    get_connection = λ driver uri s. ok tt;
    deploy_statements = λ conn statements s. done (s.0, s.1 ++ statements);
  };
  schemas_client = λ s. ok tt;
  databases_client = λ s. ok tt;
  get_table =
      λ namespace name s. ok (record { name = name; namespace = namespace; database = lit "d" });
  get_view = λ namespace name s. err not_found;
  get_database = λ namespace name s. ok tt;
  get_connection = λ d s. ok (lit "mysql", lit "uri");
  get_migration = get;
  update_migration = update;
  now = λ s. 7;
}

cluster_laws : Stores cluster
cluster_laws = record {
  updated = λ m s s' h.
      let (_, is) = if-eq-ok _ _ s' conflict h in
      (m.resource_version + 1, rw (sym is) (rw (eq_refl m.namespace, eq_refl m.name) refl));
  named = λ namespace name s m h.
      let (found, is) = if-eq-ok _ _ m not_found h in
      let (same_namespace, same_name) = both _ _ found in
      rw (sym is)
        ((eq_iff s.0.namespace namespace).0 same_namespace, (eq_iff s.0.name name).0 same_name);
  clock = λ s. omega arith;
}

abbrev waiting : Migration
waiting = record {
  name = lit "m";
  namespace = lit "n";
  resource_version = 1;
  spec = record {
    database_name = lit "d";
    table_name = lit "t";
    table_namespace = lit "n";
    generated_ddl = lit "a;\nb";
    edited_ddl = [];
    tables = [];
  };
  status = record {
    phase = approved;
    planned_at = pos 1;
    invalidated_at = pos 0;
    approved_at = pos 2;
    rejected_at = pos 0;
    executed_at = pos 0;
  };
}

abbrev finished : Stored
finished = (record (mark_executed 7 waiting) { resource_version = 2 }, lit "a;" ∷ lit "b" ∷ [])

reconcile_runs : reconcile cluster (lit "*" ∷ []) (lit "n") (lit "m") (waiting, []) ≡ done finished
unfolding reconcile lit ◌==◌ any should_apply_migration apply_sync get_statements_from_ddl split
    trim_space has_suffix
reconcile_runs = refl

reconcile-again_example :
    reconcile cluster (lit "*" ∷ []) (lit "n") (lit "m") finished ≡ done finished
reconcile-again_example =
    reconcile-again cluster cluster_laws (lit "*" ∷ []) (lit "n") (lit "m") (waiting, []) finished
      reconcile_runs

abbrev stale : Migration
stale = record waiting { resource_version = 0 }

record_execution-conflict_example :
    (record_execution cluster stale (waiting, [])
      ≡ done (record (mark_time 7 waiting) { resource_version = 2 }, []))
    × (w : Migration) × (get
          (lit "n")
          (lit "m")
          (record (mark_time 7 waiting) { resource_version = 2 }, [])
        ≡ ok w)
    × (w.status.executed_at ≡ pos 7)
    × (w.status.phase ≡ approved)
unfolding lit ◌==◌
record_execution-conflict_example =
    record_execution-conflict cluster cluster_laws stale waiting (waiting, [])
      (record (mark_time 7 waiting) { resource_version = 2 }, []) refl refl refl
