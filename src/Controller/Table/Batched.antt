-- ===== src/Controller/Table/Batched.antt =====
-- planBatch of pkg/controller/table/batch.go: one migration for the tables of a batch.
use schemahero.Base.{List, [], ◌∷◌, ◌++◌, map, take}
use schemahero.Base.Text.{Text, lit, join}
use schemahero.Base.Result.{Result, ok, err, failed, wrap}
use schemahero.Schema.Migration.{Migration, TableReference}
use schemahero.Schema.Table.{Table}
use schemahero.Schema.Database.{Database}
use schemahero.Mysql.Deploy.Execute.{Executed, done, stopped, continue}
use schemahero.Database.Plan.{Target}
use schemahero.Controller.Migration.{with_result}
use schemahero.Controller.Table.{
  TableCluster, target_of, planned_status, mark_planned, get_sha, table_statements, store_migration,
}

-- What the loop collects; the references are the names of the processed tables.
pub record Collected : Type 0 where
  pub all_statements : List Text
  pub processed_tables : List Table
  pub sha_inputs : List Text

abbrev pub nothing_collected : Collected
nothing_collected = record { all_statements = []; processed_tables = []; sha_inputs = [] }

abbrev pub reference_of : Table → TableReference
reference_of t = record { name = t.name; namespace = t.namespace }

-- tableSHA, _ :=
abbrev sha_or_empty : Result Text → Text
sha_or_empty (ok sha) = sha
sha_or_empty (err e) = []

abbrev pub kept_state : {S : Type 0} → S → Result S → S
kept_state s (ok s') = s'
kept_state s (err e) = s

module _ {S Connection : Type 0} (c : TableCluster S Connection) where
  abbrev pub marked : Table → S → Result Text → S
  marked t s (ok sha) = kept_state s (c.update_table_status (mark_planned sha t) s)
  marked t s (err e) = s

  -- A status update whose errors are logged.
  unfoldable pub mark_or_log : Table → S → S
  unfolding get_sha
  mark_or_log t s = marked t s (get_sha c t)

  -- The status updates behind the migration
  unfoldable pub mark_all : List Table → S → S
  unfolding mark_or_log
  mark_all [] s = s
  mark_all (t ∷ tables) s = mark_all tables (mark_or_log t s)

  -- One round of the loop: a table that cannot be planned is logged and passed over.
  abbrev pub round : Table → S → Result (List Text) → Collected → Collected × S
  round t s (err e) a = (a, s)
  round t s (ok []) a = (a, mark_or_log t s)
  round t s (ok (x ∷ statements)) a = (
    record {
      all_statements = a.all_statements ++ x ∷ statements;
      processed_tables = a.processed_tables ++ t ∷ [];
      sha_inputs = a.sha_inputs ++ sha_or_empty (get_sha c t) ∷ [];
    },
    s,
  )

  -- The loop over the tables
  unfoldable pub collect_batch : Database → Target → List Table → Collected → S → Collected × S
  unfolding table_statements get_sha mark_or_log
  collect_batch db target [] a s = (a, s)
  collect_batch db target (t ∷ tables) a s =
      let (a', s') = round t s (table_statements c db target t s) a in
      collect_batch db target tables a' s'

  unfoldable pub batch_migration : Database → Table → Collected → S → Migration
  batch_migration db primary a s = record {
    name = lit "batch-" ++ take 7 (c.sha256.hex (join (lit ":") a.sha_inputs));
    namespace = db.namespace;
    resource_version = 0;
    spec = record {
      database_name = db.name;
      table_name = primary.name;
      table_namespace = primary.namespace;
      generated_ddl = join (lit ";\n") a.all_statements;
      edited_ddl = [];
      tables = map reference_of a.processed_tables;
    };
    status = planned_status db (c.now s);
  }

  -- Behind the loop, on the statements and the processed tables. With statements there is a table.
  abbrev pub deploy_batch : Database → Collected → S → List Text → List Table → Executed S
  deploy_batch db a s [] tables = done s
  deploy_batch db a s (x ∷ statements) [] = stopped (failed (lit "index out of range")) s
  deploy_batch db a s (x ∷ statements) (primary ∷ tables) =
      let m = batch_migration db primary a s in
      continue
        (store_migration c
          (wrap (lit "failed to set owner on migration") (c.own_by_database db m s)) m s)
        (λ s'. done (mark_all (primary ∷ tables) s'))

  unfoldable pub plan_batch_on : Database → List Table → S → Text × Text → Executed S
  unfolding collect_batch batch_migration store_migration mark_all
  plan_batch_on db tables s details =
      let (a, s') = collect_batch db (target_of db details) tables nothing_collected s in
      deploy_batch db a s' a.all_statements a.processed_tables

  -- planBatch
  unfoldable pub plan_batch : Database → List Table → S → Executed S
  unfolding plan_batch_on
  plan_batch db tables s =
      with_result
        (wrap (lit "failed to get connection details for database") (c.get_connection db s)) s
        (plan_batch_on db tables s)
