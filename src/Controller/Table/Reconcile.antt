-- ===== src/Controller/Table/Reconcile.antt =====
-- Reconcile and reconcileTable of pkg/controller/table. The state is that of the cluster and of the
-- batches.
use schemahero.Base.{
  ℕ, zero, suc, Bool, true, false, List, [], ◌∷◌, ◌++◌, Option, none, some, any, ◌||◌,
  if◌then◌else◌,
}
use schemahero.Base.Text.{Text, lit, ◌==◌}
use schemahero.Base.Text.Number.{ℤ, pos, negsuc}
use schemahero.Base.Result.{Error, Result, ok, err, failed, wrapped, wrap, ◌>>=◌}
use schemahero.Schema.Table.{Table, TableSchema}
use schemahero.Schema.Database.{Database, DatabaseConnection}
use schemahero.Mysql.Deploy.Execute.{Executed, done, stopped}
use schemahero.Controller.Migration.{is_not_found}
use schemahero.Controller.Batch.{BatchManager, queue_table}
use schemahero.Controller.Table.{TableCluster, is_set, get_sha, plan}

pub record World (S : Type 0) : Type 0 where
  pub cluster : S
  pub manager : BatchManager

-- A reconciliation is over, is to be repeated after some seconds, fails, or panics.
pub data Reconciled (W : Type 0) : Type 0 where
  finished : W → Reconciled W
  requeued : ℕ → W → Reconciled W
  gave_up : Error → W → Reconciled W
  panicked : W → Reconciled W

abbrev pub checked {ℓ} :
    {W : Type 0} {A : Type ℓ} → Result A → W → (A → Reconciled W) → Reconciled W
checked (ok a) w next = next a
checked (err e) w next = gave_up e w

-- checkDatabaseTypeMatches on a schema that is there
unfoldable pub check_database_type_matches : DatabaseConnection → TableSchema → Bool
check_database_type_matches connection s =
    if is_set connection.postgres
    then is_set s.postgres
    else if is_set connection.mysql
    then is_set s.mysql
    else if is_set connection.cockroachdb
    then is_set s.cockroachdb
    else if is_set connection.rqlite
    then is_set s.rqlite
    else if is_set connection.timescaledb
    then is_set s.timescaledb
    else if is_set connection.sqlite
    then is_set s.sqlite
    else if is_set connection.cassandra
    then is_set s.cassandra
    else false

-- A connection of some driver is set, so that checkDatabaseTypeMatches reads the schema.
abbrev pub has_connection : DatabaseConnection → Bool
has_connection connection =
    is_set connection.postgres
    || is_set connection.mysql
    || is_set connection.cockroachdb
    || is_set connection.rqlite
    || is_set connection.timescaledb
    || is_set connection.sqlite
    || is_set connection.cassandra

-- The schema is read through a pointer: reading a nil one panics, which is `none`.
abbrev pub type_check : DatabaseConnection → Option TableSchema → Option Bool
type_check connection (some s) = some (check_database_type_matches connection s)
type_check connection none = if has_connection connection then none else some false

-- statefulset.Status.ReadyReplicas < 1
abbrev has_ready_replica : ℤ → Bool
has_ready_replica (pos zero) = false
has_ready_replica (pos (suc n)) = true
has_ready_replica (negsuc n) = false

module _ {S Connection : Type 0} (c : TableCluster S Connection) where
  abbrev database_or_none : Result Database → Result (Option Database)
  database_or_none (ok db) = ok (some db)
  database_or_none (err e) =
      if is_not_found e then ok none else err (wrapped (lit "failed to get database object") e)

  -- getDatabaseInstance
  unfoldable pub get_database_instance : Text → Text → S → Result (Option Database)
  unfolding is_not_found
  get_database_instance namespace name s = do
    _ ← wrap (lit "failed to get config") (c.rest_config s)
    _ ← wrap (lit "failed to get databasesclient") (c.databases_client s)
    database_or_none (c.get_database namespace name s)

  abbrev readiness : Result ℤ → Result Bool
  readiness (ok n) = ok (has_ready_replica n)
  readiness (err e) =
      if is_not_found e
      then ok false
      else err (wrapped (lit "failed to get database controller statefulset") e)

  -- isDatabaseControllerReady
  unfoldable pub is_database_controller_ready : Database → S → Result Bool
  unfolding is_not_found
  is_database_controller_ready db s =
      readiness (c.get_ready_replicas db.namespace (db.name ++ lit "-controller") s)

  -- Whether each required extension is applied; the loop stops at the first that is not.
  abbrev extension_ready : Text → Result Text → Result Bool
  extension_ready name (ok phase) = ok (phase == lit "Applied")
  extension_ready name (err e) =
      if is_not_found e
      then ok false
      else err (wrapped (lit "failed to get required extension " ++ name) e)

  abbrev and_then : Result Bool → Result Bool → Result Bool
  and_then (ok true) rest = rest
  and_then (ok false) rest = ok false
  and_then (err e) rest = err e

  unfoldable pub extensions_ready : Text → List Text → S → Result Bool
  unfolding is_not_found
  extensions_ready namespace [] s = ok true
  extensions_ready namespace (name ∷ names) s =
      and_then (extension_ready name (c.get_extension_phase namespace name s))
        (extensions_ready namespace names s)

  abbrev pub planned_world : BatchManager → Executed S → Reconciled (World S)
  planned_world manager (done s) = finished (record { cluster = s; manager = manager })
  planned_world manager (stopped e s) = gave_up e (record { cluster = s; manager = manager })

  abbrev pub queued_or_planned :
      Database → Table → World S → Bool × BatchManager → Reconciled (World S)
  queued_or_planned db t w (true, manager) = finished (record w { manager = manager })
  queued_or_planned db t w (false, manager) = planned_world manager (plan c db t w.cluster)

  -- The end of reconcileTable. No migration is found by getMigrationSpec, which looks for none.
  unfoldable pub queue_or_plan : Database → Table → World S → Reconciled (World S)
  unfolding plan
  queue_or_plan db t w =
      checked (wrap (lit "failed to get table sha") (get_sha c t)) w
        (λ sha. queued_or_planned db t w (queue_table db t (c.now w.cluster) w.manager))

  abbrev pub matched : Database → Table → World S → Option Bool → Reconciled (World S)
  matched db t w none = panicked w
  matched db t w (some true) = queue_or_plan db t w
  matched db t w (some false) =
      gave_up (failed (lit "unable to deploy table to connection of different type")) w

  unfoldable pub with_extensions : Database → Table → World S → Reconciled (World S)
  unfolding extensions_ready check_database_type_matches queue_or_plan
  with_extensions db t w =
      checked (extensions_ready t.namespace t.spec.requires w.cluster) w (λ ready.
        if ready
        then matched db t w (type_check db.spec.connection t.spec.schema)
        else requeued 10 w)

  abbrev pub with_database : Table → World S → Option Database → Reconciled (World S)
  with_database t w none = requeued 10 w
  with_database t w (some db) =
      checked
        (wrap (lit "failed to verify database controller readiness")
          (is_database_controller_ready db w.cluster))
        w (λ ready. if ready then with_extensions db t w else requeued 10 w)

  -- reconcileTable
  unfoldable pub reconcile_table : Table → World S → Reconciled (World S)
  unfolding get_sha get_database_instance is_database_controller_ready with_extensions
  reconcile_table t w = checked (wrap (lit "failed to get instance sha") (get_sha c t)) w (λ sha.
      if t.status.last_planned_table_spec_sha == sha
      then finished w
      else checked
          (wrap (lit "failed to get database spec")
            (get_database_instance t.namespace t.spec.database w.cluster))
          w (with_database t w))

  -- isTableManagedByThisController
  unfoldable pub is_table_managed : List Text → Table → Bool
  unfolding any
  is_table_managed database_names t =
      any (λ managed. managed == t.spec.database || managed == lit "*") database_names

  -- Reconcile; a request names the object
  unfoldable pub reconcile : List Text → Text → Text → World S → Reconciled (World S)
  unfolding is_table_managed reconcile_table
  reconcile database_names namespace name w =
      checked (c.get_table namespace name w.cluster) w
        (λ t. if is_table_managed database_names t then reconcile_table t w else finished w)
