-- ===== src/Controller/Migration.antt =====
-- pkg/controller/migration: reconcile_migration.go, migration_controller.go and lookup.go. The API
-- server, the clock and the connection string of a database are parameters: operations on a state of
-- the cluster and of the databases in it.
pub mod Once
pub mod Conflict
use schemahero.Base.{
  ℕ, zero, suc, Bool, true, false, ◌&&◌, ◌||◌, List, [], ◌∷◌, ◌++◌, if◌then◌else◌, any,
}
use schemahero.Base.Text.{Text, lit, ◌==◌}
use schemahero.Base.Text.Number.{ℤ, pos, negsuc}
use schemahero.Base.Result.{
  Error, Result, ok, err, failed, wrapped, bad_number, refused, not_found, conflict, wrap, ◌>>=◌,
}
use schemahero.Schema.Migration.{Migration, MigrationStatus, executed}
use schemahero.Mysql.Deploy.Execute.{Executed, done, stopped, continue}
use schemahero.Database.Ddl.{get_statements_from_ddl}
use schemahero.Database.Apply.{Plugins, apply_sync}

-- A table or a view: its metadata and the name of its database.
pub record Resource : Type 0 where
  pub name : Text
  pub namespace : Text
  pub database : Text

-- What the controller asks of the cluster. A get takes the namespace first.
pub record Cluster (S Database Connection : Type 0) : Type 0 where
  pub plugins : Plugins S Connection
  pub schemas_client : S → Result {0} Unit
  pub databases_client : S → Result {0} Unit
  pub get_table : Text → Text → S → Result Resource
  pub get_view : Text → Text → S → Result Resource
  pub get_database : Text → Text → S → Result Database
  pub get_connection : Database → S → Result (Text × Text)
  pub get_migration : Text → Text → S → Result Migration
  pub update_migration : Migration → S → Result S
  pub now : S → ℕ

abbrev is_positive : ℤ → Bool
is_positive (pos zero) = false
is_positive (pos (suc n)) = true
is_positive (negsuc n) = false

abbrev is_zero : ℤ → Bool
is_zero (pos zero) = true
is_zero (pos (suc n)) = false
is_zero (negsuc n) = false

-- shouldApplyMigration
unfoldable pub should_apply_migration : Migration → Bool
should_apply_migration m = is_positive m.status.approved_at && is_zero m.status.executed_at

-- IsNotFound looks through the wrapped errors.
unfoldable pub is_not_found : Error → Bool
is_not_found (failed t) = false
is_not_found (wrapped t e) = is_not_found e
is_not_found (bad_number t) = false
is_not_found (refused t) = false
is_not_found not_found = true
is_not_found conflict = false

unfoldable pub is_conflict : Error → Bool
is_conflict (failed t) = false
is_conflict (wrapped t e) = is_conflict e
is_conflict (bad_number t) = false
is_conflict (refused t) = false
is_conflict not_found = false
is_conflict conflict = true

abbrev pub with_result {ℓ} :
    {S : Type 0} {A : Type ℓ} → Result A → S → (A → Executed S) → Executed S
with_result (ok a) s next = next a
with_result (err e) s next = stopped e s

abbrev pub wrap_stop : {S : Type 0} → Text → Executed S → Executed S
wrap_stop msg (done s) = done s
wrap_stop msg (stopped e s) = stopped (wrapped msg e) s

abbrev pub mark_executed : ℕ → Migration → Migration
mark_executed t m = record m { status = record m.status { executed_at = pos t; phase = executed } }

-- The object that the retry writes: read again, with the time of execution. The phase is set in the
-- object that was read first, which is not written.
abbrev pub mark_time : ℕ → Migration → Migration
mark_time t m = record m { status = record m.status { executed_at = pos t } }

module _ {S Database Connection : Type 0} (c : Cluster S Database Connection) where
  -- TableFromMigration
  unfoldable pub table_from_migration : Migration → S → Result Resource
  table_from_migration m s = do
    _ ← wrap (lit "failed to get schemas client") (c.schemas_client s)
    wrap (lit "failed to get table") (c.get_table m.spec.table_namespace m.spec.table_name s)

  -- ViewFromMigration
  unfoldable pub view_from_migration : Migration → S → Result Resource
  view_from_migration m s = do
    _ ← wrap (lit "failed to get schemas client") (c.schemas_client s)
    wrap (lit "failed to get view") (c.get_view m.spec.table_namespace m.spec.table_name s)

  -- DatabaseFromTable and DatabaseFromView
  unfoldable pub database_from : Resource → S → Result Database
  database_from t s = do
    _ ← wrap (lit "failed to get databases client") (c.databases_client s)
    wrap (lit "failed to get database") (c.get_database t.namespace t.database s)

  unfoldable pub database_of_view : Migration → S → Result Database
  unfolding view_from_migration database_from
  database_of_view m s = do
    view ← wrap (lit "failed to get view") (view_from_migration m s)
    wrap (lit "failed to get database from view " ++ view.name) (database_from view s)

  abbrev database_of_table : Migration → S → Result Resource → Result Database
  database_of_table m s (ok table) =
      wrap (lit "failed to get database from table " ++ table.name) (database_from table s)
  database_of_table m s (err e) =
      if is_not_found e then database_of_view m s else err (wrapped (lit "failed to get table") e)

  -- getDatabaseFromMigration
  unfoldable pub get_database_from_migration : Migration → S → Result Database
  unfolding table_from_migration database_of_view is_not_found
  get_database_from_migration m s = database_of_table m s (table_from_migration m s)

  unfoldable pub update_again : Migration → S → Executed S
  update_again m s =
      with_result
        (wrap (lit "failed to get updated instance") (c.get_migration m.namespace m.name s)) s
        (λ updated.
          with_result
            (wrap (lit "failed to update") (c.update_migration (mark_time (c.now s) updated) s)) s
            (λ s'. done s'))

  abbrev after_update : Migration → S → Result S → Executed S
  after_update m s (ok s') = done s'
  after_update m s (err e) =
      if is_conflict e then update_again m s else stopped (wrapped (lit "failed to update") e) s

  -- The status update behind the execution.
  unfoldable pub record_execution : Migration → S → Executed S
  unfolding update_again is_conflict
  record_execution m s = after_update m s (c.update_migration (mark_executed (c.now s) m) s)

  -- ApplySync, and the status update behind it.
  unfoldable pub apply_and_record : Migration → S → Text × Text → Executed S
  unfolding record_execution
  apply_and_record m s (driver, uri) =
      continue
        (wrap_stop (lit "failed to apply statements")
          (apply_sync c.plugins driver uri (get_statements_from_ddl m.spec.generated_ddl) s))
        (record_execution m)

  unfoldable pub execute_on : Migration → S → Database → Executed S
  unfolding apply_and_record
  execute_on m s database =
      with_result
        (wrap (lit "failed to get connection details for database") (c.get_connection database s)) s
        (apply_and_record m s)

  -- reconcileMigration, behind its guard
  unfoldable pub execute_migration : Migration → S → Executed S
  unfolding get_database_from_migration execute_on
  execute_migration m s =
      with_result
        (wrap (lit "failed to get database from migration " ++ m.name)
          (get_database_from_migration m s))
        s (execute_on m s)

  -- reconcileMigration
  unfoldable pub reconcile_migration : Migration → S → Executed S
  unfolding execute_migration
  reconcile_migration m s = if should_apply_migration m then execute_migration m s else done s

  -- isMigrationManagedByThisController
  unfoldable pub is_managed : List Text → Migration → Bool
  is_managed database_names m = any (λ d. d == m.spec.database_name || d == lit "*") database_names

  -- Reconcile; a request names the object
  unfoldable pub reconcile : List Text → Text → Text → S → Executed S
  unfolding is_managed reconcile_migration
  reconcile database_names namespace name s =
      with_result (c.get_migration namespace name s) s
        (λ m. if is_managed database_names m then reconcile_migration m s else done s)
