-- ===== src/Controller/Table/Requeued.antt =====
-- A reconciliation that waits for something, and one that queues.
use schemahero.Base.{ℕ, Bool, true, false, List, Option, none, some, ◌≡◌, refl, if◌then◌else◌}
use schemahero.Base.Text.{Text, lit, ◌==◌}
use schemahero.Base.Result.{Result, ok, err, wrap}
use schemahero.Schema.Table.{Table}
use schemahero.Schema.Database.{Database}
use schemahero.Mysql.Deploy.Execute.{Executed, done, stopped}
use schemahero.Controller.Batch.{BatchManager, queue_table}
use schemahero.Controller.Table.{TableCluster, get_sha, plan}
use schemahero.Controller.Table.Reconcile.{
  World, Reconciled, finished, requeued, gave_up, panicked, checked, type_check,
  get_database_instance, is_database_controller_ready, extensions_ready, planned_world,
  queued_or_planned, queue_or_plan, matched, with_extensions, with_database, reconcile_table,
  is_table_managed, reconcile,
}

-- Requeued, then after ten seconds and in the same state.
abbrev IsPatient : {W : Type 0} → W → Reconciled W → Type 0
IsPatient w (finished w') = Unit
IsPatient w (requeued n w') = (n ≡ 10) × (w' ≡ w)
IsPatient w (gave_up e w') = Unit
IsPatient w (panicked w') = Unit

checked-IsPatient {ℓ} :
    {W : Type 0} {A : Type ℓ} (r : Result A) (w : W) (next : A → Reconciled W)
    → ((a : A) → IsPatient w (next a))
    → IsPatient w (checked r w next)
checked-IsPatient (ok a) w next h = h a
checked-IsPatient (err e) w next h = tt

if-IsPatient :
    {W : Type 0} (b : Bool) (w : W) (x y : Reconciled W)
    → IsPatient w x
    → IsPatient w y
    → IsPatient w (if b then x else y)
if-IsPatient true w x y h k = h
if-IsPatient false w x y h k = k

module _ {S Connection : Type 0} (c : TableCluster S Connection) where
  planned_world-IsPatient :
      (w : World S) (manager : BatchManager) (o : Executed S)
      → IsPatient w (planned_world c manager o)
  planned_world-IsPatient w manager (done s) = tt
  planned_world-IsPatient w manager (stopped e s) = tt

  queued_or_planned-IsPatient :
      (db : Database) (t : Table) (w : World S) (queued : Bool × BatchManager)
      → IsPatient w (queued_or_planned c db t w queued)
  queued_or_planned-IsPatient db t w (true, manager) = tt
  queued_or_planned-IsPatient db t w (false, manager) =
      planned_world-IsPatient w manager (plan c db t w.cluster)

  queue_or_plan-IsPatient :
      (db : Database) (t : Table) (w : World S) → IsPatient w (queue_or_plan c db t w)
  unfolding queue_or_plan
  queue_or_plan-IsPatient db t w =
      checked-IsPatient (wrap (lit "failed to get table sha") (get_sha c t)) w _
        (λ sha. queued_or_planned-IsPatient db t w (queue_table db t (c.now w.cluster) w.manager))

  matched-IsPatient :
      (db : Database) (t : Table) (w : World S) (o : Option Bool) → IsPatient w (matched c db t w o)
  matched-IsPatient db t w none = tt
  matched-IsPatient db t w (some true) = queue_or_plan-IsPatient db t w
  matched-IsPatient db t w (some false) = tt

  with_extensions-IsPatient :
      (db : Database) (t : Table) (w : World S) → IsPatient w (with_extensions c db t w)
  unfolding with_extensions
  with_extensions-IsPatient db t w =
      checked-IsPatient (extensions_ready c t.namespace t.spec.requires w.cluster) w _ (λ ready.
        if-IsPatient ready w _ _
          (matched-IsPatient db t w (type_check db.spec.connection t.spec.schema)) (refl, refl))

  with_database-IsPatient :
      (t : Table) (w : World S) (found : Option Database) → IsPatient w (with_database c t w found)
  with_database-IsPatient t w none = (refl, refl)
  with_database-IsPatient t w (some db) =
      checked-IsPatient
        (wrap (lit "failed to verify database controller readiness")
          (is_database_controller_ready c db w.cluster))
        w _ (λ ready. if-IsPatient ready w _ _ (with_extensions-IsPatient db t w) (refl, refl))

  reconcile_table-IsPatient : (t : Table) (w : World S) → IsPatient w (reconcile_table c t w)
  unfolding reconcile_table
  reconcile_table-IsPatient t w =
      checked-IsPatient (wrap (lit "failed to get instance sha") (get_sha c t)) w _ (λ sha.
        if-IsPatient (t.status.last_planned_table_spec_sha == sha) w _ _ tt (
          checked-IsPatient
            (wrap (lit "failed to get database spec")
              (get_database_instance c t.namespace t.spec.database w.cluster))
            w _ (with_database-IsPatient t w)))

-- A reconciliation of a table that is to be repeated leaves the cluster and the batches as they are,
-- and is repeated after ten seconds.
pub reconcile-requeued :
    {S Connection : Type 0} (c : TableCluster S Connection) (database_names : List Text)
    (namespace name : Text) (w w' : World S) (seconds : ℕ)
    → reconcile c database_names namespace name w ≡ requeued seconds w'
    → (seconds ≡ 10) × (w' ≡ w)
unfolding reconcile
reconcile-requeued c database_names namespace name w w' seconds h =
    let waiting =
      checked-IsPatient (c.get_table namespace name w.cluster) w
        (λ t. if is_table_managed c database_names t then reconcile_table c t w else finished w)
        (λ t.
          if-IsPatient (is_table_managed c database_names t) w _ _ (reconcile_table-IsPatient c t w)
            tt) in
    rw h at waiting
