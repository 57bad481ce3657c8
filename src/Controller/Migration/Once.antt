-- ===== src/Controller/Migration/Once.antt =====
-- A migration is executed once: what a reconciliation leaves behind when it succeeds.
use mathlib.Core.Bool.{and-false}
use schemahero.Base.{
  ℕ, zero, suc, ◌<◌, false, List, ◌++◌, ◌≡◌, ◌⊎◌, inl, inr, refl, sym, ap, ◌∙◌, arith, Bool-cases,
  if_same,
}
use schemahero.Base.Text.{Text, lit}
use schemahero.Base.Text.Number.{pos}
use schemahero.Base.Result.{ok, wrap}
use schemahero.Schema.Migration.{Migration}
use schemahero.Mysql.Deploy.Execute.{done}
use schemahero.Database.Ddl.{get_statements_from_ddl}
use schemahero.Database.Apply.{apply_sync}
use schemahero.Controller.Outcomes.{
  Result-cases, with_result-eq-done, wrap-eq-ok, done_inj, stopped_not_done, continue-eq-done,
}
use schemahero.Controller.Migration.{
  Cluster, should_apply_migration, is_conflict, mark_executed, mark_time, wrap_stop,
  get_database_from_migration, apply_and_record, execute_on, update_again, record_execution,
  execute_migration, reconcile_migration, is_managed, reconcile,
}

-- What the API server and the clock promise: an object is read back as it was last written, with a
-- version of the server's own, a get returns the object that it names, and the time is after 1970.
pub record Stores {S Database Connection : Type 0} (c : Cluster S Database Connection)
    : Type 0 where
  pub updated :
      (m : Migration) (s s' : S)
      → c.update_migration m s ≡ ok s'
      → (v : ℕ) × (c.get_migration m.namespace m.name s' ≡ ok (record m { resource_version = v }))
  pub named :
      (namespace name : Text) (s : S) (m : Migration)
      → c.get_migration namespace name s ≡ ok m
      → (m.namespace ≡ namespace) × (m.name ≡ name)
  pub clock : (s : S) → 0 < c.now s

module _ {S Database Connection : Type 0} (c : Cluster S Database Connection)
    (laws : Stores c) where
  -- The object is there and is not to be applied.
  abbrev IsSettled : Text → Text → S → Type 0
  IsSettled namespace name s =
      (m : Migration) × (c.get_migration namespace name s ≡ ok m)
      × (should_apply_migration m ≡ false)

  executed-settled :
      (m : Migration) (t : ℕ)
      → 0 < t
      → m.status.executed_at ≡ pos t
      → should_apply_migration m ≡ false
  unfolding should_apply_migration
  executed-settled m zero h e = absurd (omega arith)
  executed-settled m (suc t) h e = rw (e, and-false) refl

  updated-IsSettled :
      (m : Migration) (t : ℕ) (s s' : S)
      → 0 < t
      → m.status.executed_at ≡ pos t
      → c.update_migration m s ≡ ok s'
      → IsSettled m.namespace m.name s'
  updated-IsSettled m t s s' h e written =
      let (v, read) = laws.updated m s s' written in
      (record m { resource_version = v }, read, executed-settled _ t h e)

  update_again-IsSettled :
      (m : Migration) (s s' : S) → update_again c m s ≡ done s' → IsSettled m.namespace m.name s'
  unfolding update_again
  update_again-IsSettled m s s' h =
      let (u, got, h') = with_result-eq-done _ s _ h in
      let update = wrap (lit "failed to update") (c.update_migration (mark_time (c.now s) u) s) in
      let (w, written, e) = with_result-eq-done update s (λ v. done v) h' in
      let (same_namespace, same_name) = laws.named m.namespace m.name s u (wrap-eq-ok _ _ got) in
      let settled =
        updated-IsSettled (mark_time (c.now s) u) (c.now s) s s' (laws.clock s) refl
          (wrap-eq-ok _ _ written ∙ ap ok (done_inj e)) in
      rw (sym same_namespace, sym same_name) settled

  record_execution-IsSettled :
      (m : Migration) (s s' : S)
      → record_execution c m s ≡ done s'
      → IsSettled m.namespace m.name s'
  unfolding record_execution
  record_execution-IsSettled m s s' h =
      elim (Result-cases (c.update_migration (mark_executed (c.now s) m) s)) [
        | inl (w, written) ↦
            updated-IsSettled (mark_executed (c.now s) m) (c.now s) s s' (laws.clock s) refl
              (written ∙ ap ok (done_inj (rw written at h)))
        | inr (e, refused) ↦ elim (Bool-cases (is_conflict e)) [
          | inl again ↦ update_again-IsSettled m s s' (rw (refused, again) at h)
          | inr other ↦ absurd (stopped_not_done (rw (refused, other) at h))
        ]
      ]

  apply_and_record-IsSettled :
      (m : Migration) (s s' : S) (details : Text × Text)
      → apply_and_record c m s details ≡ done s'
      → IsSettled m.namespace m.name s'
  unfolding apply_and_record
  apply_and_record-IsSettled m s s' (driver, uri) h =
      let applied =
        wrap_stop (lit "failed to apply statements")
          (apply_sync c.plugins driver uri (get_statements_from_ddl m.spec.generated_ddl) s) in
      let (u, _, recorded) = continue-eq-done applied (record_execution c m) h in
      record_execution-IsSettled m u s' recorded

  execute_migration-IsSettled :
      (m : Migration) (s s' : S)
      → execute_migration c m s ≡ done s'
      → IsSettled m.namespace m.name s'
  unfolding execute_migration execute_on
  execute_migration-IsSettled m s s' h =
      let found =
        wrap (lit "failed to get database from migration " ++ m.name)
          (get_database_from_migration c m s) in
      let (database, _, h') = with_result-eq-done found s (execute_on c m s) h in
      let connected =
        wrap (lit "failed to get connection details for database") (c.get_connection database s) in
      let (details, _, h'') = with_result-eq-done connected s (apply_and_record c m s) h' in
      apply_and_record-IsSettled m s s' details h''

  reconcile_migration-cases :
      (m : Migration) (s s' : S)
      → reconcile_migration c m s ≡ done s'
      → (s ≡ s') ⊎ IsSettled m.namespace m.name s'
  unfolding reconcile_migration
  reconcile_migration-cases m s s' h = elim (Bool-cases (should_apply_migration m)) [
    | inl applies ↦ inr (execute_migration-IsSettled m s s' (rw applies at h))
    | inr not_now ↦ inl (done_inj (rw not_now at h))
  ]

  reconcile-cases :
      (database_names : List Text) (namespace name : Text) (s s' : S)
      → reconcile c database_names namespace name s ≡ done s'
      → (s ≡ s') ⊎ IsSettled namespace name s'
  unfolding reconcile
  reconcile-cases database_names namespace name s s' h =
      elim (Result-cases (c.get_migration namespace name s)) [
        | inr (e, missing) ↦ absurd (stopped_not_done (rw missing at h))
        | inl (m, read) ↦ elim (Bool-cases (is_managed c database_names m)) [
          | inr unmanaged ↦ inl (done_inj (rw (read, unmanaged) at h))
          | inl managed ↦
              let (same_namespace, same_name) = laws.named namespace name s m read in
              rw (sym same_namespace, sym same_name)
                (reconcile_migration-cases m s s' (rw (read, managed) at h))
        ]
      ]

-- Where the migration that is read is not approved or has a time of execution, reconciling succeeds
-- and leaves the state of the cluster as it is.
pub reconcile-settled :
    {S Database Connection : Type 0} (c : Cluster S Database Connection)
    (database_names : List Text) (namespace name : Text) (s : S) (m : Migration)
    → c.get_migration namespace name s ≡ ok m
    → should_apply_migration m ≡ false
    → reconcile c database_names namespace name s ≡ done s
unfolding reconcile reconcile_migration
reconcile-settled c database_names namespace name s m read settled =
    rw (read, settled) (if_same (is_managed c database_names m) (done s))

-- Where the API server and the clock keep the laws of `Stores`: if a reconciliation succeeds, then
-- the same reconciliation from the state that it leaves succeeds too and leaves that state as it is.
pub reconcile-again :
    {S Database Connection : Type 0} (c : Cluster S Database Connection) (laws : Stores c)
    (database_names : List Text) (namespace name : Text) (s s' : S)
    → reconcile c database_names namespace name s ≡ done s'
    → reconcile c database_names namespace name s' ≡ done s'
reconcile-again c laws database_names namespace name s s' h =
    elim (reconcile-cases c laws database_names namespace name s s' h) [
      | inl same ↦ rw same at h
      | inr (m, read, settled) ↦ reconcile-settled c database_names namespace name s' m read settled
    ]
