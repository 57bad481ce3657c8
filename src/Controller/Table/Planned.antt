-- ===== src/Controller/Table/Planned.antt =====
-- What a plan of a table leaves behind, when it succeeds and when the status of the table is refused.
use schemahero.Base.{
  ℕ, zero, suc, ◌<◌, List, ◌∷◌, take, ◌≡◌, inl, inr, refl, sym, ap, ◌∙◌, All, arith, Bool-cases,
}
use schemahero.Base.Text.{Text, lit}
use schemahero.Base.Result.{Error, Result, ok, err, wrap, wrapped}
use schemahero.Schema.Migration.{Migration}
use schemahero.Schema.Table.{Table}
use schemahero.Schema.Database.{Database}
use schemahero.Mysql.Deploy.Execute.{done, stopped}
use schemahero.Database.Ddl.{get_statements_from_ddl}
use schemahero.Database.Ddl.RoundTrip.{IsLine, terminated, get_statements_from_ddl-join}
use schemahero.Controller.Migration.{should_apply_migration, is_not_found}
use schemahero.Controller.Outcomes.{
  Result-cases, with_result-eq-done, wrap-eq-ok, done_inj, stopped_not_done, continue-eq-done,
}
use schemahero.Controller.Table.{
  TableCluster, of_result, target_of, planned_status, mark_planned, get_sha, table_statements,
  store_migration, record_plan, table_migration, deploy_plan, plan_on, plan,
}

-- What the API server promises: a migration is read back as it was last written, with a version of the
-- server's own, a get returns the object that it names, and the status of a table is no migration.
pub record TableStores {S Connection : Type 0} (c : TableCluster S Connection) : Type 0 where
  pub status_apart :
      (t : Table) (s s' : S) (namespace name : Text)
      → c.update_table_status t s ≡ ok s'
      → c.get_migration namespace name s' ≡ c.get_migration namespace name s
  pub created :
      (m : Migration) (s s' : S)
      → c.create_migration m s ≡ ok s'
      → (v : ℕ) × (c.get_migration m.namespace m.name s' ≡ ok (record m { resource_version = v }))
  pub updated :
      (m : Migration) (s s' : S)
      → c.update_migration m s ≡ ok s'
      → (v : ℕ) × (c.get_migration m.namespace m.name s' ≡ ok (record m { resource_version = v }))
  pub named :
      (namespace name : Text) (s : S) (m : Migration)
      → c.get_migration namespace name s ≡ ok m
      → (m.namespace ≡ namespace) × (m.name ≡ name)

of_result-eq-done :
    {S : Type 0} (s : S) (r : Result S) {s' : S} → of_result s r ≡ done s' → r ≡ ok s'
of_result-eq-done s (ok u) h = ap ok (done_inj h)
of_result-eq-done s (err e) h = cc

module _ {S Connection : Type 0} (c : TableCluster S Connection) (laws : TableStores c) where
  -- The migration of that name has the text and the status of another.
  abbrev pub IsStored : Migration → S → Type 0
  IsStored m s =
      (stored : Migration) × (c.get_migration m.namespace m.name s ≡ ok stored)
      × (stored.spec ≡ m.spec)
      × (stored.status ≡ m.status)

  record_plan-written :
      (t : Table) (s s' : S)
      → record_plan c t s ≡ done s'
      → (sha : Text) × (get_sha c t ≡ ok sha)
        × (c.update_table_status (mark_planned sha t) s ≡ ok s')
  unfolding record_plan
  record_plan-written t s s' h =
      let got = wrap (lit "failed to get table sha for status update") (get_sha c t) in
      let (sha, is, h') = with_result-eq-done got s _ h in
      let written = of_result-eq-done s _ h' in (sha, wrap-eq-ok _ _ is, wrap-eq-ok _ _ written)

  written_again :
      (m existing : Migration) (s s' : S)
      → c.get_migration m.namespace m.name s ≡ ok existing
      → c.update_migration (record existing { spec = m.spec; status = m.status }) s ≡ ok s'
      → IsStored m s'
  written_again m existing s s' read written =
      let (v, there) =
        laws.updated (record existing { spec = m.spec; status = m.status }) s s' written in
      let (same_namespace, same_name) = laws.named m.namespace m.name s existing read in
      (
        record existing { spec = m.spec; status = m.status; resource_version = v },
        rw (sym same_namespace, sym same_name) there,
        refl,
        refl,
      )

  pub store_migration-IsStored :
      (owner : Result {0} Unit) (m : Migration) (s s' : S)
      → store_migration c owner m s ≡ done s'
      → IsStored m s'
  unfolding store_migration
  store_migration-IsStored owner m s s' h =
      elim (Result-cases (c.get_migration m.namespace m.name s)) [
        | inl (existing, read) ↦
            written_again m existing s s' read
              (wrap-eq-ok _ _ (of_result-eq-done s _ (rw read at h)))
        | inr (e, missing) ↦ elim (Bool-cases (is_not_found e)) [
          | inr other ↦ absurd (stopped_not_done (rw (missing, other) at h))
          | inl absent ↦
              let (_, _, h') = with_result-eq-done owner s _ (rw (missing, absent) at h) in
              let (v, there) = laws.created m s s' (wrap-eq-ok _ _ (of_result-eq-done s _ h')) in
              (_, there, refl, refl)
        ]
      ]

  record_plan-IsStored :
      (t : Table) (m : Migration) (s s' : S)
      → IsStored m s
      → record_plan c t s ≡ done s'
      → IsStored m s'
  record_plan-IsStored t m s s' (stored, there, same_spec, same_status) h =
      let (sha, _, written) = record_plan-written t s s' h in
      (
        stored,
        laws.status_apart (mark_planned sha t) s s' m.namespace m.name written ∙ there,
        same_spec,
        same_status,
      )

  deploy_plan-IsStored :
      (db : Database) (t : Table) (s s' : S) (x : Text) (statements : List Text)
      → deploy_plan c db t s (x ∷ statements) ≡ done s'
      → (sha : Text) × (get_sha c t ≡ ok sha)
        × IsStored (table_migration c db t sha (x ∷ statements) s) s'
  unfolding deploy_plan
  deploy_plan-IsStored db t s s' x statements h =
      let (sha, is, h') =
        with_result-eq-done (wrap (lit "failed to get sha of table") (get_sha c t)) s _ h in
      let m = table_migration c db t sha (x ∷ statements) s in
      let owner = wrap (lit "failed to set owner on miration") (c.own_by_table t m s) in
      let (u, stored, recorded) =
        continue-eq-done (store_migration c owner m s) (record_plan c t) h' in
      (
        sha,
        wrap-eq-ok _ _ is,
        record_plan-IsStored t m u s' (store_migration-IsStored owner m s u stored) recorded,
      )

plan-deployed :
    {S Connection : Type 0} (c : TableCluster S Connection) (db : Database) (t : Table) (s s' : S)
    (details : Text × Text) (statements : List Text)
    → c.get_connection db s ≡ ok details
    → table_statements c db (target_of db details) t s ≡ ok statements
    → plan c db t s ≡ done s'
    → deploy_plan c db t s statements ≡ done s'
unfolding plan plan_on
plan-deployed c db t s s' details statements connected planned h = rw (connected, planned) at h

pub should_apply-planned :
    (m : Migration) (db : Database) (time : ℕ)
    → 0 < time
    → m.status ≡ planned_status db time
    → should_apply_migration m ≡ db.spec.immediate_deploy
unfolding should_apply_migration
should_apply-planned m db zero h e = absurd (omega arith)
should_apply-planned m db (suc time) h e = elim (Bool-cases db.spec.immediate_deploy) [
  | inl t ↦ rw (e, t) refl
  | inr f ↦ rw (e, f) refl
]

-- Where the API server keeps the laws of `TableStores` and the clock is past 1970: if a table has
-- statements to be executed, each of them a single line as `IsLine` says, and its plan succeeds, then a
-- migration is stored under the namespace of the table and the first seven digits of its digest. The
-- controller of migrations splits its text into these statements in the same order, each but the last
-- with its semicolon, and applies it at once exactly where the database is deployed immediately.
pub plan-get_statements_from_ddl :
    {S Connection : Type 0} (c : TableCluster S Connection) (laws : TableStores c) (db : Database)
    (t : Table) (s s' : S) (details : Text × Text) (x : Text) (statements : List Text)
    → 0 < c.now s
    → c.get_connection db s ≡ ok details
    → table_statements c db (target_of db details) t s ≡ ok (x ∷ statements)
    → All IsLine (x ∷ statements)
    → plan c db t s ≡ done s'
    → (sha : Text) × (m : Migration) × (get_sha c t ≡ ok sha)
      × (c.get_migration t.namespace (take 7 sha) s' ≡ ok m)
      × (get_statements_from_ddl m.spec.generated_ddl ≡ terminated (x ∷ statements))
      × (should_apply_migration m ≡ db.spec.immediate_deploy)
plan-get_statements_from_ddl c laws db t s s' details x statements h connected planned lines
      success =
    let (sha, is, (m, there, same_spec, same_status)) =
      deploy_plan-IsStored c laws db t s s' x statements
        (plan-deployed c db t s s' details (x ∷ statements) connected planned success) in
    (
      sha,
      m,
      is,
      there,
      rw same_spec (get_statements_from_ddl-join (x ∷ statements) lines),
      should_apply-planned m db (c.now s) h same_status,
    )

-- Where the API server keeps the laws of `TableStores` and the clock is past 1970: if a table has
-- statements to be executed, each of them a single line as `IsLine` says, its migration can be stored,
-- and the update of the status behind it is refused, then the plan stops with that error, wrapped. The
-- migration is stored then all the same: its text splits into the statements, and the controller of
-- migrations applies it at once exactly where the database is deployed immediately.
pub plan-refused :
    {S Connection : Type 0} (c : TableCluster S Connection) (laws : TableStores c) (db : Database)
    (t : Table) (s u : S) (details : Text × Text) (x : Text) (statements : List Text) (sha : Text)
    (e : Error)
    → 0 < c.now s
    → c.get_connection db s ≡ ok details
    → table_statements c db (target_of db details) t s ≡ ok (x ∷ statements)
    → All IsLine (x ∷ statements)
    → get_sha c t ≡ ok sha
    → store_migration c
        (wrap
          (lit "failed to set owner on miration")
          (c.own_by_table t (table_migration c db t sha (x ∷ statements) s) s))
        (table_migration c db t sha (x ∷ statements) s)
        s
      ≡ done u
    → c.update_table_status (mark_planned sha t) u ≡ err e
    → (plan c db t s ≡ stopped (wrapped (lit "failed to update table status") e) u)
      × (m : Migration) × (c.get_migration t.namespace (take 7 sha) u ≡ ok m)
      × (get_statements_from_ddl m.spec.generated_ddl ≡ terminated (x ∷ statements))
      × (should_apply_migration m ≡ db.spec.immediate_deploy)
unfolding plan plan_on deploy_plan record_plan
plan-refused c laws db t s u details x statements sha e h connected planned lines is stores
      refused =
    let (m, there, same_spec, same_status) = store_migration-IsStored c laws _ _ s u stores in
    (
      rw (connected, planned, is, stores, is, refused) refl,
      m,
      there,
      rw same_spec (get_statements_from_ddl-join (x ∷ statements) lines),
      should_apply-planned m db (c.now s) h same_status,
    )
