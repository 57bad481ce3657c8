-- ===== src/Controller/Table/Together.antt =====
-- The migration of a batch against the plans of its tables.
use mathlib.Core.List.{append_assoc, append-nil}
use schemahero.Base.{◌<◌, List, [], ◌∷◌, ◌++◌, ◌≡◌, inl, inr, refl, sym, ap, ◌∙◌, All}
use schemahero.Base.Text.{Text, lit}
use schemahero.Base.Result.{Result, ok, err, wrap}
use schemahero.Schema.Migration.{Migration}
use schemahero.Schema.Table.{Table}
use schemahero.Schema.Database.{Database}
use schemahero.Mysql.Deploy.Execute.{done}
use schemahero.Database.Ddl.{get_statements_from_ddl}
use schemahero.Database.Ddl.RoundTrip.{IsLine, terminated, get_statements_from_ddl-join}
use schemahero.Database.Plan.{Target}
use schemahero.Controller.Migration.{should_apply_migration}
use schemahero.Controller.Outcomes.{Result-cases, continue-eq-done, done_inj, stopped_not_done}
use schemahero.Controller.Table.{
  TableCluster, target_of, mark_planned, get_sha, table_statements, store_migration,
}
use schemahero.Controller.Table.Batched.{
  Collected, nothing_collected, marked, mark_or_log, mark_all, round, collect_batch,
  batch_migration, deploy_batch, plan_batch_on, plan_batch,
}
use schemahero.Controller.Table.Planned.{
  TableStores, IsStored, store_migration-IsStored, should_apply-planned,
}

-- The statements of a table, none where it cannot be planned.
abbrev pub statements_or_none : Result (List Text) → List Text
statements_or_none (ok statements) = statements
statements_or_none (err e) = []

-- The plans of the tables in one state, one after the other.
unfoldable pub joined_plans :
    {S Connection : Type 0}
    → TableCluster S Connection
    → Database
    → Target
    → S
    → List Table
    → List Text
joined_plans c db target s [] = []
joined_plans c db target s (t ∷ tables) =
    statements_or_none (table_statements c db target t s) ++ joined_plans c db target s tables

-- Writing the status of a table changes no answer of the planner.
pub record Unobserved {S Connection : Type 0} (c : TableCluster S Connection) : Type 0 where
  pub planner_apart :
      (t : Table) (s s' : S) → c.update_table_status t s ≡ ok s' → c.planner s' ≡ c.planner s

module _ {S Connection : Type 0} (c : TableCluster S Connection) (apart : Unobserved c) where
  table_statements-of_planner :
      (db : Database) (target : Target) (t : Table) (s s' : S)
      → c.planner s' ≡ c.planner s
      → table_statements c db target t s' ≡ table_statements c db target t s
  unfolding table_statements
  table_statements-of_planner db target t s s' e = rw e refl

  marked-planner : (t : Table) (s : S) (r : Result Text) → c.planner (marked c t s r) ≡ c.planner s
  marked-planner t s (err e) = refl
  marked-planner t s (ok sha) = elim (Result-cases (c.update_table_status (mark_planned sha t) s)) [
    | inl (s', written) ↦ rw written (apart.planner_apart (mark_planned sha t) s s' written)
    | inr (e, failed) ↦ rw failed refl
  ]

  mark_or_log-planner : (t : Table) (s : S) → c.planner (mark_or_log c t s) ≡ c.planner s
  unfolding mark_or_log
  mark_or_log-planner t s = marked-planner t s (get_sha c t)

  joined_plans-of_planner :
      (db : Database) (target : Target) (tables : List Table) (s s' : S)
      → c.planner s' ≡ c.planner s
      → joined_plans c db target s' tables ≡ joined_plans c db target s tables
  unfolding joined_plans
  joined_plans-of_planner db target [] s s' e = refl
  joined_plans-of_planner db target (t ∷ tables) s s' e =
      rw
        (
          table_statements-of_planner db target t s s' e,
          joined_plans-of_planner db target tables s s' e,
        )
        refl

  -- The loop behind one round, where the theorem holds of the tables that are left.
  round-joined_plans :
      (db : Database) (target : Target) (t : Table) (tables : List Table) (a : Collected) (s : S)
      (r : Result (List Text))
      → ((b : Collected) (u : S)
          → (collect_batch c db target tables b u).0.all_statements
            ≡ b.all_statements ++ joined_plans c db target u tables)
      → (collect_batch c db target tables (round c t s r a).0 (round c t s r a).1).0.all_statements
        ≡ a.all_statements ++ statements_or_none r ++ joined_plans c db target s tables
  round-joined_plans db target t tables a s (err e) later =
      rw (append-nil a.all_statements) (later a s)
  round-joined_plans db target t tables a s (ok []) later = rw (append-nil a.all_statements) (
      later a (mark_or_log c t s)
      ∙ ap (λ plans. a.all_statements ++ plans)
          (joined_plans-of_planner db target tables s (mark_or_log c t s)
            (mark_or_log-planner t s)))
  round-joined_plans db target t tables a s (ok (x ∷ statements)) later =
      later (round c t s (ok (x ∷ statements)) a).0 s

  collect_batch-joined_plans :
      (db : Database) (target : Target) (tables : List Table) (a : Collected) (s : S)
      → (collect_batch c db target tables a s).0.all_statements
        ≡ a.all_statements ++ joined_plans c db target s tables
  unfolding collect_batch joined_plans
  collect_batch-joined_plans db target [] a s = sym (append-nil a.all_statements)
  collect_batch-joined_plans db target (t ∷ tables) a s =
      round-joined_plans db target t tables a s (table_statements c db target t s)
        (collect_batch-joined_plans db target tables)
      ∙ append_assoc a.all_statements (statements_or_none (table_statements c db target t s))
          (joined_plans c db target s tables)

module _ {S Connection : Type 0} (c : TableCluster S Connection) (laws : TableStores c) where
  mark_or_log-IsStored :
      (t : Table) (m : Migration) (s : S)
      → IsStored c laws m s
      → IsStored c laws m (mark_or_log c t s)
  unfolding mark_or_log
  mark_or_log-IsStored t m s stored = elim (Result-cases (get_sha c t)) [
    | inr (e, failed) ↦ rw failed stored
    | inl (sha, is) ↦ elim (Result-cases (c.update_table_status (mark_planned sha t) s)) [
      | inr (e, refused) ↦ rw (is, refused) stored
      | inl (s', written) ↦
          let (there, at, same_spec, same_status) = stored in
          rw (is, written)
            (
              there,
              laws.status_apart (mark_planned sha t) s s' m.namespace m.name written ∙ at,
              same_spec,
              same_status,
            )
    ]
  ]

  mark_all-IsStored :
      (tables : List Table) (m : Migration) (s : S)
      → IsStored c laws m s
      → IsStored c laws m (mark_all c tables s)
  unfolding mark_all
  mark_all-IsStored [] m s stored = stored
  mark_all-IsStored (t ∷ tables) m s stored =
      mark_all-IsStored tables m (mark_or_log c t s) (mark_or_log-IsStored t m s stored)

  deploy_batch-IsStored :
      (db : Database) (a : Collected) (s s' : S) (x : Text) (statements : List Text)
      (tables : List Table)
      → deploy_batch c db a s (x ∷ statements) tables ≡ done s'
      → (primary : Table) × IsStored c laws (batch_migration c db primary a s) s'
  deploy_batch-IsStored db a s s' x statements [] h = absurd (stopped_not_done h)
  deploy_batch-IsStored db a s s' x statements (primary ∷ tables) h =
      let m = batch_migration c db primary a s in
      let owner = wrap (lit "failed to set owner on migration") (c.own_by_database db m s) in
      let (u, stored, marked) =
        continue-eq-done (store_migration c owner m s) (λ v. done (mark_all c (primary ∷ tables) v))
          h in
      (
        primary,
        rw (sym (done_inj marked)) (
            mark_all-IsStored (primary ∷ tables) m u
              (store_migration-IsStored c laws owner m s u stored)),
      )

plan_batch-deployed :
    {S Connection : Type 0} (c : TableCluster S Connection) (db : Database) (tables : List Table)
    (s s' : S) (details : Text × Text)
    → c.get_connection db s ≡ ok details
    → plan_batch c db tables s ≡ done s'
    → (a : Collected) × (u : S) × ((a, u)
        ≡ collect_batch c db (target_of db details) tables nothing_collected s)
      × (deploy_batch c db a u a.all_statements a.processed_tables ≡ done s')
unfolding plan_batch plan_batch_on
plan_batch-deployed c db tables s s' details connected h =
    let (a, u) = collect_batch c db (target_of db details) tables nothing_collected s in
    (a, u, refl, rw connected at h)

-- Where the API server keeps the laws of `TableStores`, status updates are `Unobserved` by the planner
-- and the clock is past 1970: if the plans of the tables of a batch, one after the other, are statements
-- that are each a single line as `IsLine` says, a table that cannot be planned having none, and
-- planning the batch succeeds, then a migration of a name that begins with "batch-" is stored in the
-- namespace of the database. The controller of migrations splits its text into these statements in the
-- same order, each but the last with its semicolon, and applies it at once exactly where the database
-- is deployed immediately.
pub plan_batch-get_statements_from_ddl :
    {S Connection : Type 0} (c : TableCluster S Connection) (laws : TableStores c)
    (apart : Unobserved c) (db : Database) (tables : List Table) (s s' : S) (details : Text × Text)
    (x : Text) (statements : List Text)
    → ((u : S) → 0 < c.now u)
    → c.get_connection db s ≡ ok details
    → joined_plans c db (target_of db details) s tables ≡ x ∷ statements
    → All IsLine (x ∷ statements)
    → plan_batch c db tables s ≡ done s'
    → (id : Text) × (m : Migration) × (c.get_migration db.namespace (lit "batch-" ++ id) s' ≡ ok m)
      × (get_statements_from_ddl m.spec.generated_ddl ≡ terminated (x ∷ statements))
      × (should_apply_migration m ≡ db.spec.immediate_deploy)
unfolding batch_migration
plan_batch-get_statements_from_ddl c laws apart db tables s s' details x statements clock connected
      planned lines success =
    let (a, u, collected, deployed) =
      plan_batch-deployed c db tables s s' details connected success in
    let all =
      ap (λ p. p.0.all_statements) collected
      ∙ collect_batch-joined_plans c apart db (target_of db details) tables nothing_collected s
      ∙ planned in
    let (primary, (m, there, same_spec, same_status)) =
      deploy_batch-IsStored c laws db a u s' x statements a.processed_tables (rw all at deployed) in
    (
      _,
      m,
      there,
      rw (same_spec, all) (get_statements_from_ddl-join (x ∷ statements) lines),
      should_apply-planned m db (c.now u) (clock u) same_status,
    )
