-- ===== src/Postgres/Checks/Steady.antt =====
-- When the plan for check constraints is empty, and what there is once it was executed.
use schemahero.Base.{Bool, true, List, [], ◌≡◌, ◌↔◌, ap, All, map, map-eq-nil}
use schemahero.Base.Text.{Text}
use schemahero.Schema.Dialects.{PostgresqlTableCheckConstraint}
use schemahero.Types.Names.{Digest}
use schemahero.Postgres.Names.{Pgx}
use schemahero.Postgres.Named.{is_named}
use schemahero.Postgres.Named.Converge
use schemahero.Postgres.Named.Converge.{named_changes-eq-nil_iff}
use schemahero.Postgres.Checks.{CheckConstraint, check_name, same_check, check_statements}

module _ (sha256 : Digest) (pgx : Pgx) (table_name : Text) where
  -- The first constraint of that name has an equivalent expression.
  abbrev pub IsMet : List CheckConstraint → PostgresqlTableCheckConstraint → Type 0
  IsMet currents d =
      Converge.IsMet (check_name sha256 pgx table_name) (λ (c : CheckConstraint). c.name)
        (same_check sha256 pgx) currents d

  abbrev pub is_declared : List PostgresqlTableCheckConstraint → CheckConstraint → Bool
  is_declared ds c =
      is_named (check_name sha256 pgx table_name) (λ (k : CheckConstraint). k.name)
        (same_check sha256 pgx) ds c.name

-- The plan for the check constraints of a table is empty exactly if each declared constraint is met,
-- that is, the first present one of its name has an equivalent expression, and each present constraint
-- has the name of a declared one.
pub check_plan_empty_iff :
    (sha256 : Digest) (pgx : Pgx) (table_name : Text) (ds : List PostgresqlTableCheckConstraint)
    (currents : List CheckConstraint)
    → (check_statements sha256 pgx table_name ds currents ≡ []) ↔ (
        All (IsMet sha256 pgx table_name currents) ds
        × All (λ c. is_declared sha256 pgx table_name ds c ≡ true) currents)
unfolding check_statements
check_plan_empty_iff sha256 pgx table_name ds currents =
    let changes =
      named_changes-eq-nil_iff (check_name sha256 pgx table_name) (λ (c : CheckConstraint). c.name)
        (same_check sha256 pgx) ds currents in
    (λ h. changes.0 (map-eq-nil _ _ h), λ h. ap (map _) (changes.1 h))
