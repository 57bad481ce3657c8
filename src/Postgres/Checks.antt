-- ===== src/Postgres/Checks.antt =====
-- plugins/postgres/lib/checkconstraint.go
pub mod Steady
use mathlib.Core.List.{reverse}
use schemahero.Base.{
  ℕ, ◌+◌, ◌-◌, Bool, true, false, ◌&&◌, List, [], ◌∷◌, ◌++◌, Option, none, some, any, map, beq, leb,
  length, take, drop, if◌then◌else◌,
}
use schemahero.Base.Text.{Text, lit, ◌==◌, to_lower, trim_space, has_prefix, has_suffix}
use schemahero.Base.Result.{Result, ok, ◌>>=◌}
use schemahero.Schema.Dialects.{PostgresqlTableCheckConstraint}
use schemahero.Types.Names.{Digest, generate_postgresql_check_name}
use schemahero.Types.Canonical.{canonicalize_sql_expr}
use schemahero.Postgres.Names.{Pgx, qualify_table_name}
use schemahero.Postgres.Named.{Change, named_changes}

pub record CheckConstraint : Type 0 where
  pub name : Text
  pub expression : Text

-- The loop of hasBalancedOuterParens: the bracket that brings the depth back to 0 is the last byte.
unfoldable pub closes_at_end : ℕ → Text → Bool
closes_at_end depth [] = false
closes_at_end depth (c ∷ s) =
    let opened = closes_at_end (depth + 1) s in
    let closed = closes_at_end (depth - 1) s in
    let same = closes_at_end depth s in
    if beq c b'('
    then opened
    else if beq c b')'
    then if beq depth 1 then beq (length s) 0 else closed
    else same

-- hasBalancedOuterParens
unfoldable pub has_balanced_outer_parens : Text → Bool
unfolding closes_at_end has_prefix has_suffix
has_balanced_outer_parens s =
    leb 2 (length s) && has_prefix (lit "(") s && has_suffix (lit ")") s && closes_at_end 0 s

abbrev without_keyword : Text → Text
without_keyword s =
    if leb 5 (length s) && to_lower (take 5 s) == lit "check" then trim_space (drop 5 s) else s

abbrev without_parens : Text → Text
without_parens s =
    if has_prefix (lit "(") s && has_balanced_outer_parens s
    then trim_space (take (length s - 2) (drop 1 s))
    else s

-- stripCheckWrapper
unfoldable pub strip_check_wrapper : Text → Text
unfolding has_balanced_outer_parens has_prefix to_lower trim_space
strip_check_wrapper condef = without_parens (without_keyword (trim_space condef))

-- checkExprEquivalent, on normalizeCheckExpr
unfoldable pub check_expr_equivalent : Text → Text → Bool
unfolding canonicalize_sql_expr
check_expr_equivalent a b = canonicalize_sql_expr a == canonicalize_sql_expr b

module _ (sha256 : Digest) (pgx : Pgx) where
  unfoldable pub remove_check_constraint_statement : Text → CheckConstraint → Text
  unfolding qualify_table_name
  remove_check_constraint_statement table_name c =
      lit "alter table "
      ++ qualify_table_name pgx table_name
      ++ lit " drop constraint "
      ++ pgx.sanitize (c.name ∷ [])

  unfoldable pub add_check_constraint_statement : Text → PostgresqlTableCheckConstraint → Text
  unfolding qualify_table_name generate_postgresql_check_name
  add_check_constraint_statement table_name c =
      lit "alter table "
      ++ qualify_table_name pgx table_name
      ++ lit " add constraint "
      ++ pgx.sanitize (generate_postgresql_check_name sha256 table_name c ∷ [])
      ++ lit " check ("
      ++ c.expression
      ++ lit ")"

  -- checkConstraintClause
  unfoldable pub check_constraint_clause : Text → PostgresqlTableCheckConstraint → Text
  unfolding generate_postgresql_check_name
  check_constraint_clause table_name c =
      lit "constraint "
      ++ pgx.sanitize (generate_postgresql_check_name sha256 table_name c ∷ [])
      ++ lit " check ("
      ++ c.expression
      ++ lit ")"

  abbrev pub check_name : Text → PostgresqlTableCheckConstraint → Text
  check_name table_name d = generate_postgresql_check_name sha256 table_name d

  abbrev pub same_check : PostgresqlTableCheckConstraint → CheckConstraint → Bool
  same_check d c = check_expr_equivalent d.expression c.expression

  abbrev check_statement : Text → Change PostgresqlTableCheckConstraint CheckConstraint → Text
  check_statement table_name (Change.drop c) = remove_check_constraint_statement table_name c
  check_statement table_name (Change.create d) = add_check_constraint_statement table_name d

  -- BuildCheckConstraintStatements, behind the query
  unfoldable pub check_statements :
      Text → List PostgresqlTableCheckConstraint → List CheckConstraint → List Text
  unfolding named_changes generate_postgresql_check_name check_expr_equivalent
      remove_check_constraint_statement add_check_constraint_statement
  check_statements table_name ds currents =
      map (check_statement table_name)
        (named_changes (check_name table_name) (λ c. c.name) same_check ds currents)

  -- BuildCheckConstraintStatements, over what ListTableCheckConstraints returns
  unfoldable pub build_check_constraint_statements :
      Text
      → List PostgresqlTableCheckConstraint
      → Result (List CheckConstraint)
      → Result (List Text)
  unfolding check_statements
  build_check_constraint_statements table_name ds listed = do
    currents ← listed
    ok (check_statements table_name ds currents)
