-- ===== src/Postgres/Security.antt =====
-- plugins/postgres/lib/rls.go, and BuildRowLevelSecurityStatements of deploy.go
pub mod Steady
use schemahero.Base.{
  Bool, true, false, not, ◌&&◌, List, [], ◌∷◌, ◌++◌, Option, none, some, any, if◌then◌else◌,
}
use schemahero.Base.Text.{Text, lit, ◌==◌, is_empty, to_lower, to_upper, trim_space, join}
use schemahero.Base.Result.{Result, ok, err, failed, wrap, ◌>>=◌}
use schemahero.Mysql.AlterStatements.{quote}
use schemahero.Schema.Dialects.{PostgresqlTablePolicy}
use schemahero.Schema.Postgresql.{PostgresqlTableRowLevelSecurity}
use schemahero.Types.Policies.{
  RowLevelSecurity, Policy, attributes_equal, postgresql_schema_policy_to_policy,
}
use schemahero.Postgres.Names.{Pgx, qualify_table_name, sanitize_array}

-- rowSecurityToggleStatement; nothing is emitted where the empty text is returned
unfoldable pub row_security_toggle_statement :
    Text → Text → Bool → Text → Text → (Text → Bool → Text) → Result Text
unfolding to_lower trim_space
row_security_toggle_statement table_name desired current on_word off_word build =
    let word = to_lower (trim_space desired) in
    if is_empty word
    then ok []
    else if word == on_word
    then ok (if current then [] else build table_name true)
    else if word == off_word
    then ok (if current then build table_name false else [])
    else err (
        failed (
          lit "invalid rowLevelSecurity toggle "
          ++ quote desired
          ++ lit " (want "
          ++ quote on_word
          ++ lit ", "
          ++ quote off_word
          ++ lit ", or empty)"))

abbrev unless_empty : Text → List Text
unless_empty [] = []
unless_empty (c ∷ s) = (c ∷ s) ∷ []

abbrev pub policy_named : Text → List Policy → Option Policy
policy_named name [] = none
policy_named name (p ∷ ps) = if p.name == name then some p else policy_named name ps

abbrev expression_clause : Text → Option Text → Text
expression_clause keyword none = []
expression_clause keyword (some e) = keyword ++ lit " (" ++ e ++ lit ")"

abbrev to_clause : List Text → Text
to_clause [] = []
to_clause (r ∷ roles) = lit " to " ++ join (lit ", ") (r ∷ roles)

module _ (pgx : Pgx) where
  unfoldable pub enable_row_level_security_statement : Text → Bool → Text
  unfolding qualify_table_name
  enable_row_level_security_statement table_name enable =
      lit "alter table "
      ++ qualify_table_name pgx table_name
      ++ lit " "
      ++ (if enable then lit "enable" else lit "disable")
      ++ lit " row level security"

  unfoldable pub force_row_level_security_statement : Text → Bool → Text
  unfolding qualify_table_name
  force_row_level_security_statement table_name force =
      lit "alter table "
      ++ qualify_table_name pgx table_name
      ++ lit " "
      ++ (if force then lit "force" else lit "no force")
      ++ lit " row level security"

  unfoldable pub remove_policy_statement : Text → Text → Text
  unfolding qualify_table_name
  remove_policy_statement table_name policy_name =
      lit "drop policy if exists "
      ++ pgx.sanitize (policy_name ∷ [])
      ++ lit " on "
      ++ qualify_table_name pgx table_name

  abbrev for_clause : Text → Text
  for_clause command =
      if is_empty command
      then []
      else if command == lit "ALL"
      then []
      else lit " for " ++ to_lower command

  unfoldable pub create_policy_statement : Text → PostgresqlTablePolicy → Text
  unfolding qualify_table_name sanitize_array to_upper trim_space to_lower join
  create_policy_statement table_name policy =
      lit "create policy "
      ++ pgx.sanitize (policy.name ∷ [])
      ++ lit " on "
      ++ qualify_table_name pgx table_name
      ++ (if to_upper (trim_space policy.permissive) == lit "RESTRICTIVE"
          then lit " as restrictive"
          else [])
      ++ for_clause (to_upper (trim_space policy.command))
      ++ to_clause (sanitize_array pgx policy.roles)
      ++ expression_clause (lit " using") policy.using
      ++ expression_clause (lit " with check") policy.with_check

  -- One round of the loop over the declared policies: the statements and the dropped names.
  abbrev pub policy_round :
      Text → PostgresqlTablePolicy → Option Policy → List Text × List Text → List Text × List Text
  policy_round table_name p none (rest, dropped) =
      (create_policy_statement table_name p ∷ rest, dropped)
  policy_round table_name p (some m) (rest, dropped) =
      if attributes_equal (some m) (some (postgresql_schema_policy_to_policy p))
      then (rest, dropped)
      else (
        remove_policy_statement table_name m.name ∷ create_policy_statement table_name p ∷ rest,
        m.name ∷ dropped,
      )

  unfoldable pub desired_policy_statements :
      Text → List Policy → List PostgresqlTablePolicy → Result (List Text × List Text)
  unfolding create_policy_statement remove_policy_statement attributes_equal
      postgresql_schema_policy_to_policy
  desired_policy_statements table_name currents [] = ok ([], [])
  desired_policy_statements table_name currents (p ∷ ps) =
      let later = desired_policy_statements table_name currents ps in
      if is_empty p.name
      then err (failed (lit "policy requires a name to be managed on an existing table"))
      else later >>= (λ rest. ok (policy_round table_name p (policy_named p.name currents) rest))

  abbrev pub is_policy_declared : List PostgresqlTablePolicy → Policy → Bool
  is_policy_declared ps c = any (λ p. p.name == c.name) ps

  -- The loop over the policies of the table
  unfoldable pub current_policy_statements :
      Text → List PostgresqlTablePolicy → List Text → List Policy → List Text
  unfolding any remove_policy_statement
  current_policy_statements table_name ps dropped [] = []
  current_policy_statements table_name ps dropped (c ∷ cs) =
      let rest = current_policy_statements table_name ps dropped cs in
      if is_policy_declared ps c
      then rest
      else if any (λ n. n == c.name) dropped
      then rest
      else remove_policy_statement table_name c.name ∷ rest

  -- Both loops over the policies
  unfoldable pub policy_statements :
      Text → List PostgresqlTablePolicy → List Policy → Result (List Text)
  unfolding desired_policy_statements current_policy_statements
  policy_statements table_name ps currents =
      desired_policy_statements table_name currents ps
      >>= (λ d. ok (d.0 ++ current_policy_statements table_name ps d.1 currents))

  abbrev managed :
      Text
      → PostgresqlTableRowLevelSecurity
      → List PostgresqlTablePolicy
      → RowLevelSecurity
      → Result (List Policy)
      → Result (List Text)
  managed table_name rls ps current listed = do
    enable ←
        row_security_toggle_statement table_name rls.enable current.enabled (lit "enable")
          (lit "disable") enable_row_level_security_statement
    force ←
        row_security_toggle_statement table_name rls.force current.forced (lit "force")
          (lit "noforce") force_row_level_security_statement
    currents ← wrap (lit "failed to list table policies") listed
    statements ← policy_statements table_name ps currents
    ok (unless_empty enable ++ unless_empty force ++ statements)

  -- BuildRowLevelSecurityStatements, over what GetTableRowSecurity and ListTablePolicies return
  unfoldable pub build_row_level_security_statements :
      Text
      → Option PostgresqlTableRowLevelSecurity
      → List PostgresqlTablePolicy
      → Result RowLevelSecurity
      → Result (List Policy)
      → Result (List Text)
  unfolding row_security_toggle_statement enable_row_level_security_statement
      force_row_level_security_statement policy_statements
  build_row_level_security_statements table_name none ps read listed = ok []
  build_row_level_security_statements table_name (some rls) ps read listed = do
    current ← wrap (lit "failed to get current row level security") read
    managed table_name rls ps current listed
