-- ===== src/Postgres/Security/Steady.antt =====
-- When the plan for row level security is empty.
use schemahero.Base.{
  Bool, true, false, List, [], ◌∷◌, some, ◌≡◌, ◌⊎◌, inl, inr, refl, ap, All, if_same,
}
use schemahero.Base.Text.{Text, lit, ◌==◌, is_empty, to_lower, trim_space}
use schemahero.Base.Text.Equality.{eq_refl}
use schemahero.Base.Result.{ok}
use schemahero.Schema.Dialects.{PostgresqlTablePolicy}
use schemahero.Schema.Postgresql.{PostgresqlTableRowLevelSecurity}
use schemahero.Types.Policies.{
  RowLevelSecurity, Policy, attributes_equal, postgresql_schema_policy_to_policy,
}
use schemahero.Postgres.Names.{Pgx}
use schemahero.Postgres.Security.{
  row_security_toggle_statement, policy_named, policy_round, desired_policy_statements,
  is_policy_declared, current_policy_statements, policy_statements,
  build_row_level_security_statements,
}

-- The flag is as the word says, or the word says nothing.
abbrev pub IsToggled : Text → Bool → Text → Text → Type 0
IsToggled desired current on_word off_word =
    (is_empty (to_lower (trim_space desired)) ≡ true)
    ⊎ (((to_lower (trim_space desired) ≡ on_word) × (current ≡ true))
        ⊎ ((to_lower (trim_space desired) ≡ off_word) × (current ≡ false)))

abbrev pub IsKept : List Policy → PostgresqlTablePolicy → Type 0
IsKept currents p =
    (is_empty p.name ≡ false)
    × (m : Policy) × (policy_named p.name currents ≡ some m)
    × (attributes_equal (some m) (some (postgresql_schema_policy_to_policy p)) ≡ true)

module _ (pgx : Pgx) (table_name : Text) where
  round-kept :
      (p : PostgresqlTablePolicy) (m : Policy) (rest : List Text × List Text)
      → attributes_equal (some m) (some (postgresql_schema_policy_to_policy p)) ≡ true
      → policy_round pgx table_name p (some m) rest ≡ rest
  round-kept p m (rest, dropped) h = rw h refl

  desired-kept :
      (currents : List Policy) (ps : List PostgresqlTablePolicy)
      → All (IsKept currents) ps
      → desired_policy_statements pgx table_name currents ps ≡ ok ([], [])
  unfolding desired_policy_statements
  desired-kept currents [] h = refl
  desired-kept currents (p ∷ ps) ((named, m, found, same), hs) =
      rw (named, desired-kept currents ps hs, found) (ap ok (round-kept p m ([], []) same))

  current-declared :
      (ps : List PostgresqlTablePolicy) (currents : List Policy)
      → All (λ c. is_policy_declared pgx ps c ≡ true) currents
      → current_policy_statements pgx table_name ps [] currents ≡ []
  unfolding current_policy_statements
  current-declared ps [] h = refl
  current-declared ps (c ∷ cs) (h, hs) = rw h (current-declared ps cs hs)

  policy_statements-kept :
      (ps : List PostgresqlTablePolicy) (currents : List Policy)
      → All (IsKept currents) ps
      → All (λ c. is_policy_declared pgx ps c ≡ true) currents
      → policy_statements pgx table_name ps currents ≡ ok []
  unfolding policy_statements
  policy_statements-kept ps currents kept declared =
      rw (desired-kept currents ps kept, current-declared ps currents declared) refl

toggle-settled :
    (table_name desired : Text) (current : Bool) (on_word off_word : Text)
    (build : Text → Bool → Text)
    → (off_word == on_word) ≡ false
    → IsToggled desired current on_word off_word
    → row_security_toggle_statement table_name desired current on_word off_word build ≡ ok []
unfolding row_security_toggle_statement
toggle-settled table_name desired current on_word off_word build apart (inl e) = rw e refl
toggle-settled table_name desired current on_word off_word build apart (inr (inl (word, on))) =
    rw (word, on, eq_refl on_word) (if_same (is_empty on_word) (ok []))
toggle-settled table_name desired current on_word off_word build apart (inr (inr (word, off))) =
    rw (word, off, apart, eq_refl off_word) (if_same (is_empty off_word) (ok []))

-- The plan for the row level security of a table that is managed is empty, if both flags are as they
-- are declared or are declared empty, each declared policy has a name and the first present policy of
-- this name has its attributes, and each present policy has the name of a declared one.
pub row_level_security_steady :
    (pgx : Pgx) (table_name : Text) (rls : PostgresqlTableRowLevelSecurity)
    (ps : List PostgresqlTablePolicy) (current : RowLevelSecurity) (currents : List Policy)
    → IsToggled rls.enable current.enabled (lit "enable") (lit "disable")
    → IsToggled rls.force current.forced (lit "force") (lit "noforce")
    → All (IsKept currents) ps
    → All (λ c. is_policy_declared pgx ps c ≡ true) currents
    → build_row_level_security_statements pgx table_name (some rls) ps (ok current) (ok currents)
      ≡ ok []
unfolding build_row_level_security_statements lit ◌==◌
row_level_security_steady pgx table_name rls ps current currents enabled forced kept declared =
    rw
      (
        toggle-settled table_name rls.enable current.enabled (lit "enable") (lit "disable") _ refl
            enabled,
        toggle-settled table_name rls.force current.forced (lit "force") (lit "noforce") _ refl
            forced,
        policy_statements-kept pgx table_name ps currents kept declared,
      )
      refl
