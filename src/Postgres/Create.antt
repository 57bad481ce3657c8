-- ===== src/Postgres/Create.antt =====
-- plugins/postgres/lib/create.go
use schemahero.Base.{Bool, true, ◌||◌, List, [], ◌∷◌, ◌++◌, map, Option, none, some, if◌then◌else◌}
use schemahero.Base.Text.{
  Text, lit, ◌==◌, is_empty, to_lower, trim_space, join, contains, replace_all,
}
use schemahero.Base.Text.Number.{itoa_int}
use schemahero.Base.Result.{Result, ok, wrap, collect, ◌>>=◌}
use schemahero.Schema.SeedData
use schemahero.Schema.SeedData.{SeedDataValue, SeedDataRow, SeedData}
use schemahero.Schema.Dialects.{PostgresqlTableIndex, PostgresqlTablePolicy}
use schemahero.Schema.Postgresql.{
  PostgresqlTableColumn, PostgresqlTableTrigger, PostgresqlTableSchema,
  PostgresqlTableRowLevelSecurity,
}
use schemahero.Types.Names.{Digest, generate_postgresql_index_name}
use schemahero.Mysql.AlterStatements.{quote}
use schemahero.Postgres.Names.{Pgx, sanitize_table_name, sanitize_array}
use schemahero.Postgres.Column.{column_as_insert}
use schemahero.Postgres.Constraints.{is_inline_foldable_unique_index, foreign_key_constraint_clause}
use schemahero.Postgres.Checks.{check_constraint_clause}
use schemahero.Postgres.Exclusions.{exclusion_constraint_clause}
use schemahero.Postgres.Triggers.{declared_triggers, trigger_create_statement}
use schemahero.Postgres.Executables.{qualified_in_schema}
use schemahero.Postgres.Security.{
  enable_row_level_security_statement, force_row_level_security_statement, create_policy_statement,
}

-- escapePostgresString
unfoldable pub escape_postgres_string : Text → Text
unfolding contains replace_all
escape_postgres_string s =
    if contains (lit "\n") s || contains (lit "'") s
    then lit "E'"
      ++ replace_all (lit "\n") (lit "\\n")
          (replace_all (lit "'") (lit "\\'") (replace_all (lit "\\") (lit "\\\\") s))
      ++ lit "'"
    else lit "'" ++ s ++ lit "'"

-- A value with neither an integer nor a text is left out.
abbrev pub seed_values : SeedDataValue → List Text
seed_values v = elim v.int [
  | some n ↦ itoa_int n ∷ []
  | none ↦ elim v.str [ some s ↦ escape_postgres_string s ∷ [] | none ↦ [] ]
]

unfoldable pub row_values : List SeedData.Column → List Text
unfolding itoa_int escape_postgres_string
row_values [] = []
row_values (c ∷ cs) = seed_values c.value ++ row_values cs

abbrev joined : List Text → Text
joined parts = join (lit ", ") parts

-- The statement for one row of SeedDataStatements
unfoldable pub seed_row_statement : Text → Text → SeedDataRow → Text
unfolding row_values join
seed_row_statement table_name conflict row =
    let columns = map (λ c. c.column) row.columns in
    let insert =
      lit "insert into "
      ++ table_name
      ++ lit " ("
      ++ joined columns
      ++ lit ") values ("
      ++ joined (row_values row.columns)
      ++ lit ")" in
    if is_empty conflict
    then insert
    else insert
      ++ lit " on conflict ("
      ++ conflict
      ++ lit ") do update set ("
      ++ joined columns
      ++ lit ") = ("
      ++ joined (map (λ c. lit "excluded." ++ c) columns)
      ++ lit ")"

module _ (sha256 : Digest) (pgx : Pgx) where
  unfoldable pub first_unique_name : Text → List PostgresqlTableIndex → Text
  unfolding generate_postgresql_index_name
  first_unique_name table_name [] = []
  first_unique_name table_name (i ∷ is) =
      let rest = first_unique_name table_name is in
      if i.is_unique then generate_postgresql_index_name sha256 table_name i else rest

  -- findConflictInferenceSpec
  unfoldable pub find_conflict_inference_spec : Text → List Text → List PostgresqlTableIndex → Text
  unfolding first_unique_name sanitize_array join
  find_conflict_inference_spec table_name [] indexes = first_unique_name table_name indexes
  find_conflict_inference_spec table_name (k ∷ ks) indexes = joined (sanitize_array pgx (k ∷ ks))

  -- SeedDataStatements
  unfoldable pub seed_data_statements :
      Text → List Text → List PostgresqlTableIndex → SeedData → Result (List Text)
  unfolding find_conflict_inference_spec seed_row_statement
  seed_data_statements table_name primary_key indexes seed = ok (
      map
        (seed_row_statement table_name
          (find_conflict_inference_spec table_name primary_key indexes))
        seed.rows)

  abbrev column_field : PostgresqlTableColumn → Result (List Text)
  column_field c = do f ← column_as_insert pgx c; ok (f ∷ [])

  abbrev primary_key_clauses : List Text → List Text
  primary_key_clauses [] = []
  primary_key_clauses (k ∷ ks) =
      (lit "primary key (" ++ joined (sanitize_array pgx (k ∷ ks)) ++ lit ")") ∷ []

  -- The unique indexes that stand in the statement
  unfoldable pub unique_clauses : Text → List PostgresqlTableIndex → List Text
  unfolding is_inline_foldable_unique_index generate_postgresql_index_name quote sanitize_array join
  unique_clauses table_name [] = []
  unique_clauses table_name (i ∷ is) =
      let rest = unique_clauses table_name is in
      if is_inline_foldable_unique_index i
      then (lit "constraint "
          ++ quote (generate_postgresql_index_name sha256 table_name i)
          ++ lit " unique ("
          ++ joined (sanitize_array pgx i.columns)
          ++ lit ")")
        ∷ rest
      else rest

  abbrev trigger_query : Text → PostgresqlTableTrigger → Result (List Text)
  trigger_query qualified t =
      wrap (lit "failed to create trigger statement") (trigger_create_statement pgx t qualified)
      >>= (λ s. ok (s ∷ []))

  abbrev when : Bool → Text → List Text
  when b statement = if b then statement ∷ [] else []

  -- What a new table gets of its row level security
  unfoldable pub new_row_level_security :
      Text → Option PostgresqlTableRowLevelSecurity → List PostgresqlTablePolicy → List Text
  unfolding enable_row_level_security_statement force_row_level_security_statement
      create_policy_statement to_lower trim_space
  new_row_level_security qualified none policies = []
  new_row_level_security qualified (some rls) policies =
      when (to_lower (trim_space rls.enable) == lit "enable")
        (enable_row_level_security_statement pgx qualified true)
      ++ when (to_lower (trim_space rls.force) == lit "force")
          (force_row_level_security_statement pgx qualified true)
      ++ map (create_policy_statement pgx qualified) policies

  -- CreateTableStatements
  unfoldable pub create_table_statements : Text → PostgresqlTableSchema → Result (List Text)
  unfolding collect column_as_insert sanitize_array unique_clauses foreign_key_constraint_clause
      check_constraint_clause exclusion_constraint_clause qualified_in_schema sanitize_table_name
      trigger_create_statement new_row_level_security join
  create_table_statements table_name schema = do
    fields ← collect column_field schema.columns
    let qualified = qualified_in_schema schema.schema table_name
    triggers ←
        collect (trigger_query qualified)
          (declared_triggers pgx schema.json_triggers schema.triggers)
    ok (
        (lit "create table "
            ++ sanitize_table_name pgx qualified
            ++ lit " ("
            ++ joined (
                fields
                ++ primary_key_clauses schema.primary_key
                ++ unique_clauses table_name schema.indexes
                ++ map (foreign_key_constraint_clause sha256 pgx table_name) schema.foreign_keys
                ++ map (check_constraint_clause sha256 pgx table_name) schema.checks
                ++ map (exclusion_constraint_clause sha256 pgx table_name)
                    schema.exclusion_constraints)
            ++ lit ")")
          ∷ triggers
        ++ new_row_level_security qualified schema.row_level_security schema.policies)
