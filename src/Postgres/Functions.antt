-- ===== src/Postgres/Functions.antt =====
-- Functions and extensions: plugins/postgres/lib/function.go, extension.go and their plans in deploy.go.
use schemahero.Base.{
  ℕ, Bool, false, ◌&&◌, List, [], ◌∷◌, ◌++◌, Option, none, some, if◌then◌else◌, beq, bool_eq,
  length, take, drop,
}
use schemahero.Base.Text.{Text, lit, ◌==◌, is_empty, to_lower, to_upper, trim_space, find, contains}
use schemahero.Base.Result.{Result, ok, wrap, ◌>>=◌}
use schemahero.Schema.Postgresql.{PostgresqlFunctionSchema, PostgresDatabaseExtension}
use schemahero.Postgres.Names.{Pgx}
use schemahero.Postgres.Rows.{PostgresConnection}
use schemahero.Postgres.Executables.{get_qualified_execute_name, get_function_signature}

-- FunctionLogicTag
abbrev pub function_logic_tag : Text
function_logic_tag = lit "$_SCHEMAHERO_$"

abbrev name_of_function : Text → PostgresqlFunctionSchema → Text
name_of_function name f = get_qualified_execute_name name f.schema f.params

abbrev return_clause : Text → Bool → Text
return_clause returned return_set =
    if is_empty returned
    then []
    else lit " returns" ++ (if return_set then lit " setof" else []) ++ lit " " ++ returned

-- CreateFunctionStatements
unfoldable pub create_function_statements : Text → PostgresqlFunctionSchema → List Text
unfolding get_qualified_execute_name
create_function_statements name f =
    (lit "create or replace function "
      ++ name_of_function name f
      ++ return_clause f.return f.return_set
      ++ (if f.security_definer then lit " security definer" else [])
      ++ lit " as\n"
      ++ function_logic_tag
      ++ lit "\n"
      ++ f.body_text
      ++ lit "\n"
      ++ function_logic_tag
      ++ lit "\nlanguage "
      ++ f.lang)
    ∷ []

-- DropFunctionStatements
unfoldable pub drop_function_statements : Text → PostgresqlFunctionSchema → List Text
unfolding get_qualified_execute_name
drop_function_statements name f = (lit "drop function if exists " ++ name_of_function name f) ∷ []

-- What stands in front of and behind the first occurrence of a text
unfoldable pub cut : Text → Text → Option (Text × Text)
unfolding find
cut p s = elim (find p s) [ none ↦ none | some n ↦ some (take n s, drop (length p) (drop n s)) ]

abbrev first_of : Option (Text × Text) → Option Text
first_of none = none
first_of (some (before, behind)) = some before

-- extractDollarQuotedBody
unfoldable pub extract_dollar_quoted_body : Text → Option Text
unfolding cut
extract_dollar_quoted_body def = elim (cut (lit "$") def) [
  | none ↦ none
  | some (_, behind) ↦ elim (cut (lit "$") behind) [
    | none ↦ none
    | some (tag, body) ↦ first_of (cut (lit "$" ++ tag ++ lit "$") body)
  ]
]

-- functionDefinitionsEqual
unfoldable pub function_definitions_equal : Text → PostgresqlFunctionSchema → Bool
unfolding extract_dollar_quoted_body trim_space to_lower to_upper contains
function_definitions_equal existing f = elim (extract_dollar_quoted_body existing) [
  | none ↦ false
  | some body ↦
      (trim_space body == trim_space f.body_text)
      && contains (lit "language " ++ to_lower f.lang) (to_lower existing)
      && bool_eq (contains (lit "SECURITY DEFINER") (to_upper existing)) f.security_definer
]

-- PlanPostgresFunction, behind the query for the definition, which is none where there is no function
unfoldable pub function_statements : Text → PostgresqlFunctionSchema → Option Text → List Text
unfolding create_function_statements drop_function_statements function_definitions_equal
function_statements name f none = if f.is_deleted then [] else create_function_statements name f
function_statements name f (some existing) =
    if f.is_deleted
    then drop_function_statements name f
    else if function_definitions_equal existing f
    then []
    else create_function_statements name f

module _ (pgx : Pgx) where
  abbrev version_clause : Option Text → Text
  version_clause none = []
  version_clause (some v) = lit " VERSION " ++ v

  abbrev schema_clause : Option Text → Text
  schema_clause none = []
  schema_clause (some s) = lit " SCHEMA " ++ pgx.sanitize (s ∷ [])

  -- CreateExtensionStatements, for one extension
  unfoldable pub create_extension_statement : PostgresDatabaseExtension → Text
  create_extension_statement e =
      lit "CREATE EXTENSION IF NOT EXISTS "
      ++ pgx.sanitize (e.name ∷ [])
      ++ version_clause e.version
      ++ schema_clause e.schema
      ++ lit ";"

  -- DropExtensionStatements, for one extension
  unfoldable pub drop_extension_statement : PostgresDatabaseExtension → Text
  drop_extension_statement e =
      lit "DROP EXTENSION IF EXISTS " ++ pgx.sanitize (e.name ∷ []) ++ lit ";"

  -- PlanPostgresExtension, behind the count of extensions of this name
  unfoldable pub extension_statements : PostgresDatabaseExtension → ℕ → List Text
  unfolding create_extension_statement drop_extension_statement
  extension_statements e count =
      if e.is_deleted
      then if beq count 0 then [] else drop_extension_statement e ∷ []
      else if beq count 0
      then create_extension_statement e ∷ []
      else []

  module _ (connect : Text → Result PostgresConnection) where
    -- PlanPostgresFunction
    unfoldable pub plan_postgres_function :
        Text → Text → PostgresqlFunctionSchema → Result (List Text)
    unfolding function_statements get_function_signature
    plan_postgres_function uri name f = do
      p ← wrap (lit "failed to connect to postgres") (connect uri)
      existing ← wrap (lit "failed to get function definition") (
          wrap (lit "failed to scan function definition")
            (p.function_definition (get_function_signature name f.schema f.params)))
      ok (function_statements name f existing)

    -- PlanPostgresExtension
    unfoldable pub plan_postgres_extension :
        Text → Text → PostgresDatabaseExtension → Result (List Text)
    unfolding extension_statements
    plan_postgres_extension uri name e = do
      p ← wrap (lit "failed to connect to postgres") (connect uri)
      count ←
          wrap (lit "failed to check if extension exists")
            (wrap (lit "failed to scan") (p.extension_count name))
      ok (extension_statements e count)
