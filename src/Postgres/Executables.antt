-- ===== src/Postgres/Executables.antt =====
-- plugins/postgres/lib/helpers.go: the names of functions with their parameters, and of tables with their
-- schema.
use schemahero.Base.{◌||◌, List, [], ◌∷◌, ◌++◌, map, if◌then◌else◌}
use schemahero.Base.Text.{Text, lit, ◌==◌, is_empty, to_lower, join}
use schemahero.Schema.Postgresql.{PostgresqlExecuteParameter}

abbrev unless_empty : Text → List Text
unless_empty [] = []
unless_empty (c ∷ s) = (c ∷ s) ∷ []

abbrev parameter : PostgresqlExecuteParameter → Text
parameter p = join (lit " ") (unless_empty p.mode ++ unless_empty p.name ++ p.type ∷ [])

-- serializeExecuteParams
unfoldable pub serialize_execute_params : List PostgresqlExecuteParameter → Text
unfolding join
serialize_execute_params params = join (lit ", ") (map parameter params)

abbrev input_type : PostgresqlExecuteParameter → List Text
input_type p = if to_lower p.mode == lit "out" then [] else p.type ∷ []

unfoldable pub input_types : List PostgresqlExecuteParameter → List Text
unfolding to_lower
input_types [] = []
input_types (p ∷ ps) = input_type p ++ input_types ps

-- signatureArgTypes
unfoldable pub signature_arg_types : List PostgresqlExecuteParameter → Text
unfolding input_types join
signature_arg_types params = join (lit ", ") (input_types params)

abbrev in_schema : Text → Text → Text
in_schema schema name =
    if is_empty schema || schema == lit "public" then name else schema ++ lit "." ++ name

-- getQualifiedExecuteName
unfoldable pub get_qualified_execute_name : Text → Text → List PostgresqlExecuteParameter → Text
unfolding serialize_execute_params
get_qualified_execute_name name schema params =
    in_schema schema name ++ lit "(" ++ serialize_execute_params params ++ lit ")"

-- getFunctionSignature
unfoldable pub get_function_signature : Text → Text → List PostgresqlExecuteParameter → Text
unfolding signature_arg_types
get_function_signature name schema params =
    in_schema schema name ++ lit "(" ++ signature_arg_types params ++ lit ")"

-- The table as a create statement names it
unfoldable pub qualified_in_schema : Text → Text → Text
qualified_in_schema schema table_name = in_schema schema table_name
