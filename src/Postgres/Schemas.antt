-- ===== src/Postgres/Schemas.antt =====
-- The part of Connect in plugins/postgres/lib/connection.go that chooses the schemas of a connection.
-- The parsed address is a parameter: what its query has for a name, nothing where the name is missing.
pub mod Default
use schemahero.Base.{List, [], ◌∷◌, map, Option, none, some, if◌then◌else◌}
use schemahero.Base.Text.{Text, lit, is_empty, split, trim_space}

abbrev alone : Text → Text × List Text
alone schema = (schema, schema ∷ [])

abbrev first_listed : List Text → Text
first_listed [] = []
first_listed (s ∷ ss) = s

-- The schema that a name of the query gives
unfoldable pub default_schemas : (Text → Text) → Text × List Text
unfolding split trim_space
default_schemas query =
    if is_empty (query (lit "schema"))
    then if is_empty (query (lit "currentSchema"))
      then if is_empty (query (lit "search_path"))
        then alone (lit "public")
        else alone (trim_space (first_listed (split b',' (query (lit "search_path")))))
      else alone (query (lit "currentSchema"))
    else alone (query (lit "schema"))

abbrev listed_schemas : List Text → Text × List Text → Text × List Text
listed_schemas [] (schema, schemas) = (schema, [])
listed_schemas (s ∷ ss) (schema, schemas) = (s, s ∷ ss)

-- The default schema of a connection and the schemas that it lists tables of; an address that cannot
-- be parsed has the public one.
unfoldable pub connection_schemas : Option (Text → Text) → Text × List Text
unfolding default_schemas split trim_space
connection_schemas none = alone (lit "public")
connection_schemas (some query) =
    if is_empty (query (lit "schemas"))
    then default_schemas query
    else listed_schemas (map trim_space (split b',' (query (lit "schemas"))))
        (default_schemas query)
