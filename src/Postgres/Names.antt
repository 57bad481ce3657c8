-- ===== src/Postgres/Names.antt =====
-- plugins/postgres/lib/helpers.go and connection.go: names in statements. `sanitize` is
-- pgx.Identifier.Sanitize, which quotes each part of a name and joins them by dots.
use schemahero.Base.{Bool, true, false, List, [], ◌∷◌, map, beq, if◌then◌else◌}
use schemahero.Base.Text.{Text, is_empty}

pub record Pgx : Type 0 where
  pub sanitize : List Text → Text

-- splitQualifiedTableName: what stands before and behind the first dot, with nothing before it where
-- there is none
unfoldable pub split_at_dot : Text → Text → Text × Text
split_at_dot whole [] = ([], whole)
split_at_dot whole (c ∷ s) =
    let (schema, table) = split_at_dot whole s in
    if beq c b'.' then ([], s) else (c ∷ schema, table)

abbrev pub has_dot : Text → Bool
has_dot [] = false
has_dot (c ∷ s) = if beq c b'.' then true else has_dot s

unfoldable pub split_qualified_table_name : Text → Text × Text
unfolding split_at_dot
split_qualified_table_name name = if has_dot name then split_at_dot name name else ([], name)

module _ (pgx : Pgx) where
  -- sanitizeTableName
  unfoldable pub sanitize_table_name : Text → Text
  unfolding split_qualified_table_name
  sanitize_table_name name =
      let (schema, table) = split_qualified_table_name name in
      if is_empty schema then pgx.sanitize (name ∷ []) else pgx.sanitize (schema ∷ table ∷ [])

  -- qualifyTableName
  unfoldable pub qualify_table_name : Text → Text
  unfolding split_qualified_table_name
  qualify_table_name name =
      let (schema, table) = split_qualified_table_name name in
      if is_empty schema then name else pgx.sanitize (schema ∷ table ∷ [])

  -- SanitizeArray
  unfoldable pub sanitize_array : List Text → List Text
  sanitize_array names = map (λ n. pgx.sanitize (n ∷ [])) names
