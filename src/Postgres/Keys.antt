-- ===== src/Postgres/Keys.antt =====
-- The statements that plugins/postgres/lib/deploy.go plans for the primary key, the foreign keys and
-- the indexes of a table.
pub mod Steady
use schemahero.Base.{
  Bool, true, false, not, ◌&&◌, List, [], ◌∷◌, ◌++◌, Option, none, some, any, if◌then◌else◌,
}
use schemahero.Base.Text.{Text, lit, ◌==◌, is_empty}
use schemahero.Base.Result.{Result, ok, wrap, ◌>>=◌}
use schemahero.Schema.Dialects.{PostgresqlTableForeignKey, PostgresqlTableIndex}
use schemahero.Types.Keys.{KeyConstraint, key_equals}
use schemahero.Types.Indexes.{Index, index_equals}
use schemahero.Types.Indexes.Conversions.{postgresql_schema_index_to_index}
use schemahero.Types.ForeignKeys.{
  ForeignKey, foreign_key_equals, postgresql_schema_foreign_key_to_foreign_key,
  qualify_parent_table_to_schema,
}
use schemahero.Types.Names.{Digest, generate_postgresql_index_name}
use schemahero.Mysql.Deploy.Keys.{
  desired_primary_key, statement_of, Search, matched, fell_through, search_current,
}
use schemahero.Postgres.Names.{Pgx, split_qualified_table_name}
use schemahero.Postgres.Constraints.{
  is_inline_foldable_unique_index, remove_constrant_statement, add_constrant_statement,
  remove_foreign_key_statement, add_foreign_key_statement, remove_constraint_statement,
  remove_index_statement, add_index_statement,
}

-- desiredFKForCompare: a bare parent table is in the schema of the table
unfoldable pub desired_fk_for_compare : Text → PostgresqlTableForeignKey → ForeignKey
unfolding split_qualified_table_name postgresql_schema_foreign_key_to_foreign_key
    qualify_parent_table_to_schema
desired_fk_for_compare table_name d =
    let fk = postgresql_schema_foreign_key_to_foreign_key d in
    record fk {
      parent_table =
          qualify_parent_table_to_schema fk.parent_table
            ((split_qualified_table_name table_name).0);
    }

-- The search of a declared index among the current ones, with the last one of its name.
pub data IndexSearch : Type 0 where
  equal : IndexSearch
  last_named : Option Index → IndexSearch

unfoldable pub search_index : Index → Option Index → List Index → IndexSearch
unfolding index_equals
search_index desired last [] = last_named last
search_index desired last (c ∷ cs) =
    let rest = search_index desired (if c.name == desired.name then some c else last) cs in
    if index_equals c desired then equal else rest

module _ (sha256 : Digest) (pgx : Pgx) (table_name : Text) where
  -- BuildPrimaryKeyStatements, behind the query
  unfoldable pub primary_key_statements : List Text → Option KeyConstraint → List Text
  unfolding desired_primary_key key_equals remove_constrant_statement add_constrant_statement
  primary_key_statements primary_key current =
      if key_equals (desired_primary_key primary_key) current
      then []
      else statement_of (remove_constrant_statement sha256 pgx table_name) current
        ++ statement_of (add_constrant_statement sha256 pgx table_name)
            (desired_primary_key primary_key)

  unfoldable pub build_primary_key_statements :
      List Text → Result (Option KeyConstraint) → Result (List Text)
  unfolding primary_key_statements
  build_primary_key_statements primary_key read =
      read >>= (λ current. ok (primary_key_statements primary_key current))

  -- What follows the search for one declared key: the statements and the dropped names.
  abbrev pub foreign_key_round :
      PostgresqlTableForeignKey → Search → List Text × List Text → List Text × List Text
  foreign_key_round d matched rest = rest
  foreign_key_round d (fell_through none) (rest, dropped) =
      (add_foreign_key_statement sha256 pgx table_name d ∷ rest, dropped)
  foreign_key_round d (fell_through (some fk)) (rest, dropped) = (
    remove_foreign_key_statement sha256 pgx table_name fk
        ∷ add_foreign_key_statement sha256 pgx table_name d
        ∷ rest,
    fk.name ∷ dropped,
  )

  -- The loop over the declared foreign keys
  unfoldable pub desired_foreign_keys :
      List ForeignKey → List PostgresqlTableForeignKey → List Text × List Text
  unfolding search_current desired_fk_for_compare remove_foreign_key_statement
      add_foreign_key_statement
  desired_foreign_keys currents [] = ([], [])
  desired_foreign_keys currents (d ∷ ds) =
      foreign_key_round d (search_current (desired_fk_for_compare table_name d) none currents)
        (desired_foreign_keys currents ds)

  abbrev pub is_foreign_key_declared : List PostgresqlTableForeignKey → ForeignKey → Bool
  is_foreign_key_declared ds c =
      any (λ d. foreign_key_equals c (desired_fk_for_compare table_name d)) ds

  -- The loop over the current foreign keys
  unfoldable pub current_foreign_keys :
      List PostgresqlTableForeignKey → List Text → List ForeignKey → List Text
  unfolding any foreign_key_equals desired_fk_for_compare remove_foreign_key_statement
  current_foreign_keys ds dropped [] = []
  current_foreign_keys ds dropped (c ∷ cs) =
      let rest = current_foreign_keys ds dropped cs in
      if is_foreign_key_declared ds c
      then rest
      else if any (λ n. n == c.name) dropped
      then rest
      else remove_foreign_key_statement sha256 pgx table_name c ∷ rest

  unfoldable pub foreign_keys_plan : List PostgresqlTableForeignKey → List ForeignKey → List Text
  unfolding desired_foreign_keys current_foreign_keys
  foreign_keys_plan ds currents =
      let (statements, dropped) = desired_foreign_keys currents ds in
      statements ++ current_foreign_keys ds dropped currents

  -- BuildForeignKeyStatements, over what ListTableForeignKeys returns
  unfoldable pub build_postgres_foreign_key_statements :
      List PostgresqlTableForeignKey → Result (List ForeignKey) → Result (List Text)
  unfolding foreign_keys_plan
  build_postgres_foreign_key_statements ds listed =
      listed >>= (λ currents. ok (foreign_keys_plan ds currents))

  -- The name that the loop writes into a declared index that has none.
  abbrev pub named : PostgresqlTableIndex → PostgresqlTableIndex
  named i =
      if is_empty i.name
      then record i { name = generate_postgresql_index_name sha256 table_name i }
      else i

  -- A unique index of a new table that stands in its create statement
  abbrev pub is_folded : Bool → PostgresqlTableIndex → Bool
  is_folded table_exists i = not table_exists && is_inline_foldable_unique_index i

  abbrev pub drop_index : List Text → Index → Text
  drop_index constraints i =
      if any (λ n. i.name == n) constraints
      then remove_constraint_statement sha256 pgx table_name i
      else remove_index_statement sha256 pgx table_name i

  abbrev pub index_round :
      List Text → PostgresqlTableIndex → IndexSearch → List Text × List Text → List Text × List Text
  index_round constraints d equal rest = rest
  index_round constraints d (last_named none) (rest, dropped) =
      (add_index_statement sha256 pgx table_name d ∷ rest, dropped)
  index_round constraints d (last_named (some i)) (rest, dropped) = (
    drop_index constraints i ∷ add_index_statement sha256 pgx table_name d ∷ rest,
    i.name ∷ dropped,
  )

  -- The loop over the declared indexes
  unfoldable pub desired_indexes :
      Bool → List Text → List Index → List PostgresqlTableIndex → List Text × List Text
  unfolding is_inline_foldable_unique_index generate_postgresql_index_name search_index any
      postgresql_schema_index_to_index remove_constraint_statement remove_index_statement
      add_index_statement
  desired_indexes table_exists constraints currents [] = ([], [])
  desired_indexes table_exists constraints currents (d ∷ ds) =
      let rest = desired_indexes table_exists constraints currents ds in
      if is_folded table_exists d
      then rest
      else index_round constraints (named d)
          (search_index (postgresql_schema_index_to_index (named d)) none currents) rest

  -- What the loop leaves in the declaration: the names are written through pointers.
  unfoldable pub named_indexes : Bool → List PostgresqlTableIndex → List PostgresqlTableIndex
  unfolding is_inline_foldable_unique_index generate_postgresql_index_name
  named_indexes table_exists [] = []
  named_indexes table_exists (d ∷ ds) =
      (if is_folded table_exists d then d else named d) ∷ named_indexes table_exists ds

  abbrev pub is_index_declared : List PostgresqlTableIndex → Index → Bool
  is_index_declared ds c = any (λ d. index_equals c (postgresql_schema_index_to_index d)) ds

  -- The loop over the current indexes
  unfoldable pub current_indexes :
      List Text → List PostgresqlTableIndex → List Text → List Index → List Text
  unfolding any index_equals postgresql_schema_index_to_index remove_constraint_statement
      remove_index_statement
  current_indexes constraints ds dropped [] = []
  current_indexes constraints ds dropped (c ∷ cs) =
      let rest = current_indexes constraints ds dropped cs in
      if is_index_declared ds c
      then rest
      else if any (λ n. n == c.name) dropped
      then rest
      else drop_index constraints c ∷ rest

  unfoldable pub indexes_plan :
      Bool → List Text → List PostgresqlTableIndex → List Index → List Text
  unfolding desired_indexes named_indexes current_indexes
  indexes_plan table_exists constraints ds currents =
      let (statements, dropped) = desired_indexes table_exists constraints currents ds in
      statements ++ current_indexes constraints (named_indexes table_exists ds) dropped currents

  -- BuildIndexStatements, over what the three queries return
  unfoldable pub build_index_statements :
      List PostgresqlTableIndex
      → Result (List Index)
      → Result (List Text)
      → Result Bool
      → Result (List Text)
  unfolding indexes_plan
  build_index_statements ds listed constraints_listed exists_read = do
    currents ← wrap (lit "failed to list table indexes") listed
    constraints ← wrap (lit "failed to list table constraints") constraints_listed
    table_exists ← wrap (lit "failed to check if table exists") exists_read
    ok (indexes_plan table_exists constraints ds currents)
