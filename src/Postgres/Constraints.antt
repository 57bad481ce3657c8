-- ===== src/Postgres/Constraints.antt =====
-- plugins/postgres/lib/constraint.go, foreignkey.go and index.go: the statements for keys and indexes.
use schemahero.Base.{Bool, true, false, not, ◌&&◌, List, [], ◌∷◌, ◌++◌, map, if◌then◌else◌}
use schemahero.Base.Maps.{TextMap}
use schemahero.Base.Text.{Text, lit, ◌==◌, is_empty, to_lower, to_upper, trim_space, join}
use schemahero.Base.Text.Order.{text_less}
use schemahero.Schema.Dialects.{
  PostgresqlTableForeignKey, PostgresqlTableIndex, PostgresqlTableIndexColumn,
}
use schemahero.Types.Keys.{KeyConstraint, generate_name}
use schemahero.Types.Indexes.{Index}
use schemahero.Types.ForeignKeys.{ForeignKey}
use schemahero.Types.Names.{Digest, generate_postgresql_fk_name, generate_postgresql_index_name}
use schemahero.Postgres.Names.{Pgx, sanitize_table_name, qualify_table_name, sanitize_array}

abbrev primary_key_clause : KeyConstraint → Text
primary_key_clause k = if k.is_primary then lit " primary key" else []

abbrev constraint_column_clause : KeyConstraint → Text
constraint_column_clause k = lit "(" ++ join (lit ", ") k.columns ++ lit ")"

-- Whether the access method has to be named; the method is trimmed and in lower case.
abbrev has_method : Text → Bool
has_method method = not (is_empty method) && not (method == lit "btree")

abbrev direction : Text → Text
direction dir =
    if dir == lit "DESC" then lit " desc" else if dir == lit "ASC" then lit " asc" else []

abbrev nulls_order : Text → Text
nulls_order nulls =
    if nulls == lit "FIRST"
    then lit " nulls first"
    else if nulls == lit "LAST"
    then lit " nulls last"
    else []

abbrev operator_class : Text → Text
operator_class op = if is_empty op then [] else lit " " ++ op

abbrev sorted_column_element : PostgresqlTableIndexColumn → Text
sorted_column_element c =
    c.column
    ++ operator_class (to_lower (trim_space c.op_class))
    ++ direction (to_upper (trim_space c.sort))
    ++ nulls_order (to_upper (trim_space c.nulls))

-- buildIndexElements
unfoldable pub build_index_elements : PostgresqlTableIndex → List Text
unfolding to_lower to_upper trim_space
build_index_elements index =
    index.columns
    ++ map sorted_column_element index.sorted_columns
    ++ map (λ e. lit "(" ++ trim_space e ++ lit ")") index.expressions

-- The entries of the map in the order of their keys.
unfoldable pub insert_entry : Text × Text → TextMap Text → TextMap Text
unfolding text_less
insert_entry e [] = e ∷ []
insert_entry (k, v) ((j, w) ∷ m) =
    let rest = insert_entry (k, v) m in if text_less j k then (j, w) ∷ rest else (k, v) ∷ (j, w) ∷ m

unfoldable pub sort_entries : TextMap Text → TextMap Text
unfolding insert_entry
sort_entries [] = []
sort_entries (e ∷ m) = insert_entry e (sort_entries m)

abbrev pub with_clause : TextMap Text → Text
with_clause [] = []
with_clause (e ∷ m) =
    lit " with (" ++ join (lit ", ") (map (λ p. p.0 ++ lit " = " ++ p.1) (e ∷ m)) ++ lit ")"

abbrev where_clause : Text → Text
where_clause condition = if is_empty condition then [] else lit " where " ++ condition

-- isInlineFoldableUniqueIndex
unfoldable pub is_inline_foldable_unique_index : PostgresqlTableIndex → Bool
unfolding to_lower trim_space
is_inline_foldable_unique_index index =
    index.is_unique
    && not (has_method (to_lower (trim_space index.type)))
    && is_empty (trim_space index.condition)
    && elim index.expressions [ [] ↦ true | _ ∷ _ ↦ false ]
    && elim index.sorted_columns [ [] ↦ true | _ ∷ _ ↦ false ]

module _ (sha256 : Digest) (pgx : Pgx) where
  -- RemoveConstrantStatement, for a constraint that is not nil
  unfoldable pub remove_constrant_statement : Text → KeyConstraint → Text
  unfolding qualify_table_name
  remove_constrant_statement table_name k =
      lit "alter table "
      ++ qualify_table_name pgx table_name
      ++ lit " drop constraint "
      ++ pgx.sanitize (k.name ∷ [])

  -- AddConstrantStatement, for a constraint that is not nil
  unfoldable pub add_constrant_statement : Text → KeyConstraint → Text
  unfolding qualify_table_name generate_name join
  add_constrant_statement table_name k =
      lit "alter table "
      ++ qualify_table_name pgx table_name
      ++ lit " add constraint "
      ++ generate_name k table_name
      ++ primary_key_clause k
      ++ lit " "
      ++ constraint_column_clause k

  unfoldable pub remove_foreign_key_statement : Text → ForeignKey → Text
  unfolding qualify_table_name
  remove_foreign_key_statement table_name fk =
      lit "alter table "
      ++ qualify_table_name pgx table_name
      ++ lit " drop constraint "
      ++ pgx.sanitize (fk.name ∷ [])

  -- foreignKeyConstraintClause
  unfoldable pub foreign_key_constraint_clause : Text → PostgresqlTableForeignKey → Text
  unfolding generate_postgresql_fk_name sanitize_array sanitize_table_name join
  foreign_key_constraint_clause table_name fk =
      lit "constraint "
      ++ generate_postgresql_fk_name table_name fk
      ++ lit " foreign key ("
      ++ join (lit ", ") (sanitize_array pgx fk.columns)
      ++ lit ") references "
      ++ sanitize_table_name pgx fk.references.table
      ++ lit " ("
      ++ join (lit ", ") (sanitize_array pgx fk.references.columns)
      ++ lit ")"
      ++ (if is_empty fk.on_delete then [] else lit " on delete " ++ fk.on_delete)

  unfoldable pub add_foreign_key_statement : Text → PostgresqlTableForeignKey → Text
  unfolding qualify_table_name foreign_key_constraint_clause
  add_foreign_key_statement table_name fk =
      lit "alter table "
      ++ qualify_table_name pgx table_name
      ++ lit " add "
      ++ foreign_key_constraint_clause table_name fk

  -- RemoveConstraintStatement, for an index that is a constraint
  unfoldable pub remove_constraint_statement : Text → Index → Text
  unfolding sanitize_table_name
  remove_constraint_statement table_name i =
      lit "alter table "
      ++ sanitize_table_name pgx table_name
      ++ lit " drop constraint "
      ++ pgx.sanitize (i.name ∷ [])

  unfoldable pub remove_index_statement : Text → Index → Text
  remove_index_statement table_name i = lit "drop index if exists " ++ pgx.sanitize (i.name ∷ [])

  unfoldable pub add_index_statement : Text → PostgresqlTableIndex → Text
  unfolding qualify_table_name generate_postgresql_index_name build_index_elements sort_entries
      to_lower trim_space join
  add_index_statement table_name i =
      let method = to_lower (trim_space i.type) in
      lit "create "
      ++ (if i.is_unique then lit "unique " else [])
      ++ lit "index "
      ++ (if is_empty i.name then generate_postgresql_index_name sha256 table_name i else i.name)
      ++ lit " on "
      ++ qualify_table_name pgx table_name
      ++ (if has_method method then lit " using " ++ pgx.sanitize (method ∷ []) else [])
      ++ lit " ("
      ++ join (lit ", ") (build_index_elements i)
      ++ lit ")"
      ++ with_clause (sort_entries i.parameters)
      ++ where_clause (trim_space i.condition)

  unfoldable pub rename_index_statement : Text → Index → PostgresqlTableIndex → Text
  rename_index_statement table_name i schema_index =
      lit "alter index "
      ++ pgx.sanitize (i.name ∷ [])
      ++ lit " rename to "
      ++ pgx.sanitize (schema_index.name ∷ [])
