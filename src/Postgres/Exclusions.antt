-- ===== src/Postgres/Exclusions.antt =====
-- plugins/postgres/lib/exclusionconstraint.go: the statements for exclusion constraints, and reading
-- them off their definitions.
use schemahero.Base.{
  ℕ, ◌-◌, Bool, true, ◌&&◌, ◌||◌, List, [], ◌∷◌, ◌++◌, map, Option, none, some, if◌then◌else◌, beq,
  length, take, drop,
}
use schemahero.Base.Text.{Text, lit, ◌==◌, is_empty, to_lower, trim_space, join, has_prefix, fields}
use schemahero.Schema.Postgresql.{
  PostgresqlTableExclusionConstraintItem, PostgresqlTableExclusionConstraint,
}
use schemahero.Types.Exclusions.{
  ExclusionConstraint, ExclusionConstraintItem, generate_postgresql_exclusion_constraint_name,
  exclusion_constraint_equals, postgresql_schema_exclusion_constraint_to_exclusion_constraint,
}
use schemahero.Base.Result.{Result, ok, ◌>>=◌}
use schemahero.Types.Names.{Digest}
use schemahero.Postgres.Named.{Change, named_changes}
use schemahero.Postgres.Names.{Pgx, qualify_table_name}
use schemahero.Postgres.Checks.{has_balanced_outer_parens}
use schemahero.Postgres.Constraints.{sort_entries, with_clause}
use schemahero.Postgres.Elements.{
  Depth, above, deeper, shallower, is_top_level, extract_index_element_list, split_top_level_commas,
}

-- isSpace
abbrev is_gap : ℕ → Bool
is_gap b = beq b 32 || beq b 9 || beq b 10 || beq b 13

abbrev starts_with_gap : Text → Bool
starts_with_gap [] = true
starts_with_gap (c ∷ s) = is_gap c

-- A word in lower case stands at the front, in any case.
unfoldable pub has_word : Text → Text → Bool
unfolding to_lower
has_word word s = to_lower (take (length word) s) == word

abbrev first_of : ℕ → Text × Text → Text × Text
first_of c (element, operator) = (c ∷ element, operator)

-- The loop of splitItemOnWith; the flag says that a gap or nothing stands in front. Where there is no
-- WITH the whole text is the element.
unfoldable pub split_with_from : Depth → Bool → Text → Text × Text
unfolding has_word
split_with_from depth before_ok [] = ([], [])
split_with_from depth before_ok (c ∷ s) =
    let opened = first_of c (split_with_from (deeper depth) (is_gap c) s) in
    let closed = first_of c (split_with_from (shallower depth) (is_gap c) s) in
    let same = first_of c (split_with_from depth (is_gap c) s) in
    if beq c b'('
    then opened
    else if beq c b')'
    then closed
    else if is_top_level depth
        && has_word (lit "with") (c ∷ s)
        && before_ok
        && starts_with_gap (drop 4 (c ∷ s))
    then ([], drop 4 (c ∷ s))
    else same

-- splitItemOnWith
unfoldable pub split_item_on_with : Text → Text × Text
unfolding split_with_from
split_item_on_with item = split_with_from (above 0) true item

abbrev ends_word : Text → Bool
ends_word [] = true
ends_word (c ∷ s) = is_gap c || beq c b'('

-- What stands behind the first place that indexOfWordCI finds; the flag as above.
unfoldable pub behind_word : Text → Bool → Text → Option Text
unfolding has_word
behind_word word before_ok [] = none
behind_word word before_ok (c ∷ s) =
    let later = behind_word word (is_gap c) s in
    if has_word word (c ∷ s) && before_ok && ends_word (drop (length word) (c ∷ s))
    then some (drop (length word) (c ∷ s))
    else later

abbrev access_method : Option Text → Text
access_method none = []
access_method (some rest) = elim (fields (trim_space rest)) [ [] ↦ [] | m ∷ _ ↦ to_lower m ]

abbrev predicate : Option Text → Text
predicate none = []
predicate (some rest) =
    let pred = trim_space rest in
    if has_prefix (lit "(") pred && has_balanced_outer_parens pred
    then trim_space (take (length pred - 2) (drop 1 pred))
    else pred

abbrev parsed_item : Text → List ExclusionConstraintItem
parsed_item item =
    if is_empty item
    then []
    else let (e, o) = split_item_on_with item in
      record { column = []; expression = trim_space e; operator = trim_space o } ∷ []

unfoldable pub parsed_items : List Text → List ExclusionConstraintItem
unfolding split_item_on_with trim_space
parsed_items [] = []
parsed_items (raw ∷ raws) = parsed_item (trim_space raw) ++ parsed_items raws

-- parseExclusionConstraintDef; the name is set by the caller
unfoldable pub parse_exclusion_constraint_def : Text → Text → ExclusionConstraint
unfolding behind_word trim_space parsed_items extract_index_element_list split_top_level_commas
    has_balanced_outer_parens fields to_lower has_prefix
parse_exclusion_constraint_def name condef =
    let s = trim_space condef in
    record {
      name = name;
      using = access_method (behind_word (lit "using") true s);
      items = parsed_items (split_top_level_commas (extract_index_element_list s));
      condition = predicate (behind_word (lit "where") true s);
      parameters = [];
    }

module _ (sha256 : Digest) (pgx : Pgx) where
  abbrev item_clause : PostgresqlTableExclusionConstraintItem → Text
  item_clause i =
      (if is_empty i.expression
        then pgx.sanitize (i.column ∷ [])
        else lit "(" ++ trim_space i.expression ++ lit ")")
      ++ lit " with "
      ++ trim_space i.operator

  abbrev predicate_clause : Text → Text
  predicate_clause condition =
      if is_empty condition then [] else lit " where (" ++ condition ++ lit ")"

  -- exclusionConstraintClause
  unfoldable pub exclusion_constraint_clause : Text → PostgresqlTableExclusionConstraint → Text
  unfolding generate_postgresql_exclusion_constraint_name sort_entries join trim_space to_lower
  exclusion_constraint_clause table_name c =
      let using = to_lower (trim_space c.using) in
      lit "constraint "
      ++ pgx.sanitize (generate_postgresql_exclusion_constraint_name sha256 table_name c ∷ [])
      ++ lit " exclude using "
      ++ pgx.sanitize ((if is_empty using then lit "gist" else using) ∷ [])
      ++ lit " ("
      ++ join (lit ", ") (map item_clause c.items)
      ++ lit ")"
      ++ with_clause (sort_entries c.parameters)
      ++ predicate_clause (trim_space c.condition)

  -- RemoveExclusionConstraintStatement, for a constraint that is not nil
  unfoldable pub remove_exclusion_constraint_statement : Text → ExclusionConstraint → Text
  unfolding qualify_table_name
  remove_exclusion_constraint_statement table_name c =
      lit "alter table "
      ++ qualify_table_name pgx table_name
      ++ lit " drop constraint "
      ++ pgx.sanitize (c.name ∷ [])

  -- AddExclusionConstraintStatement, for a constraint that is not nil
  unfoldable pub add_exclusion_constraint_statement :
      Text → PostgresqlTableExclusionConstraint → Text
  unfolding qualify_table_name exclusion_constraint_clause
  add_exclusion_constraint_statement table_name c =
      lit "alter table "
      ++ qualify_table_name pgx table_name
      ++ lit " add "
      ++ exclusion_constraint_clause table_name c

  abbrev pub exclusion_name : Text → PostgresqlTableExclusionConstraint → Text
  exclusion_name table_name d = generate_postgresql_exclusion_constraint_name sha256 table_name d

  abbrev pub same_exclusion : PostgresqlTableExclusionConstraint → ExclusionConstraint → Bool
  same_exclusion d c =
      exclusion_constraint_equals c
        (postgresql_schema_exclusion_constraint_to_exclusion_constraint d)

  abbrev exclusion_statement :
      Text → Change PostgresqlTableExclusionConstraint ExclusionConstraint → Text
  exclusion_statement table_name (Change.drop c) =
      remove_exclusion_constraint_statement table_name c
  exclusion_statement table_name (Change.create d) = add_exclusion_constraint_statement table_name d

  -- BuildExclusionConstraintStatements, behind the query
  unfoldable pub exclusion_statements :
      Text → List PostgresqlTableExclusionConstraint → List ExclusionConstraint → List Text
  unfolding named_changes generate_postgresql_exclusion_constraint_name exclusion_constraint_equals
      remove_exclusion_constraint_statement add_exclusion_constraint_statement
  exclusion_statements table_name ds currents =
      map (exclusion_statement table_name)
        (named_changes (exclusion_name table_name) (λ c. c.name) same_exclusion ds currents)

  unfoldable pub build_exclusion_constraint_statements :
      Text
      → List PostgresqlTableExclusionConstraint
      → Result (List ExclusionConstraint)
      → Result (List Text)
  unfolding exclusion_statements
  build_exclusion_constraint_statements table_name ds listed =
      listed >>= (λ currents. ok (exclusion_statements table_name ds currents))
