-- ===== src/Mysql/Deploy/Keys.antt =====
-- The statements for the primary key, the foreign keys and the indexes of a table.
pub mod Converge
pub mod Indexes
pub mod Replanned
pub mod ForeignKeys
pub mod Exact
use schemahero.Base.{
  Bool, true, false, not, ◌&&◌, ◌||◌, List, [], ◌∷◌, ◌++◌, map, Option, none, some, if◌then◌else◌,
  any,
}
use schemahero.Base.Text.{Text, ◌==◌, is_empty}
use schemahero.Base.Result.{Result, ok, ◌>>=◌}
use schemahero.Schema.Mysql.{MysqlTableSchema, MysqlTableForeignKey, MysqlTableIndex}
use schemahero.Types.Keys.{KeyConstraint, key_equals}
use schemahero.Types.Indexes.{Index, index_equals}
use schemahero.Types.Indexes.Conversions.{mysql_schema_index_to_index}
use schemahero.Types.ForeignKeys.{
  ForeignKey, foreign_key_equals, mysql_schema_foreign_key_to_foreign_key,
}
use schemahero.Types.Names.{generate_mysql_index_name}
use schemahero.Mysql.AlterStatements.{remove_constraint_statement, add_constraint_statement}
use schemahero.Mysql.Constraints.{
  remove_index_statement, add_index_statement, remove_foreign_key_statement,
  add_foreign_key_statement,
}
use schemahero.Mysql.Connection.{
  MysqlConnection, get_table_primary_key, list_table_foreign_keys, list_table_indexes,
}

-- The declared primary key; a declaration with no column has none.
unfoldable pub desired_primary_key : List Text → Option KeyConstraint
desired_primary_key [] = none
desired_primary_key (c ∷ cs) = some (record { name = []; columns = c ∷ cs; is_primary = true })

abbrev pub statement_of : (KeyConstraint → Text) → Option KeyConstraint → List Text
statement_of f none = []
statement_of f (some k) = f k ∷ []

-- buildRemovePrimaryKeyStatements, behind the query
unfoldable pub remove_primary_key_statements : Text → List Text → Option KeyConstraint → List Text
remove_primary_key_statements table_name primary_key current =
    if key_equals (desired_primary_key primary_key) current
    then []
    else statement_of (remove_constraint_statement table_name) current

-- buildAddPrimaryKeyStatements, behind the query
unfoldable pub add_primary_key_statements : Text → List Text → Option KeyConstraint → List Text
add_primary_key_statements table_name primary_key current =
    if key_equals (desired_primary_key primary_key) current
    then []
    else statement_of (add_constraint_statement table_name) (desired_primary_key primary_key)

unfoldable pub build_remove_primary_key_statements :
    MysqlConnection → Text → MysqlTableSchema → Result (List Text)
unfolding remove_primary_key_statements
build_remove_primary_key_statements m table_name schema = do
  current ← get_table_primary_key m table_name
  ok (remove_primary_key_statements table_name schema.primary_key current)

unfoldable pub build_add_primary_key_statements :
    MysqlConnection → Text → MysqlTableSchema → Result (List Text)
unfolding add_primary_key_statements
build_add_primary_key_statements m table_name schema = do
  current ← get_table_primary_key m table_name
  ok (add_primary_key_statements table_name schema.primary_key current)

-- How the loop over the current foreign keys ends: at one that is equal to the declared one, or
-- behind the last one, which it remembers.
pub data Search : Type 0 where
  matched : Search
  fell_through : Option ForeignKey → Search

unfoldable pub search_current : ForeignKey → Option ForeignKey → List ForeignKey → Search
search_current desired last [] = fell_through last
search_current desired last (fk ∷ fks) =
    let rest = search_current desired (some fk) fks in
    if foreign_key_equals fk desired then matched else rest

abbrev after_search : Text → MysqlTableForeignKey → Search → List Text
after_search table_name desired matched = []
after_search table_name desired (fell_through none) =
    add_foreign_key_statement table_name desired ∷ []
after_search table_name desired (fell_through (some fk)) =
    remove_foreign_key_statement table_name fk ∷ add_foreign_key_statement table_name desired ∷ []

-- The loop over the declared foreign keys.
unfoldable pub desired_foreign_key_statements :
    Text → List ForeignKey → List MysqlTableForeignKey → List Text
unfolding search_current
desired_foreign_key_statements table_name current [] = []
desired_foreign_key_statements table_name current (fk ∷ fks) =
    after_search table_name fk
      (search_current (mysql_schema_foreign_key_to_foreign_key fk) none current)
    ++ desired_foreign_key_statements table_name current fks

-- The loop over the current foreign keys.
unfoldable pub current_foreign_key_statements :
    Text → List MysqlTableForeignKey → List ForeignKey → List Text
current_foreign_key_statements table_name desired [] = []
current_foreign_key_statements table_name desired (fk ∷ fks) =
    let rest = current_foreign_key_statements table_name desired fks in
    if any (λ d. foreign_key_equals fk (mysql_schema_foreign_key_to_foreign_key d)) desired
    then rest
    else remove_foreign_key_statement table_name fk ∷ rest

unfoldable pub foreign_key_statements :
    Text → List MysqlTableForeignKey → List ForeignKey → List Text
unfolding desired_foreign_key_statements current_foreign_key_statements
foreign_key_statements table_name desired current =
    desired_foreign_key_statements table_name current desired
    ++ current_foreign_key_statements table_name desired current

-- buildForeignKeyStatements
unfoldable pub build_foreign_key_statements :
    MysqlConnection → Text → MysqlTableSchema → Result (List Text)
unfolding foreign_key_statements
build_foreign_key_statements m table_name schema = do
  current ← list_table_foreign_keys m table_name
  ok (foreign_key_statements table_name schema.foreign_keys current)

-- The name that the first pass over the indexes writes into a declared index that has none.
unfoldable pub name_index : Text → MysqlTableIndex → MysqlTableIndex
name_index table_name i =
    if is_empty i.name then record i { name = generate_mysql_index_name table_name i } else i

-- The names are written through pointers, and only where the table has an index.
unfoldable pub name_indexes : Text → List Index → List MysqlTableIndex → List MysqlTableIndex
unfolding name_index
name_indexes table_name [] desired = desired
name_indexes table_name (_ ∷ _) desired = map (name_index table_name) desired

unfoldable pub is_desired : List MysqlTableIndex → Index → Bool
is_desired desired current = any (λ d. index_equals current (mysql_schema_index_to_index d)) desired

unfoldable pub is_current : List Index → MysqlTableIndex → Bool
is_current current desired = any (λ c. index_equals c (mysql_schema_index_to_index desired)) current

-- The loop of buildRemoveIndexStatements, on the declared indexes with their names.
unfoldable pub remove_index_statements : Text → List MysqlTableIndex → List Index → List Text
remove_index_statements table_name desired [] = []
remove_index_statements table_name desired (c ∷ cs) =
    let rest = remove_index_statements table_name desired cs in
    if is_desired desired c then rest else remove_index_statement table_name c ∷ rest

-- The loop of buildAddIndexStatements.
unfoldable pub add_index_statements : Text → List Index → List MysqlTableIndex → List Text
add_index_statements table_name current [] = []
add_index_statements table_name current (d ∷ ds) =
    let rest = add_index_statements table_name current ds in
    if is_current current d then rest else add_index_statement table_name d ∷ rest

-- buildRemoveIndexStatements: the statements, and the declaration with the names written
unfoldable pub build_remove_index_statements :
    MysqlConnection → Text → MysqlTableSchema → Result (List Text × MysqlTableSchema)
unfolding name_indexes remove_index_statements
build_remove_index_statements m table_name schema = do
  current ← list_table_indexes m table_name
  let named = name_indexes table_name current schema.indexes
  ok (remove_index_statements table_name named current, record schema { indexes = named })

-- buildAddIndexStatements
unfoldable pub build_add_index_statements :
    MysqlConnection → Text → MysqlTableSchema → Result (List Text)
unfolding add_index_statements
build_add_index_statements m table_name schema = do
  current ← list_table_indexes m table_name
  ok (add_index_statements table_name current schema.indexes)
