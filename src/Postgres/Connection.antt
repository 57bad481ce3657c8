-- ===== src/Postgres/Connection.antt =====
-- plugins/postgres/lib/tables.go and udt.go: what the planner reads of a table. The server that answers
-- the queries is a parameter: its answers, each of which may be an error, for the database that the
-- connection names.
pub mod Composite
use schemahero.Base.{
  ℕ, Bool, true, false, not, List, [], ◌∷◌, ◌++◌, map, Option, none, some, if◌then◌else◌, ltb,
}
use schemahero.Base.Maps.{TextMap}
use schemahero.Base.Text.{Text, lit, ◌==◌, is_empty, to_lower}
use schemahero.Base.Text.Number.{itoa}
use schemahero.Base.Result.{Result, ok, wrap, collect, ◌>>=◌}
use schemahero.Types.Columns.{Column, Table}
use schemahero.Types.Keys.{KeyConstraint}
use schemahero.Types.Indexes.{Index}
use schemahero.Types.ForeignKeys.{ForeignKey}
use schemahero.Types.Exclusions.{ExclusionConstraint}
use schemahero.Types.Policies.{RowLevelSecurity, Policy, policy_command_from_catalog_char}
use schemahero.Mysql.Connection.{KeyRow, key_of_rows}
use schemahero.Postgres.Names.{has_dot, split_at_dot}
use schemahero.Postgres.Alter.{strip_oid_class}
use schemahero.Postgres.Checks.{CheckConstraint, strip_check_wrapper}
use schemahero.Postgres.Elements.{parse_index_elements}
use schemahero.Postgres.Exclusions.{parse_exclusion_constraint_def}
use schemahero.Postgres.Triggers.{PgTrigger}
use schemahero.Postgres.Rows.{ColumnRow, IndexRow, ForeignKeyRow, PolicyRow, PostgresConnection}

-- What a query on a table is given: the schema in front of the dot, or that of the connection.
unfoldable pub located : PostgresConnection → Text → Text × Text
unfolding split_at_dot
located p table_name =
    if has_dot table_name then split_at_dot table_name table_name else (p.schema, table_name)

abbrev pub in_public : Text → Text → Text
in_public schema name = if schema == lit "public" then name else schema ++ lit "." ++ name

-- ListTables
unfoldable pub list_tables : PostgresConnection → Result (List Table)
unfolding collect
list_tables p =
    collect
      (λ schema. do
        names ← wrap (lit "failed to list tables in schema " ++ schema) (p.table_names schema)
        ok (
            map
              (λ n. record {
                name = in_public schema n;
                schema = schema;
                charset = [];
                collation = [];
              })
              names))
      p.schemas

-- ListTableConstraints
unfoldable pub list_table_constraints : PostgresConnection → Text → Result (List Text)
unfolding located
list_table_constraints p table_name =
    let (schema, table) = located p table_name in
    wrap (lit "failed to list constraints") (p.constraint_names schema table)

abbrev or_empty : Option Text → Text
or_empty none = []
or_empty (some s) = s

unfoldable pub to_index : IndexRow → Index
unfolding parse_index_elements to_lower
to_index r = record {
  columns = r.columns;
  name = r.name;
  is_unique = r.is_unique;
  parameters = r.parameters;
  type = if to_lower r.method == lit "btree" then [] else r.method;
  condition = or_empty r.predicate;
  expressions = (parse_index_elements r.definition).1;
  sorted_columns = (parse_index_elements r.definition).0;
}

-- ListTableIndexes
unfoldable pub list_table_indexes : PostgresConnection → Text → Result (List Index)
unfolding located to_index
list_table_indexes p table_name =
    let (schema, table) = located p table_name in
    wrap (lit "failed to query indexes") (p.index_rows (in_public schema table))
    >>= (λ rows. ok (map to_index rows))

-- One row of ListTableForeignKeys: a key that is known by its name gets the columns that the source
-- writes there, those of the row's own key with the row's column once more.
unfoldable pub add_foreign_key_row : List ForeignKey → ForeignKeyRow → List ForeignKey
add_foreign_key_row [] r =
    record {
      child_columns = r.child_column ∷ [];
      parent_table = in_public r.parent_schema r.parent_table;
      parent_columns = r.parent_column ∷ [];
      name = r.name;
      on_delete = r.delete_rule;
    }
    ∷ []
add_foreign_key_row (fk ∷ fks) r =
    let rest = add_foreign_key_row fks r in
    if fk.name == r.name
    then record fk {
      child_columns = r.child_column ∷ r.child_column ∷ [];
      parent_columns = r.parent_column ∷ r.parent_column ∷ [];
    }
      ∷ fks
    else fk ∷ rest

unfoldable pub foreign_keys_of_rows : List ForeignKey → List ForeignKeyRow → List ForeignKey
unfolding add_foreign_key_row
foreign_keys_of_rows found [] = found
foreign_keys_of_rows found (r ∷ rs) = foreign_keys_of_rows (add_foreign_key_row found r) rs

-- ListTableForeignKeys
unfoldable pub list_table_foreign_keys : PostgresConnection → Text → Result (List ForeignKey)
unfolding located foreign_keys_of_rows
list_table_foreign_keys p table_name =
    let (schema, table) = located p table_name in
    wrap (lit "failed to query foreign keys") (p.foreign_key_rows schema table)
    >>= (λ rows. ok (foreign_keys_of_rows [] rows))

-- ListTableCheckConstraints
unfoldable pub list_table_check_constraints :
    PostgresConnection → Text → Result (List CheckConstraint)
unfolding located strip_check_wrapper
list_table_check_constraints p table_name =
    let (schema, table) = located p table_name in
    wrap (lit "failed to query check constraints") (p.check_rows schema table) >>= (λ rows.
      ok (map (λ r. record { name = r.name; expression = strip_check_wrapper r.definition }) rows))

-- ListTableExclusionConstraints
unfoldable pub list_table_exclusion_constraints :
    PostgresConnection → Text → Result (List ExclusionConstraint)
unfolding located parse_exclusion_constraint_def
list_table_exclusion_constraints p table_name =
    let (schema, table) = located p table_name in
    wrap (lit "failed to query exclusion constraints") (p.exclusion_rows schema table)
    >>= (λ rows. ok (map (λ r. parse_exclusion_constraint_def r.name r.definition) rows))

-- ListTableTriggers
unfoldable pub list_table_triggers : PostgresConnection → Text → Result (List PgTrigger)
unfolding located
list_table_triggers p table_name =
    let (schema, table) = located p table_name in
    wrap (lit "failed to query triggers") (p.trigger_rows schema table)
    >>= (λ rows. ok (map (λ r. record { name = r.name; definition = r.definition }) rows))

-- GetTablePrimaryKey
unfoldable pub get_table_primary_key : PostgresConnection → Text → Result (Option KeyConstraint)
unfolding located key_of_rows
get_table_primary_key p table_name =
    let (schema, table) = located p table_name in
    wrap (lit "failed to query primary keys") (p.key_rows schema table)
    >>= (λ rows. ok (key_of_rows rows))

abbrev pub with_max_length : Text → Option ℕ → Text
with_max_length data_type none = data_type
with_max_length data_type (some n) = data_type ++ lit " (" ++ itoa n ++ lit ")"

abbrev pub read_default : Option Text → Option Text
read_default none = none
read_default (some d) = some (strip_oid_class d)

unfoldable pub to_column : ColumnRow → Column
unfolding strip_oid_class itoa
to_column r = record {
  name = r.name;
  data_type = with_max_length r.data_type r.max_length;
  column_default = read_default r.default;
  constraints = some (record { not_null = some (r.is_nullable == lit "NO") });
  attributes = none;
  is_array = false;
  charset = [];
  collation = [];
  is_static = false;
}

-- GetTableSchema
unfoldable pub get_table_schema : PostgresConnection → Text → Result (List Column)
unfolding located to_column
get_table_schema p table_name =
    let (schema, table) = located p table_name in
    wrap (lit "failed to query table schema") (p.schema_rows schema table)
    >>= (λ rows. ok (map to_column rows))

abbrev flags_or_unset : Option (Bool × Bool) → RowLevelSecurity
flags_or_unset none = record { enabled = false; forced = false }
flags_or_unset (some (enabled, forced)) = record { enabled = enabled; forced = forced }

-- GetTableRowSecurity
unfoldable pub get_table_row_security : PostgresConnection → Text → Result RowLevelSecurity
unfolding located
get_table_row_security p table_name =
    let (schema, table) = located p table_name in
    wrap (lit "failed to scan row level security flags") (p.row_security schema table)
    >>= (λ found. ok (flags_or_unset found))

unfoldable pub to_policy : PolicyRow → Policy
unfolding policy_command_from_catalog_char
to_policy r = record {
  name = r.name;
  command = policy_command_from_catalog_char r.command;
  permissive = r.permissive;
  roles = r.roles;
  using = r.using;
  with_check = r.with_check;
}

-- ListTablePolicies
unfoldable pub list_table_policies : PostgresConnection → Text → Result (List Policy)
unfolding located to_policy
list_table_policies p table_name =
    let (schema, table) = located p table_name in
    wrap (lit "failed to query policies") (p.policy_rows schema table)
    >>= (λ rows. ok (map to_policy rows))

-- UDTNameToDataType
unfoldable pub udt_name_to_data_type : Text → Text
udt_name_to_data_type udt_name =
    if udt_name == lit "_int4"
    then lit "integer"
    else if udt_name == lit "_text"
    then lit "text"
    else udt_name
