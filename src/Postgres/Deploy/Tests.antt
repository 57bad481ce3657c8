-- ===== src/Postgres/Deploy/Tests.antt =====
-- A table with a column, its key, a check constraint and a trigger, as it is declared.
pub mod Fixtures
use schemahero.Base.{
  ℕ, Bool, true, false, List, [], ◌∷◌, none, some, ◌≡◌, refl, inl, any, beq, arith,
}
use schemahero.Base.Text.{
  Text, lit, ◌==◌, join, to_lower, trim_space, has_prefix, has_suffix, replace_all, fields,
  contains,
}
use schemahero.Base.Result.{ok}
use schemahero.Base.Regex.{regex}
use schemahero.Schema.Postgresql.{PostgresqlTableTrigger, PostgresqlTableSchema}
use schemahero.Mysql.Connection.{key_of_rows}
use schemahero.Mysql.AlterStatements.{quote}
use schemahero.Mysql.Deploy.Keys.{desired_primary_key}
use schemahero.Postgres.Tests.{digest, pgx, adult, present_adult}
use schemahero.Types.Names.{generate_postgresql_check_name}
use schemahero.Postgres.Alter.{column_defaults_equal}
use schemahero.Postgres.Names.{split_qualified_table_name}
use schemahero.Postgres.Connection.{
  foreign_keys_of_rows, located, list_table_constraints, list_table_indexes,
  list_table_foreign_keys, list_table_check_constraints, list_table_exclusion_constraints,
  list_table_triggers, get_table_primary_key,
}
use schemahero.Postgres.Rows.{PostgresConnection, ColumnRow}
use schemahero.Postgres.Connection.Composite.{composite_key_lost}
use schemahero.Postgres.Checks.{check_expr_equivalent, strip_check_wrapper}
use schemahero.Postgres.Column.{schema_column_to_column}
use schemahero.Postgres.Named.{find_named, named_changes}
use schemahero.Postgres.Named.Execute.{execute_all}
use schemahero.Postgres.Named.Settled.{named_changes_converge}
use schemahero.Postgres.Triggers.{
  PgTrigger, Wanted, normalize_trigger_definition, trigger_create_statement, wanted_triggers,
}
use schemahero.Postgres.Executables.{qualified_in_schema}
use schemahero.Postgres.Deploy.{check_if_table_exists, existing_column, find_column, plan_connected}
use schemahero.Postgres.Deploy.Steady.{postgres_plan_steady}
use schemahero.Postgres.Deploy.InSync.{InSync}

abbrev id_row : ColumnRow
id_row = record {
  name = lit "id";
  default = none;
  is_nullable = lit "NO";
  data_type = lit "integer";
  udt_name = lit "int4";
  max_length = none;
}

abbrev trigger_definition : Text
trigger_definition =
    lit "CREATE TRIGGER tt AFTER INSERT ON public.people FOR EACH ROW EXECUTE FUNCTION public.f()"

abbrev pub server : PostgresConnection
server = record {
  schemas = lit "public" ∷ [];
  schema = lit "public";
  table_names = λ s. ok (lit "people" ∷ []);
  table_count = λ s t. ok 1;
  column_rows = λ s t. ok (id_row ∷ []);
  schema_rows = λ s t. ok (id_row ∷ []);
  constraint_names = λ s t. ok [];
  index_rows = λ t. ok [];
  foreign_key_rows = λ s t. ok [];
  check_rows = λ s t. ok (record { name = lit "adult"; definition = lit "CHECK (age >= 18)" } ∷ []);
  exclusion_rows = λ s t. ok [];
  trigger_rows = λ s t. ok (record { name = lit "tt"; definition = trigger_definition } ∷ []);
  key_rows =
      λ s t. ok (record { constraint_name = lit "people_pkey"; column_name = lit "id" } ∷ []);
  row_security = λ s t. ok none;
  policy_rows = λ s t. ok [];
  extension_count = λ n. ok 0;
  function_definition = λ s. ok none;
}

abbrev tt_trigger : PostgresqlTableTrigger
tt_trigger = record {
  name = lit "tt";
  constraint_trigger = none;
  events = lit "after insert" ∷ [];
  for_each_statement = none;
  for_each_row = some true;
  condition = none;
  execute = none;
  execute_procedure = lit "f()";
}

abbrev pub people : PostgresqlTableSchema
people = record {
  schema = [];
  primary_key = lit "id" ∷ [];
  foreign_keys = [];
  checks = adult ∷ [];
  indexes = [];
  exclusion_constraints = [];
  columns =
      record {
        name = lit "id";
        type = lit "int4";
        constraints = some (record { not_null = some true });
        attributes = none;
        default = none;
      }
      ∷ [];
  is_deleted = false;
  json_triggers = [];
  triggers = tt_trigger ∷ [];
  row_level_security = none;
  policies = [];
}

abbrev wanted : Wanted
wanted = record {
  name = lit "tt";
  statement = lit "create trigger \"tt\" after insert on people for each row execute procedure f()";
}

abbrev present : PgTrigger
present = record { name = lit "tt"; definition = trigger_definition }

wanted_read : wanted_triggers pgx (lit "people") (tt_trigger ∷ []) ≡ ok (wanted ∷ [])
unfolding wanted_triggers lit ◌==◌ join to_lower trim_space has_prefix quote
wanted_read = refl

composite_key_lost_example :
    foreign_keys_of_rows [] (
      record {
        child_column = lit "a";
        parent_table = lit "teams";
        parent_column = lit "x";
        delete_rule = [];
        name = lit "fk";
        parent_schema = lit "hr";
      }
      ∷ record {
        child_column = lit "b";
        parent_table = lit "teams";
        parent_column = lit "y";
        delete_rule = [];
        name = lit "fk";
        parent_schema = lit "hr";
      }
      ∷ [])
    ≡ record {
      child_columns = lit "b" ∷ lit "b" ∷ [];
      parent_table = lit "hr.teams";
      parent_columns = lit "y" ∷ lit "y" ∷ [];
      name = lit "fk";
      on_delete = [];
    }
      ∷ []
unfolding lit ◌==◌
composite_key_lost_example =
    composite_key_lost (lit "fk") (lit "hr") (lit "teams") [] (lit "a") (lit "b") (lit "x")
      (lit "y")

-- Objects that are a name with a number, one of them to be changed and one to be dropped.
abbrev numbered : List (Text × ℕ)
numbered = (lit "a", 1) ∷ (lit "b", 2) ∷ []

abbrev there : List (Text × ℕ)
there = (lit "b", 3) ∷ (lit "c", 4) ∷ []

abbrev same_number : Text × ℕ → Text × ℕ → Bool
same_number d c = beq d.1 c.1

named_changes_converge_example :
    named_changes
      (λ (d : Text × ℕ). d.0)
      (λ (c : Text × ℕ). c.0)
      same_number
      numbered
      (execute_all
        (λ (d : Text × ℕ). d.0)
        (λ (c : Text × ℕ). c.0)
        same_number
        (λ d. d)
        (named_changes (λ (d : Text × ℕ). d.0) (λ (c : Text × ℕ). c.0) same_number numbered there)
        there)
    ≡ []
unfolding lit ◌==◌
named_changes_converge_example =
    named_changes_converge (λ (d : Text × ℕ). d.0) (λ (c : Text × ℕ). c.0) same_number (λ d. d)
      numbered there (λ d. refl) (λ d. ground arith) ((refl, tt), (tt, tt))

pub people-InSync : InSync digest pgx server (lit "people") people
unfolding lit ◌==◌ any located check_if_table_exists list_table_constraints list_table_indexes
    list_table_foreign_keys list_table_check_constraints list_table_exclusion_constraints
    list_table_triggers get_table_primary_key split_qualified_table_name existing_column
    schema_column_to_column key_of_rows desired_primary_key strip_check_wrapper join to_lower
    trim_space has_prefix has_suffix replace_all fields normalize_trigger_definition
    trigger_create_statement wanted_triggers quote regex contains find_column column_defaults_equal
    find_named generate_postgresql_check_name check_expr_equivalent qualified_in_schema
people-InSync = record {
  rows = id_row ∷ [];
  key = some (record { name = lit "people_pkey"; columns = lit "id" ∷ []; is_primary = true });
  foreign_keys = [];
  checks = present_adult ∷ [];
  indexes = [];
  constraints = [];
  exclusions = [];
  wanted = wanted ∷ [];
  triggers = present ∷ [];
  table_exists = refl;
  rows_read = refl;
  columns_agree = (
    (
      record {
        name = lit "id";
        type = lit "int4";
        constraints = some (record { not_null = some true });
        attributes = none;
        default = none;
      },
      existing_column id_row,
      refl,
      refl,
      (refl, refl, refl, refl),
    ),
    tt,
  );
  columns_present = (refl, tt);
  key_read = refl;
  key_agrees = refl;
  foreign_keys_read = refl;
  foreign_keys_present = tt;
  foreign_keys_declared = tt;
  checks_read = refl;
  checks_met = ((present_adult, refl, refl), tt);
  checks_declared = (refl, tt);
  indexes_read = refl;
  constraints_read = refl;
  indexes_met = tt;
  indexes_declared = tt;
  exclusions_read = refl;
  exclusions_met = tt;
  exclusions_declared = tt;
  triggers_read = refl;
  triggers_wanted = wanted_read;
  triggers_met = ((present, refl, refl), tt);
  triggers_declared = (refl, tt);
  security = inl refl;
}

postgres_plan_steady_example : plan_connected digest pgx server (lit "people") people none ≡ ok []
postgres_plan_steady_example =
    postgres_plan_steady digest pgx server (lit "people") people people-InSync refl
