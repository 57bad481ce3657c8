-- ===== src/Postgres/Deploy/InSync.antt =====
-- When a PostgreSQL table is as it is declared, over what its connection answers.
use schemahero.Base.{true, List, Option, none, some, ◌≡◌, ◌⊎◌, any, All}
use schemahero.Base.Text.{Text, lit, ◌==◌}
use schemahero.Base.Result.{ok}
use schemahero.Schema.Postgresql.{
  PostgresqlTableColumn, PostgresqlTableSchema, PostgresqlTableRowLevelSecurity,
}
use schemahero.Types.Columns.{Column}
use schemahero.Types.Keys.{KeyConstraint, shape}
use schemahero.Types.Indexes.{Index}
use schemahero.Types.ForeignKeys.{ForeignKey}
use schemahero.Types.Exclusions.{ExclusionConstraint}
use schemahero.Types.Policies.{RowLevelSecurity, Policy}
use schemahero.Types.Names.{Digest}
use schemahero.Mysql.Deploy.Keys.{desired_primary_key}
use schemahero.Postgres.Names.{Pgx, split_qualified_table_name}
use schemahero.Postgres.Alter.Drift.{IsSame}
use schemahero.Postgres.Column.{schema_column_to_column}
use schemahero.Postgres.Connection.{
  list_table_constraints, list_table_indexes, list_table_foreign_keys, list_table_check_constraints,
  list_table_exclusion_constraints, list_table_triggers, get_table_primary_key,
  get_table_row_security, list_table_policies,
}
use schemahero.Postgres.Rows.{PostgresConnection, ColumnRow}
use schemahero.Postgres.Keys.{is_foreign_key_declared, is_index_declared, named_indexes}
use schemahero.Postgres.Keys.Steady.{is_foreign_key_present, is_index_met}
use schemahero.Postgres.Checks.{CheckConstraint}
use schemahero.Postgres.Checks.Steady
use schemahero.Postgres.Checks.Steady.{is_declared, check_plan_empty_iff}
use schemahero.Postgres.Named.{is_named}
use schemahero.Postgres.Named.Converge.{IsMet}
use schemahero.Postgres.Exclusions.{exclusion_name, same_exclusion}
use schemahero.Postgres.Triggers.{
  PgTrigger, Wanted, same_trigger, declared_triggers, wanted_triggers,
}
use schemahero.Postgres.Executables.{qualified_in_schema}
use schemahero.Postgres.Security.{is_policy_declared}
use schemahero.Postgres.Security.Steady.{IsToggled, IsKept}
use schemahero.Postgres.Deploy.{check_if_table_exists, existing_column, find_column}

-- The declared column of that name is the column of the row.
abbrev pub ColumnAgrees : List PostgresqlTableColumn → ColumnRow → Type 0
ColumnAgrees columns r =
    (d : PostgresqlTableColumn) × (column : Column) × (find_column (existing_column r).name columns
      ≡ some d)
    × (schema_column_to_column d ≡ ok column)
    × IsSame (existing_column r) column

-- Row level security is not managed, or is as it is declared.
pub record SecurityInSync (pgx : Pgx) (p : PostgresConnection) (table_name : Text)
    (schema : PostgresqlTableSchema) : Type 0 where
  pub rls : PostgresqlTableRowLevelSecurity
  pub current : RowLevelSecurity
  pub policies : List Policy
  pub managed : schema.row_level_security ≡ some rls
  pub flags_read : get_table_row_security p table_name ≡ ok current
  pub policies_read : list_table_policies p table_name ≡ ok policies
  pub enabled : IsToggled rls.enable current.enabled (lit "enable") (lit "disable")
  pub forced : IsToggled rls.force current.forced (lit "force") (lit "noforce")
  pub kept : All (IsKept policies) schema.policies
  pub declared : All (λ c. is_policy_declared pgx schema.policies c ≡ true) policies

-- The table that the connection shows is as it is declared.
pub record InSync (sha256 : Digest) (pgx : Pgx) (p : PostgresConnection) (table_name : Text)
    (schema : PostgresqlTableSchema) : Type 0 where
  pub rows : List ColumnRow
  pub key : Option KeyConstraint
  pub foreign_keys : List ForeignKey
  pub checks : List CheckConstraint
  pub indexes : List Index
  pub constraints : List Text
  pub exclusions : List ExclusionConstraint
  pub wanted : List Wanted
  pub triggers : List PgTrigger
  pub table_exists : check_if_table_exists p table_name ≡ ok true
  pub rows_read :
      p.column_rows
        (split_qualified_table_name table_name).0
        (split_qualified_table_name table_name).1
      ≡ ok rows
  pub columns_agree : All (ColumnAgrees schema.columns) rows
  pub columns_present : All (λ d. any (λ r. r.name == d.name) rows ≡ true) schema.columns
  pub key_read : get_table_primary_key p table_name ≡ ok key
  pub key_agrees : shape (desired_primary_key schema.primary_key) ≡ shape key
  pub foreign_keys_read : list_table_foreign_keys p table_name ≡ ok foreign_keys
  pub foreign_keys_present :
      All
        (λ d. is_foreign_key_present sha256 pgx table_name foreign_keys d ≡ true)
        schema.foreign_keys
  pub foreign_keys_declared :
      All
        (λ c. is_foreign_key_declared sha256 pgx table_name schema.foreign_keys c ≡ true)
        foreign_keys
  pub checks_read : list_table_check_constraints p table_name ≡ ok checks
  pub checks_met : All (Steady.IsMet sha256 pgx table_name checks) schema.checks
  pub checks_declared : All (λ c. is_declared sha256 pgx table_name schema.checks c ≡ true) checks
  pub indexes_read : list_table_indexes p table_name ≡ ok indexes
  pub constraints_read : list_table_constraints p table_name ≡ ok constraints
  pub indexes_met :
      All (λ d. is_index_met sha256 pgx table_name true indexes d ≡ true) schema.indexes
  pub indexes_declared :
      All
        (λ c.
          is_index_declared sha256 pgx table_name
            (named_indexes sha256 pgx table_name true schema.indexes)
            c
          ≡ true)
        indexes
  pub exclusions_read : list_table_exclusion_constraints p table_name ≡ ok exclusions
  pub exclusions_met :
      All
        (IsMet
          (exclusion_name sha256 pgx table_name)
          (λ (c : ExclusionConstraint). c.name)
          (same_exclusion sha256 pgx)
          exclusions)
        schema.exclusion_constraints
  pub exclusions_declared :
      All
        (λ c.
          is_named
            (exclusion_name sha256 pgx table_name)
            (λ (k : ExclusionConstraint). k.name)
            (same_exclusion sha256 pgx)
            schema.exclusion_constraints
            c.name
          ≡ true)
        exclusions
  pub triggers_read : list_table_triggers p table_name ≡ ok triggers
  pub triggers_wanted :
      wanted_triggers pgx
        (qualified_in_schema schema.schema table_name)
        (declared_triggers pgx schema.json_triggers schema.triggers)
      ≡ ok wanted
  pub triggers_met :
      All (IsMet (λ (w : Wanted). w.name) (λ (c : PgTrigger). c.name) same_trigger triggers) wanted
  pub triggers_declared :
      All
        (λ c.
          is_named (λ (w : Wanted). w.name) (λ (k : PgTrigger). k.name) same_trigger wanted c.name
          ≡ true)
        triggers
  pub security : (schema.row_level_security ≡ none) ⊎ SecurityInSync pgx p table_name schema
