-- ===== src/Postgres/Deploy/Steady.antt =====
-- The plan for a table that is as it is declared.
use schemahero.Base.{true, false, List, [], ◌∷◌, none, some, ◌≡◌, ◌⊎◌, inl, inr, refl, ap, any, All}
use schemahero.Base.Text.{Text, lit, ◌==◌}
use schemahero.Base.Result.{ok, collect, wrap}
use schemahero.Schema.Postgresql.{PostgresqlTableColumn, PostgresqlTableSchema}
use schemahero.Types.Columns.{Column}
use schemahero.Types.Keys.{key_equals_iff}
use schemahero.Types.Exclusions.{ExclusionConstraint}
use schemahero.Types.Names.{Digest}
use schemahero.Mysql.Deploy.Keys.{desired_primary_key}
use schemahero.Postgres.Names.{Pgx}
use schemahero.Postgres.Alter.{altered_column_statements}
use schemahero.Postgres.Alter.Drift.{IsSame, match_iff}
use schemahero.Postgres.Column.{schema_column_to_column}
use schemahero.Postgres.Connection.{
  list_table_constraints, list_table_indexes, list_table_foreign_keys, list_table_check_constraints,
  list_table_exclusion_constraints, list_table_triggers, get_table_primary_key,
  get_table_row_security, list_table_policies,
}
use schemahero.Postgres.Rows.{PostgresConnection, ColumnRow}
use schemahero.Postgres.Keys.{
  build_primary_key_statements, primary_key_statements, build_postgres_foreign_key_statements,
  build_index_statements,
}
use schemahero.Postgres.Keys.Steady.{foreign_keys_plan_empty_iff, indexes_plan_empty_iff}
use schemahero.Postgres.Checks.{build_check_constraint_statements}
use schemahero.Postgres.Checks.Steady.{check_plan_empty_iff}
use schemahero.Postgres.Named.Converge.{named_changes-eq-nil_iff}
use schemahero.Postgres.Exclusions.{
  exclusion_name, same_exclusion, exclusion_statements, build_exclusion_constraint_statements,
}
use schemahero.Postgres.Triggers.{
  PgTrigger, Wanted, same_trigger, trigger_statements, build_trigger_statements,
}
use schemahero.Postgres.Security.{build_row_level_security_statements}
use schemahero.Postgres.Security.Steady.{row_level_security_steady}
use schemahero.Postgres.Deploy.{
  check_if_table_exists, existing_column, find_column, alter_column_statements, row_statements,
  missing_column_statements, build_column_statements, alter_table_statements, plan_connected,
}
use schemahero.Postgres.Deploy.InSync.{ColumnAgrees, SecurityInSync, InSync}

module _ (sha256 : Digest) (pgx : Pgx) (p : PostgresConnection) (table_name : Text)
    (schema : PostgresqlTableSchema) (s : InSync sha256 pgx p table_name schema) where
  altered_steady :
      (existing : Column) (d : PostgresqlTableColumn) (column : Column)
      → find_column existing.name schema.columns ≡ some d
      → schema_column_to_column d ≡ ok column
      → IsSame existing column
      → alter_column_statements sha256 pgx table_name schema.primary_key schema.columns existing
        ≡ ok []
  unfolding alter_column_statements altered_column_statements
  altered_steady existing d column is read same =
      rw (is, alter_column_statements) (rw (read, (match_iff existing column).1 same) refl)

  row_steady :
      (r : ColumnRow)
      → ColumnAgrees schema.columns r
      → row_statements sha256 pgx table_name schema r ≡ ok []
  unfolding row_statements
  row_steady r (d, column, is, read, same) =
      ap (wrap (lit "failed to create alter column statement"))
        (altered_steady (existing_column r) d column is read same)

  rows_steady :
      (rows : List ColumnRow)
      → All (ColumnAgrees schema.columns) rows
      → collect (row_statements sha256 pgx table_name schema) rows ≡ ok []
  unfolding collect
  rows_steady [] h = refl
  rows_steady (r ∷ rs) (h, hs) = rw (row_steady r h, rows_steady rs hs) refl

  columns_present_steady :
      (rows : List ColumnRow) (ds : List PostgresqlTableColumn)
      → All (λ d. any (λ r. r.name == d.name) rows ≡ true) ds
      → collect (missing_column_statements sha256 pgx table_name rows) ds ≡ ok []
  unfolding collect missing_column_statements
  columns_present_steady rows [] h = refl
  columns_present_steady rows (d ∷ ds) (h, hs) = rw (h, columns_present_steady rows ds hs) refl

  columns_steady : build_column_statements sha256 pgx p table_name schema ≡ ok []
  unfolding build_column_statements
  columns_steady =
      rw
        (
          s.rows_read,
          rows_steady s.rows s.columns_agree,
          columns_present_steady s.rows schema.columns s.columns_present,
        )
        refl

  key_steady :
      build_primary_key_statements sha256 pgx table_name schema.primary_key
        (get_table_primary_key p table_name)
      ≡ ok []
  unfolding build_primary_key_statements primary_key_statements
  key_steady =
      rw
        (s.key_read, (key_equals_iff (desired_primary_key schema.primary_key) s.key).1 s.key_agrees)
        refl

  foreign_keys_steady :
      build_postgres_foreign_key_statements sha256 pgx table_name schema.foreign_keys
        (list_table_foreign_keys p table_name)
      ≡ ok []
  unfolding build_postgres_foreign_key_statements
  foreign_keys_steady =
      rw
        (
          s.foreign_keys_read,
          (foreign_keys_plan_empty_iff sha256 pgx table_name schema.foreign_keys s.foreign_keys).1
              (s.foreign_keys_present, s.foreign_keys_declared),
        )
        refl

  checks_steady :
      build_check_constraint_statements sha256 pgx table_name schema.checks
        (list_table_check_constraints p table_name)
      ≡ ok []
  unfolding build_check_constraint_statements
  checks_steady =
      rw
        (
          s.checks_read,
          (check_plan_empty_iff sha256 pgx table_name schema.checks s.checks).1
              (s.checks_met, s.checks_declared),
        )
        refl

  indexes_steady :
      build_index_statements sha256 pgx table_name schema.indexes
        (list_table_indexes p table_name)
        (list_table_constraints p table_name)
        (check_if_table_exists p table_name)
      ≡ ok []
  unfolding build_index_statements
  indexes_steady =
      rw
        (
          s.indexes_read,
          s.constraints_read,
          s.table_exists,
          (indexes_plan_empty_iff sha256 pgx table_name true s.constraints schema.indexes
                s.indexes).1
              (s.indexes_met, s.indexes_declared),
        )
        refl

  exclusions_steady :
      build_exclusion_constraint_statements sha256 pgx table_name schema.exclusion_constraints
        (list_table_exclusion_constraints p table_name)
      ≡ ok []
  unfolding build_exclusion_constraint_statements exclusion_statements
  exclusions_steady =
      rw
        (
          s.exclusions_read,
          (named_changes-eq-nil_iff (exclusion_name sha256 pgx table_name)
                (λ (c : ExclusionConstraint). c.name) (same_exclusion sha256 pgx)
                schema.exclusion_constraints s.exclusions).1
              (s.exclusions_met, s.exclusions_declared),
        )
        refl

  triggers_steady :
      build_trigger_statements pgx table_name schema.schema schema.json_triggers schema.triggers
        (list_table_triggers p table_name)
      ≡ ok []
  unfolding build_trigger_statements trigger_statements
  triggers_steady =
      rw
        (
          s.triggers_read,
          s.triggers_wanted,
          (named_changes-eq-nil_iff (λ (w : Wanted). w.name) (λ (c : PgTrigger). c.name)
                same_trigger s.wanted s.triggers).1
              (s.triggers_met, s.triggers_declared),
        )
        refl

  security_steady :
      (o : (schema.row_level_security ≡ none) ⊎ SecurityInSync pgx p table_name schema)
      → build_row_level_security_statements pgx table_name schema.row_level_security schema.policies
          (get_table_row_security p table_name)
          (list_table_policies p table_name)
        ≡ ok []
  security_steady (inl unmanaged) =
      rw unmanaged (unfold build_row_level_security_statements in refl)
  security_steady (inr t) =
      rw (t.managed, t.flags_read, t.policies_read)
        (row_level_security_steady pgx table_name t.rls schema.policies t.current t.policies
          t.enabled t.forced t.kept t.declared)

  alter_steady : alter_table_statements sha256 pgx p table_name schema ≡ ok []
  unfolding alter_table_statements
  alter_steady =
      rw
        (
          columns_steady,
          key_steady,
          foreign_keys_steady,
          checks_steady,
          indexes_steady,
          exclusions_steady,
          triggers_steady,
          security_steady s.security,
        )
        refl

-- The plan for a table that exists, is not to be deleted, has no seed data and is as it is declared is
-- empty: the columns agree and are all there, as do the primary key, the foreign keys, the check
-- constraints, the indexes, the exclusion constraints and the triggers, and row level security agrees
-- where it is managed.
pub postgres_plan_steady :
    (sha256 : Digest) (pgx : Pgx) (p : PostgresConnection) (table_name : Text)
    (schema : PostgresqlTableSchema)
    → InSync sha256 pgx p table_name schema
    → schema.is_deleted ≡ false
    → plan_connected sha256 pgx p table_name schema none ≡ ok []
unfolding plan_connected
postgres_plan_steady sha256 pgx p table_name schema s kept =
    rw (s.table_exists, alter_steady sha256 pgx p table_name schema s, kept) refl
