-- ===== src/Postgres/Tests.antt =====
-- A table with one check constraint, its flags and its policy.
use schemahero.Base.{
  Bool, Option, ℕ, zero, suc, false, true, [], ◌∷◌, none, some, ◌≡◌, ◌↔◌, inl, inr, refl, any, All,
}
use schemahero.Base.Text.{
  Text, lit, ◌==◌, join, to_lower, to_upper, trim_space, has_prefix, has_suffix,
}
use schemahero.Base.Text.Order.{text_less}
use schemahero.Base.Result.{ok, err, failed}
use schemahero.Mysql.AlterStatements.{quote}
use schemahero.Schema.Dialects.{
  PostgresqlTableCheckConstraint, PostgresqlTablePolicy, PostgresqlTableForeignKey,
  PostgresqlTableIndex,
}
use schemahero.Schema.Postgresql.{PostgresqlTableRowLevelSecurity}
use schemahero.Types.Names.{Digest}
use schemahero.Types.Keys.{columns_equal}
use schemahero.Types.Policies.{
  RowLevelSecurity, Policy, attributes_equal, postgresql_schema_policy_to_policy,
}
use schemahero.Types.ForeignKeys.{ForeignKey}
use schemahero.Types.Indexes.{Index}
use schemahero.Postgres.Names.{Pgx}
use schemahero.Types.Columns.{Column}
use schemahero.Postgres.Alter.{strip_oid_class, altered_column_statements}
use schemahero.Postgres.Alter.Drift.{IsSame, altered_column_empty_iff}
use schemahero.Postgres.Constraints.{add_index_statement}
use schemahero.Postgres.Keys.{
  is_foreign_key_declared, foreign_keys_plan, is_index_declared, named_indexes, indexes_plan,
}
use schemahero.Postgres.Keys.Steady.{
  is_foreign_key_present, foreign_keys_plan_empty_iff, is_index_met, indexes_plan_empty_iff,
}
use schemahero.Postgres.Checks.{CheckConstraint, strip_check_wrapper, check_statements}
use schemahero.Postgres.Checks.Steady.{IsMet, is_declared, check_plan_empty_iff}
use schemahero.Postgres.Security.{build_row_level_security_statements}
use schemahero.Postgres.Security.Steady.{row_level_security_steady}

abbrev zeros : ℕ → Text
zeros zero = []
zeros (suc n) = b'0' ∷ zeros n

abbrev pub digest : Digest
digest = record { hex = λ s. zeros 64; length-hex = λ s. refl }

abbrev pub pgx : Pgx
pgx = record { sanitize = λ parts. join (lit ".") parts }

strip_keyword : strip_check_wrapper (lit "CHECK ((age >= 0))") ≡ lit "(age >= 0)"
unfolding strip_check_wrapper lit has_prefix has_suffix to_lower trim_space ◌==◌
strip_keyword = refl

abbrev pub adult : PostgresqlTableCheckConstraint
adult = record { name = lit "adult"; expression = lit "(age >= 18)" }

abbrev pub present_adult : CheckConstraint
present_adult = record { name = lit "adult"; expression = lit "age >= 18" }

abbrev present_child : CheckConstraint
present_child = record { name = lit "adult"; expression = lit "age >= 8" }

changed_predicate :
    check_statements digest pgx (lit "hr.t") (adult ∷ []) (present_child ∷ [])
    ≡ lit "alter table hr.t drop constraint adult"
      ∷ lit "alter table hr.t add constraint adult check ((age >= 18))"
      ∷ []
unfolding check_statements lit any join ◌==◌
changed_predicate = refl

check_plan_empty_iff_example :
    (check_statements digest pgx (lit "hr.t") (adult ∷ []) (present_adult ∷ []) ≡ []) ↔ (
      All (IsMet digest pgx (lit "hr.t") (present_adult ∷ [])) (adult ∷ [])
      × All (λ c. is_declared digest pgx (lit "hr.t") (adult ∷ []) c ≡ true) (present_adult ∷ []))
check_plan_empty_iff_example =
    check_plan_empty_iff digest pgx (lit "hr.t") (adult ∷ []) (present_adult ∷ [])

abbrev security : PostgresqlTableRowLevelSecurity
security = record { enable = lit " Enable"; force = [] }

abbrev own_rows : PostgresqlTablePolicy
own_rows = record {
  name = lit "own";
  command = lit "select";
  permissive = [];
  roles = lit "b" ∷ lit "a" ∷ [];
  using = some (lit "id = 1");
  with_check = none;
}

abbrev present_own_rows : Policy
present_own_rows = record {
  name = lit "own";
  command = lit "SELECT";
  permissive = true;
  roles = lit "a" ∷ lit "b" ∷ [];
  using = some (lit "(id = 1)");
  with_check = none;
}

abbrev flags : RowLevelSecurity
flags = record { enabled = true; forced = true }

mistyped_toggle :
    build_row_level_security_statements pgx
      (lit "t")
      (some (record security { force = lit "on" }))
      []
      (ok flags)
      (ok [])
    ≡ err (
        failed
          (lit "invalid rowLevelSecurity toggle \"on\" (want \"force\", \"noforce\", or empty)"))
unfolding build_row_level_security_statements lit to_lower trim_space ◌==◌ quote
mistyped_toggle = refl

row_level_security_steady_example :
    build_row_level_security_statements pgx
      (lit "t")
      (some security)
      (own_rows ∷ [])
      (ok flags)
      (ok (present_own_rows ∷ []))
    ≡ ok []
unfolding lit ◌==◌ to_lower to_upper trim_space attributes_equal postgresql_schema_policy_to_policy
    join any columns_equal
row_level_security_steady_example =
    row_level_security_steady pgx (lit "t") security (own_rows ∷ []) flags (present_own_rows ∷ [])
      (inr (inl (refl, refl))) (inl refl) ((refl, present_own_rows, refl, refl), tt) (refl, tt)

abbrev team_fk : PostgresqlTableForeignKey
team_fk = record {
  columns = lit "team" ∷ [];
  references = record { table = lit "teams"; columns = lit "id" ∷ [] };
  on_delete = [];
  name = [];
}

abbrev present_team_fk : ForeignKey
present_team_fk = record {
  child_columns = lit "team" ∷ [];
  parent_table = lit "hr.teams";
  parent_columns = lit "id" ∷ [];
  name = lit "t_team_fkey";
  on_delete = lit "NO ACTION";
}

foreign_keys_plan_empty_iff_example :
    (foreign_keys_plan digest pgx (lit "hr.t") (team_fk ∷ []) (present_team_fk ∷ []) ≡ []) ↔ (
      All
        (λ d. is_foreign_key_present digest pgx (lit "hr.t") (present_team_fk ∷ []) d ≡ true)
        (team_fk ∷ [])
      × All
          (λ c. is_foreign_key_declared digest pgx (lit "hr.t") (team_fk ∷ []) c ≡ true)
          (present_team_fk ∷ []))
foreign_keys_plan_empty_iff_example =
    foreign_keys_plan_empty_iff digest pgx (lit "hr.t") (team_fk ∷ []) (present_team_fk ∷ [])

abbrev pub tags_index : PostgresqlTableIndex
tags_index = record {
  columns = lit "tags" ∷ [];
  name = lit "by_tags";
  is_unique = false;
  type = lit "GIN";
  parameters = (lit "fillfactor", lit "70") ∷ (lit "fastupdate", lit "off") ∷ [];
  condition = lit " tags is not null ";
  expressions = [];
  sorted_columns = [];
}

abbrev present_tags_index : Index
present_tags_index = record {
  columns = lit "tags" ∷ [];
  name = lit "by_tags";
  is_unique = false;
  parameters = [];
  type = [];
  condition = [];
  expressions = [];
  sorted_columns = [];
}

-- The storage parameters are in the order of their names.
added_index :
    add_index_statement digest pgx (lit "hr.t") tags_index
    ≡ lit
        "create index by_tags on hr.t using gin (tags) with (fastupdate = off, fillfactor = 70) where tags is not null"
unfolding add_index_statement lit join ◌==◌ to_lower trim_space text_less
added_index = refl

indexes_plan_empty_iff_example :
    (indexes_plan digest pgx (lit "hr.t") true [] (tags_index ∷ []) (present_tags_index ∷ []) ≡ [])
    ↔ (All
          (λ d. is_index_met digest pgx (lit "hr.t") true (present_tags_index ∷ []) d ≡ true)
          (tags_index ∷ [])
        × All
            (λ c.
              is_index_declared digest pgx
                (lit "hr.t")
                (named_indexes digest pgx (lit "hr.t") true (tags_index ∷ []))
                c
              ≡ true)
            (present_tags_index ∷ []))
indexes_plan_empty_iff_example =
    indexes_plan_empty_iff digest pgx (lit "hr.t") true [] (tags_index ∷ [])
      (present_tags_index ∷ [])

abbrev text_column : Text → Bool → Option Text → Column
text_column data_type is_array column_default = record {
  name = lit "state";
  data_type = data_type;
  column_default = column_default;
  constraints = some (record { not_null = some true });
  attributes = none;
  is_array = is_array;
  charset = [];
  collation = [];
  is_static = false;
}

strip_cast : strip_oid_class (lit "'pending'::state") ≡ lit "'pending'"
unfolding strip_oid_class lit
strip_cast = refl

-- A column that is not to be an array any more stays one.
array_stays :
    altered_column_statements pgx
      (lit "t")
      []
      (text_column (lit "text") true none)
      (text_column (lit "text") false none)
    ≡ lit "alter table t alter column state type text[] using state::text[]" ∷ []
unfolding altered_column_statements lit ◌==◌ join any
array_stays = refl

altered_column_empty_iff_example :
    (altered_column_statements pgx
        (lit "t")
        (lit "id" ∷ [])
        (text_column (lit "timestamp without time zone") false (some (lit "('now'::text)")))
        (text_column (lit "timestamp") false (some (lit "'now'")))
      ≡ [])
    ↔ IsSame
        (text_column (lit "timestamp without time zone") false (some (lit "('now'::text)")))
        (text_column (lit "timestamp") false (some (lit "'now'")))
unfolding lit ◌==◌ any
altered_column_empty_iff_example =
    altered_column_empty_iff pgx (lit "t") (lit "id" ∷ [])
      (text_column (lit "timestamp without time zone") false (some (lit "('now'::text)")))
      (text_column (lit "timestamp") false (some (lit "'now'"))) refl refl
