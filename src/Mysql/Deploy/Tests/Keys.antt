-- ===== src/Mysql/Deploy/Tests/Keys.antt =====
-- The plans for indexes and keys at small tables.
use schemahero.Base.{true, false, [], ◌∷◌, ◌≡◌, refl, any, All, keep, ◌↔◌}
use schemahero.Base.Text.{lit, ◌==◌, join, to_upper, trim_space}
use schemahero.Schema.Mysql.{MysqlTableForeignKey}
use schemahero.Types.Indexes.{Index, column_sets_equal}
use schemahero.Types.ForeignKeys.{
  ForeignKey, foreign_key_equals, mysql_schema_foreign_key_to_foreign_key,
}
use schemahero.Mysql.Connection.{foreign_keys_of_rows}
use schemahero.Types.Names.{generate_mysql_fk_name}
use schemahero.Mysql.Constraints.{add_foreign_key_statement, remove_foreign_key_statement}
use schemahero.Mysql.Deploy.Keys.{foreign_key_statements}
use schemahero.Mysql.Deploy.Keys.ForeignKeys.{
  is_present, is_declared, foreign_key_plan_empty_iff, declared_foreign_key_dropped,
  composite_foreign_key_never_present,
}
use schemahero.Mysql.Deploy.Keys.Exact.{foreign_key_plan_exact}
use schemahero.Mysql.Deploy.Tests.{team_key, team_key_row}

-- A second table: an index and a key that are not declared, and a declared index that is missing.
abbrev pub old_index : Index
old_index = record {
  columns = lit "id" ∷ [];
  name = lit "old";
  is_unique = false;
  parameters = [];
  type = [];
  condition = [];
  expressions = [];
  sorted_columns = [];
}

abbrev old_key : ForeignKey
old_key = record {
  child_columns = lit "id" ∷ [];
  parent_table = lit "old";
  parent_columns = lit "id" ∷ [];
  name = lit "old_fkey";
  on_delete = [];
}

abbrev old_schema_key : MysqlTableForeignKey
old_schema_key = record {
  columns = lit "id" ∷ [];
  references = record { table = lit "old"; columns = lit "id" ∷ [] };
  on_delete = [];
  name = lit "old_fkey";
}

foreign_key_plan_empty_iff_example :
    (foreign_key_statements (lit "users") (team_key ∷ []) (old_key ∷ []) ≡ []) ↔ (
      All (λ d. is_present (old_key ∷ []) d ≡ true) (team_key ∷ [])
      × All (λ c. is_declared (team_key ∷ []) c ≡ true) (old_key ∷ []))
foreign_key_plan_empty_iff_example =
    foreign_key_plan_empty_iff (lit "users") (team_key ∷ []) (old_key ∷ [])

declared_foreign_key_dropped_example :
    foreign_key_statements (lit "users") (team_key ∷ old_schema_key ∷ []) (old_key ∷ [])
    ≡ lit "alter table users drop constraint old_fkey"
      ∷ lit
          "alter table users add constraint users_team_fkey foreign key (team) references teams (id)"
      ∷ []
unfolding lit foreign_key_equals mysql_schema_foreign_key_to_foreign_key ◌==◌
    remove_foreign_key_statement add_foreign_key_statement generate_mysql_fk_name join to_upper
    trim_space column_sets_equal any
declared_foreign_key_dropped_example =
    declared_foreign_key_dropped (lit "users") team_key old_schema_key old_key refl refl

abbrev pair_key : MysqlTableForeignKey
pair_key = record team_key { columns = lit "id" ∷ lit "team" ∷ [] }

composite_foreign_key_never_present_example :
    is_present
      (foreign_keys_of_rows []
        (record team_key_row { child_column = lit "id" } ∷ team_key_row ∷ []))
      pair_key
    ≡ false
unfolding lit
composite_foreign_key_never_present_example =
    composite_foreign_key_never_present (record team_key_row { child_column = lit "id" })
      team_key_row pair_key refl (λ e. cc e) refl

foreign_key_plan_exact_example :
    (All (λ d. is_present (old_key ∷ []) d ≡ true) (old_schema_key ∷ [])
      → foreign_key_statements (lit "users") (old_schema_key ∷ []) (old_key ∷ []) ≡ [])
    × (foreign_key_statements (lit "users") (old_schema_key ∷ []) []
        ≡ lit "alter table users add constraint old_fkey foreign key (id) references old (id)" ∷ [])
unfolding lit keep any foreign_key_equals mysql_schema_foreign_key_to_foreign_key ◌==◌
    add_foreign_key_statement generate_mysql_fk_name join to_upper trim_space column_sets_equal
foreign_key_plan_exact_example =
    foreign_key_plan_exact (lit "users") (old_schema_key ∷ []) (old_key ∷ [])
