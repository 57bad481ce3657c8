-- ===== src/Mysql/Deploy/Columns/Steady.antt =====
-- When a column plan is empty, and which columns it drops or adds.
use schemahero.Base.{
  Bool, true, false, ◌||◌, List, [], ◌∷◌, Option, none, some, ◌≡◌, ◌↔◌, refl, arith, any, All,
  if◌then◌else◌,
}
use schemahero.Base.Text.{Text, ◌==◌, is_empty}
use schemahero.Base.Text.Equality.{eq_refl}
use schemahero.Base.Result.{ok, collect}
use schemahero.Schema.Mysql.{MysqlTableSchema, MysqlTableColumn}
use schemahero.Types.Columns.{Column, bools_equal}
use schemahero.Mysql.AlterStatements.{drop_column_ddl}
use schemahero.Mysql.Alter.{
  columns_match, defaults_equal, find_column, desired_column, alter_column_statements,
}
use schemahero.Mysql.Connection.{MysqlConnection, ColumnRow}
use schemahero.Mysql.Deploy.Charset.{get_default_charset_and_collation_for_table}
use schemahero.Mysql.Deploy.Columns.{
  existing_column, row_statements, missing_column_statements, build_column_statements,
}

bools_equal_refl : (o : Option Bool) → bools_equal o o ≡ true
unfolding bools_equal
bools_equal_refl none = refl
bools_equal_refl (some true) = refl
bools_equal_refl (some false) = refl

-- Two flags are equal exactly when both or neither are a pointer to true.
pub bools_equal_iff :
    (a b : Option Bool) → (bools_equal a b ≡ true) ↔ ((a ≡ some true) ↔ (b ≡ some true))
unfolding bools_equal
bools_equal_iff none none = ground arith
bools_equal_iff none (some true) = ground arith
bools_equal_iff none (some false) = ground arith
bools_equal_iff (some true) none = ground arith
bools_equal_iff (some true) (some true) = ground arith
bools_equal_iff (some true) (some false) = ground arith
bools_equal_iff (some false) none = ground arith
bools_equal_iff (some false) (some true) = ground arith
bools_equal_iff (some false) (some false) = ground arith

defaults_equal_refl : (o : Option Text) → defaults_equal o o ≡ true
unfolding defaults_equal
defaults_equal_refl none = refl
defaults_equal_refl (some t) = eq_refl t

collation_kept : (c d : Text) → (is_empty c || (if is_empty c then d else c) == c) ≡ true
collation_kept [] d = refl
collation_kept (x ∷ s) d = eq_refl (x ∷ s)

-- Every column matches itself, whatever the defaults of the table are.
pub columns_match_refl :
    (c : Column) (charset collation : Text) → columns_match c c charset collation ≡ true
unfolding columns_match
columns_match_refl c charset collation =
    simp (eq_refl, bools_equal_refl, defaults_equal_refl, collation_kept) refl

-- A row that the server reports and the declaration agree: the row reads as a column, the first
-- declared column of its name is valid, and the two match.
pub record Agrees (primary_key : List Text) (columns : List MysqlTableColumn)
    (defaults : Text × Text) (r : ColumnRow) : Type 0 where
  pub existing : Column
  pub read : existing_column r ≡ ok existing
  pub declared : MysqlTableColumn
  pub found : find_column existing.name columns ≡ some declared
  pub desired : Column
  pub valid : desired_column primary_key declared ≡ ok desired
  pub matches : columns_match existing desired defaults.0 defaults.1 ≡ true

module _ (table_name : Text) (schema : MysqlTableSchema) (defaults : Text × Text) where
  row_statements-eq-nil :
      (r : ColumnRow)
      → Agrees schema.primary_key schema.columns defaults r
      → row_statements table_name schema defaults r ≡ ok []
  unfolding row_statements alter_column_statements
  row_statements-eq-nil r a = rw (a.read, alter_column_statements, a.found, a.valid, a.matches) refl

  rows-eq-nil :
      (rows : List ColumnRow)
      → All (Agrees schema.primary_key schema.columns defaults) rows
      → collect (row_statements table_name schema defaults) rows ≡ ok []
  unfolding collect
  rows-eq-nil [] h = refl
  rows-eq-nil (r ∷ rs) (h, hs) = rw (row_statements-eq-nil r h, rows-eq-nil rs hs) refl

  missing-eq-nil :
      (rows : List ColumnRow) (desired : List MysqlTableColumn)
      → All (λ d. any (λ r. r.name == d.name) rows ≡ true) desired
      → collect (missing_column_statements table_name rows) desired ≡ ok []
  unfolding collect missing_column_statements
  missing-eq-nil rows [] h = refl
  missing-eq-nil rows (d ∷ ds) (h, hs) = rw (h, missing-eq-nil rows ds hs) refl

-- The column plan is empty where the defaults and the rows are read without error, every row agrees
-- with the declaration and every declared column has a row.
pub column_plan_steady :
    (m : MysqlConnection) (table_name : Text) (schema : MysqlTableSchema) (defaults : Text × Text)
    (rows : List ColumnRow)
    → get_default_charset_and_collation_for_table m table_name ≡ ok defaults
    → m.column_rows table_name ≡ ok rows
    → All (Agrees schema.primary_key schema.columns defaults) rows
    → All (λ d. any (λ r. r.name == d.name) rows ≡ true) schema.columns
    → build_column_statements m table_name schema ≡ ok []
unfolding build_column_statements
column_plan_steady m table_name schema defaults rows d r agree there =
    rw
      (
        d,
        r,
        rows-eq-nil table_name schema defaults rows agree,
        missing-eq-nil table_name schema defaults rows schema.columns there,
      )
      refl

-- A row that reads as a column whose name no declared column has yields the drop of that column and
-- no other statement.
pub undeclared_column_dropped :
    (table_name : Text) (schema : MysqlTableSchema) (defaults : Text × Text) (r : ColumnRow)
    (existing : Column)
    → existing_column r ≡ ok existing
    → find_column existing.name schema.columns ≡ none
    → row_statements table_name schema defaults r ≡ ok (drop_column_ddl table_name existing.name)
unfolding row_statements alter_column_statements
undeclared_column_dropped table_name schema defaults r existing read missing =
    rw (read, alter_column_statements, missing) refl
