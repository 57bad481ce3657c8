-- ===== src/Mysql/Deploy/Keys/ForeignKeys.antt =====
-- When a foreign key plan is empty, and what it does with a key that is declared already.
use mathlib.Core.Bool.{and-false}
use schemahero.Base.{
  Bool, true, false, List, [], ◌∷◌, Option, none, some, ◌≡◌, ◌≢◌, ◌↔◌, ◌⊎◌, inl, inr, refl, sym,
  arith, any, Bool-cases, All, append-eq-nil,
}
use schemahero.Base.Text.{Text}
use schemahero.Base.Text.Equality.{eq_refl}
use schemahero.Schema.Mysql.{MysqlTableForeignKey}
use schemahero.Types.Indexes.{column_sets_equal}
use schemahero.Types.Indexes.Matching.{column_sets_equal_iff}
use schemahero.Types.ForeignKeys.{
  ForeignKey, foreign_key_equals, mysql_schema_foreign_key_to_foreign_key,
}
use schemahero.Mysql.Constraints.{remove_foreign_key_statement, add_foreign_key_statement}
use schemahero.Mysql.Connection.{ForeignKeyRow, foreign_keys_of_rows}
use schemahero.Mysql.Deploy.Keys.{
  Search, matched, fell_through, search_current, after_search, desired_foreign_key_statements,
  current_foreign_key_statements, foreign_key_statements,
}

-- A current key is equal to the declared one.
abbrev pub is_present : List ForeignKey → MysqlTableForeignKey → Bool
is_present current d =
    any (λ c. foreign_key_equals c (mysql_schema_foreign_key_to_foreign_key d)) current

-- A current key is equal to one of the declared ones.
abbrev pub is_declared : List MysqlTableForeignKey → ForeignKey → Bool
is_declared desired c =
    any (λ d. foreign_key_equals c (mysql_schema_foreign_key_to_foreign_key d)) desired

pub search-matched_iff :
    (d : ForeignKey) (last : Option ForeignKey) (current : List ForeignKey)
    → (search_current d last current ≡ matched) ↔ (any (λ c. foreign_key_equals c d) current ≡ true)
unfolding search_current any
search-matched_iff d last [] = (λ h. cc, λ h. cc)
search-matched_iff d last (c ∷ cs) = ground (arith, search-matched_iff d (some c) cs)

after_search-eq-nil :
    (table_name : Text) (d : MysqlTableForeignKey) (s : Search)
    → after_search table_name d s ≡ []
    → s ≡ matched
after_search-eq-nil table_name d matched h = refl
after_search-eq-nil table_name d (fell_through none) h = cc
after_search-eq-nil table_name d (fell_through (some fk)) h = cc

module _ (table_name : Text) (current : List ForeignKey) where
  pub desired-eq-nil_iff :
      (desired : List MysqlTableForeignKey)
      → (desired_foreign_key_statements table_name current desired ≡ [])
        ↔ All (λ d. is_present current d ≡ true) desired
  unfolding desired_foreign_key_statements
  desired-eq-nil_iff [] = (λ h. tt, λ h. refl)
  desired-eq-nil_iff (d ∷ ds) =
      let found = search-matched_iff (mysql_schema_foreign_key_to_foreign_key d) none current in
      (
        (λ h.
            let (here, later) = append-eq-nil _ _ h in
            (found.0 (after_search-eq-nil table_name d _ here), (desired-eq-nil_iff ds).0 later)),
        λ h. rw (found.1 h.0) ((desired-eq-nil_iff ds).1 h.1),
      )

module _ (table_name : Text) (desired : List MysqlTableForeignKey) where
  current-eq-nil_iff :
      (current : List ForeignKey)
      → (current_foreign_key_statements table_name desired current ≡ [])
        ↔ All (λ c. is_declared desired c ≡ true) current
  unfolding current_foreign_key_statements
  current-eq-nil_iff [] = (λ h. tt, λ h. refl)
  current-eq-nil_iff (c ∷ cs) = elim (Bool-cases (is_declared desired c)) [
    | inl t ↦ rw t (λ h. (refl, (current-eq-nil_iff cs).0 h), λ h. (current-eq-nil_iff cs).1 h.1)
    | inr f ↦ rw f (λ h. cc, λ h. cc (h.0))
  ]

-- A foreign key plan is empty exactly when each declared key is present and each present key is
-- declared.
pub foreign_key_plan_empty_iff :
    (table_name : Text) (desired : List MysqlTableForeignKey) (current : List ForeignKey)
    → (foreign_key_statements table_name desired current ≡ []) ↔ (
        All (λ d. is_present current d ≡ true) desired
        × All (λ c. is_declared desired c ≡ true) current)
unfolding foreign_key_statements
foreign_key_plan_empty_iff table_name desired current =
    let d = desired-eq-nil_iff table_name current desired in
    let c = current-eq-nil_iff table_name desired current in
    ((λ h. let (p, q) = append-eq-nil _ _ h in (d.0 p, c.0 q)), λ h. rw (d.1 h.0, c.1 h.1) refl)

-- A table with one foreign key `c`, declared with a key to which `c` is not equal and behind it with
-- one to which it is equal: the plan drops `c`, adds the first key and does nothing else.
pub declared_foreign_key_dropped :
    (table_name : Text) (missing kept : MysqlTableForeignKey) (c : ForeignKey)
    → foreign_key_equals c (mysql_schema_foreign_key_to_foreign_key missing) ≡ false
    → foreign_key_equals c (mysql_schema_foreign_key_to_foreign_key kept) ≡ true
    → foreign_key_statements table_name (missing ∷ kept ∷ []) (c ∷ [])
      ≡ remove_foreign_key_statement table_name c
        ∷ add_foreign_key_statement table_name missing
        ∷ []
unfolding foreign_key_statements any
declared_foreign_key_dropped table_name missing kept c h k = rw (h, k) refl

-- A table with one foreign key `c`, declared with one key to which `c` is not equal: the plan drops
-- `c`, adds the declared key and drops `c` a second time.
pub replaced_foreign_key_dropped_twice :
    (table_name : Text) (d : MysqlTableForeignKey) (c : ForeignKey)
    → foreign_key_equals c (mysql_schema_foreign_key_to_foreign_key d) ≡ false
    → foreign_key_statements table_name (d ∷ []) (c ∷ [])
      ≡ remove_foreign_key_statement table_name c
        ∷ add_foreign_key_statement table_name d
        ∷ remove_foreign_key_statement table_name c
        ∷ []
unfolding foreign_key_statements any
replaced_foreign_key_dropped_twice table_name d c h = rw h refl

child_columns_differ :
    (fk other : ForeignKey)
    → column_sets_equal fk.child_columns other.child_columns ≡ false
    → foreign_key_equals fk other ≡ false
unfolding foreign_key_equals
child_columns_differ fk other h = simp (h, and-false) refl

repeated_column_differs : (a b : Text) → a ≢ b → column_sets_equal (b ∷ b ∷ []) (a ∷ b ∷ []) ≡ false
repeated_column_differs a b ne = elim (Bool-cases (column_sets_equal (b ∷ b ∷ []) (a ∷ b ∷ []))) [
  | inl t ↦ absurd (one_of ((column_sets_equal_iff (b ∷ b ∷ []) (a ∷ b ∷ [])).0 t).1.0)
  | inr f ↦ f
]
  where
    one_of : (b ≡ a) ⊎ ((b ≡ a) ⊎ ⊥) → ⊥
    one_of (inl e) = ne (sym e)
    one_of (inr (inl e)) = ne (sym e)
    one_of (inr (inr h)) = h

-- What the connection reads of the rows of a foreign key over two columns.
abbrev misread : ForeignKeyRow → ForeignKeyRow → ForeignKey
misread a b = record {
  child_columns = b.child_column ∷ b.child_column ∷ [];
  parent_table = a.parent_table;
  parent_columns = b.parent_column ∷ b.parent_column ∷ [];
  name = a.name;
  on_delete = a.delete_rule;
}

foreign_keys_of_two_rows :
    (a b : ForeignKeyRow)
    → a.name ≡ b.name
    → foreign_keys_of_rows [] (a ∷ b ∷ []) ≡ misread a b ∷ []
unfolding foreign_keys_of_rows
foreign_keys_of_two_rows a b same = rw (same, eq_refl b.name) refl

-- Two rows of one foreign key over two different columns are read as a key that is not equal to a
-- declared key over these two columns in this order.
pub composite_foreign_key_never_present :
    (a b : ForeignKeyRow) (d : MysqlTableForeignKey)
    → a.name ≡ b.name
    → a.child_column ≢ b.child_column
    → d.columns ≡ a.child_column ∷ b.child_column ∷ []
    → is_present (foreign_keys_of_rows [] (a ∷ b ∷ [])) d ≡ false
unfolding any mysql_schema_foreign_key_to_foreign_key
composite_foreign_key_never_present a b d same ne columns =
    let differs =
      child_columns_differ (misread a b) (mysql_schema_foreign_key_to_foreign_key d)
        (rw columns (repeated_column_differs a.child_column b.child_column ne)) in
    rw (foreign_keys_of_two_rows a b same) (rw differs refl)
