-- ===== src/Mysql/Deploy/Steady.antt =====
-- The plan for a table that is as it is declared.
use schemahero.Base.{
  Bool, true, false, List, [], ◌∷◌, map, Option, none, some, ◌≡◌, refl, arith, any, beq, ◌<◌,
  if◌then◌else◌, All, ℕ, ◌∙◌, ap, not,
}
use schemahero.Base.Text.{Text, ◌==◌}
use schemahero.Base.Members.{keep-eq-nil}
use schemahero.Base.Result.{ok}
use schemahero.Schema.Mysql.{MysqlTableSchema}
use schemahero.Types.Keys.{KeyConstraint, shape}
use schemahero.Types.Indexes.{Index}
use schemahero.Types.ForeignKeys.{ForeignKey}
use schemahero.Mysql.Connection.{
  MysqlConnection, ColumnRow, get_table_primary_key, list_table_indexes, list_table_foreign_keys,
}
use schemahero.Mysql.Deploy.{alter_table_statements, plan_connected}
use schemahero.Mysql.Deploy.Charset.{get_default_charset_and_collation_for_table}
use schemahero.Mysql.Deploy.Charset.Converge.{CharsetAgrees, charset_plan_steady}
use schemahero.Mysql.Deploy.Columns.{build_column_statements}
use schemahero.Mysql.Deploy.Columns.Steady.{Agrees, column_plan_steady}
use schemahero.Mysql.Deploy.Keys.{
  is_desired, is_current, name_indexes, remove_index_statements, add_index_statements,
  desired_primary_key, build_remove_primary_key_statements, build_add_primary_key_statements,
  build_foreign_key_statements, build_remove_index_statements, build_add_index_statements,
}
use schemahero.Mysql.Deploy.Keys.Converge.{index_plan_exact, primary_key_plan_exact}
use schemahero.Mysql.Deploy.Keys.ForeignKeys.{is_present, is_declared, foreign_key_plan_empty_iff}

-- The table that the connection shows is as it is declared.
pub record InSync (m : MysqlConnection) (table_name : Text) (schema : MysqlTableSchema)
    : Type 0 where
  pub charset : Text
  pub collation : Text
  pub database : Text × Text
  pub defaults : Text × Text
  pub rows : List ColumnRow
  pub key : Option KeyConstraint
  pub indexes : List Index
  pub foreign_keys : List ForeignKey
  pub table_read : m.table_charset table_name ≡ ok (some charset, some collation)
  pub database_read : m.database_charset ≡ ok database
  pub charset_agrees :
      CharsetAgrees schema.default_charset schema.collation (charset, collation) database
  pub key_read : get_table_primary_key m table_name ≡ ok key
  pub key_agrees : shape (desired_primary_key schema.primary_key) ≡ shape key
  pub indexes_read : list_table_indexes m table_name ≡ ok indexes
  pub indexes_declared :
      All (λ c. is_desired (name_indexes table_name indexes schema.indexes) c ≡ true) indexes
  pub indexes_present :
      All (λ d. is_current indexes d ≡ true) (name_indexes table_name indexes schema.indexes)
  pub defaults_read : get_default_charset_and_collation_for_table m table_name ≡ ok defaults
  pub rows_read : m.column_rows table_name ≡ ok rows
  pub columns_agree : All (Agrees schema.primary_key schema.columns defaults) rows
  pub columns_present : All (λ d. any (λ r. r.name == d.name) rows ≡ true) schema.columns
  pub foreign_keys_read : list_table_foreign_keys m table_name ≡ ok foreign_keys
  pub foreign_keys_present : All (λ d. is_present foreign_keys d ≡ true) schema.foreign_keys
  pub foreign_keys_declared : All (λ c. is_declared schema.foreign_keys c ≡ true) foreign_keys

All-not :
    {A : Type 0} (p : A → Bool) (xs : List A)
    → All (λ x. p x ≡ true) xs
    → All (λ x. not (p x) ≡ false) xs
All-not p [] h = tt
All-not p (x ∷ xs) (h, hs) = (rw h refl, All-not p xs hs)

module _ (m : MysqlConnection) (table_name : Text) (schema : MysqlTableSchema)
    (s : InSync m table_name schema) where
  abbrev named : MysqlTableSchema
  named = record schema { indexes = name_indexes table_name s.indexes schema.indexes }

  key_steady :
      (build_remove_primary_key_statements m table_name schema ≡ ok [])
      × (build_add_primary_key_statements m table_name named ≡ ok [])
  unfolding build_remove_primary_key_statements build_add_primary_key_statements
  key_steady =
      let (removed, added) =
        (primary_key_plan_exact table_name schema.primary_key s.key).0 s.key_agrees in
      (rw (s.key_read, removed) refl, rw (s.key_read, added) refl)

  index_plan_steady :
      (remove_index_statements table_name named.indexes s.indexes ≡ [])
      × (add_index_statements table_name s.indexes named.indexes ≡ [])
  index_plan_steady =
      let (removed, added) = index_plan_exact table_name named.indexes s.indexes in
      (
        removed ∙ ap (map _) (keep-eq-nil _ s.indexes (All-not _ s.indexes s.indexes_declared)),
        added
            ∙ ap (map _) (keep-eq-nil _ named.indexes (All-not _ named.indexes s.indexes_present)),
      )

  indexes_steady :
      (build_remove_index_statements m table_name schema ≡ ok ([], named))
      × (build_add_index_statements m table_name named ≡ ok [])
  unfolding build_remove_index_statements build_add_index_statements
  indexes_steady =
      let (removed, added) = index_plan_steady in
      (rw (s.indexes_read, removed) refl, rw (s.indexes_read, added) refl)

  foreign_keys_steady : build_foreign_key_statements m table_name named ≡ ok []
  unfolding build_foreign_key_statements
  foreign_keys_steady =
      let empty =
        (foreign_key_plan_empty_iff table_name schema.foreign_keys s.foreign_keys).1
          (s.foreign_keys_present, s.foreign_keys_declared) in
      rw (s.foreign_keys_read, empty) refl

  columns_steady : build_column_statements m table_name named ≡ ok []
  columns_steady =
      column_plan_steady m table_name named s.defaults s.rows s.defaults_read s.rows_read
        s.columns_agree s.columns_present

  alter_steady : alter_table_statements m table_name schema ≡ ok []
  unfolding alter_table_statements
  alter_steady =
      rw
        (
          charset_plan_steady m table_name schema s.charset s.collation s.database s.table_read
              s.database_read s.charset_agrees,
          key_steady.0,
          indexes_steady.0,
          columns_steady,
          key_steady.1,
          foreign_keys_steady,
          indexes_steady.1,
        )
        refl

if-false : {A : Type 0} (b : Bool) (x y : A) → b ≡ false → (if b then x else y) ≡ y
if-false true x y h = ground arith
if-false false x y h = refl

count_positive : (count : ℕ) → 0 < count → beq count 0 ≡ false
count_positive count h = ground arith

-- Without seed data, a table that is there, that is not declared deleted and that is as it is declared
-- (`InSync`: its columns, keys, indexes, character set and collation are read without error and agree
-- with the declaration) gets an empty plan.
pub plan_steady :
    (m : MysqlConnection) (table_name : Text) (schema : MysqlTableSchema) (count : ℕ)
    → InSync m table_name schema
    → 0 < count
    → schema.is_deleted ≡ false
    → plan_connected m table_name schema none count ≡ ok []
unfolding plan_connected
plan_steady m table_name schema count s there live =
    if-false schema.is_deleted _ _ live
    ∙ rw (count_positive count there, alter_steady m table_name schema s) refl
