-- ===== src/Mysql/Deploy/Charset/Converge.antt =====
-- When the plan leaves the character set and collation of a table alone.
use schemahero.Base.{Bool, true, false, [], ◌∷◌, some, ◌≡◌, ◌≢◌, refl, sym, if◌then◌else◌}
use schemahero.Base.Text.{Text, is_empty}
use schemahero.Base.Text.Equality.{eq_refl}
use schemahero.Base.Result.{ok}
use schemahero.Schema.Mysql.{MysqlTableSchema}
use schemahero.Mysql.Connection.{MysqlConnection}
use schemahero.Mysql.Deploy.Charset.{
  scan_string, fill_in_charset, charset_matches, charset_outcome,
  build_table_charset_and_collation_statements,
}

-- The declaration and the table agree: neither is declared and the table has what the database has,
-- or the character set alone is declared and is the table's, or both are and are the table's.
pub data CharsetAgrees (charset collation : Text) (table database : Text × Text) : Type 0 where
  inherited :
      charset ≡ []
      → collation ≡ []
      → table ≡ database
      → CharsetAgrees charset collation table database
  charset_alone :
      charset ≡ table.0 → collation ≡ [] → CharsetAgrees charset collation table database
  both :
      charset ≢ []
      → collation ≢ []
      → charset ≡ table.0
      → collation ≡ table.1
      → CharsetAgrees charset collation table database

not_empty : (s : Text) → s ≢ [] → is_empty s ≡ false
not_empty [] h = absurd (h refl)
not_empty (_ ∷ _) h = refl

fill_in-both :
    (m : MysqlConnection) (charset collation : Text) (table database : Text × Text)
    → charset ≢ []
    → collation ≢ []
    → fill_in_charset m charset collation table database ≡ ok (some (charset, collation))
unfolding fill_in_charset
fill_in-both m charset collation table database h k =
    rw (not_empty charset h, not_empty collation k) refl

charset_matches_refl : (table database : Text × Text) → charset_matches table table database ≡ true
unfolding charset_matches
charset_matches_refl table database = rw (eq_refl table.0, eq_refl table.1) refl

if-same {ℓ} : {A : Type ℓ} (b : Bool) (x : A) → (if b then x else x) ≡ x
if-same true x = refl
if-same false x = refl

module _ (m : MysqlConnection) (table_name : Text) (schema : MysqlTableSchema)
    (charset collation : Text) (database : Text × Text)
    (row : m.table_charset table_name ≡ ok (some charset, some collation))
    (db : m.database_charset ≡ ok database) where
  -- Where the character sets and collations of the table and of the database are read without error
  -- and agree with the declaration, as `CharsetAgrees` says, the plan has no conversion and leaves the
  -- declaration as it is.
  pub charset_plan_steady :
      CharsetAgrees schema.default_charset schema.collation (charset, collation) database
      → build_table_charset_and_collation_statements m table_name schema ≡ ok ([], schema)
  unfolding build_table_charset_and_collation_statements charset_outcome scan_string fill_in_charset
  charset_plan_steady (inherited c k t) =
      rw (row, db, c, k, sym t, eq_refl charset, eq_refl collation) refl
  charset_plan_steady (charset_alone c k) = rw (row, db, c, k, eq_refl charset, if-same) refl
  charset_plan_steady (both nc nk c k) =
      let filled =
        fill_in-both m schema.default_charset schema.collation (charset, collation) database nc
          nk in
      rw
        (row, db, filled, charset_outcome, c, k, charset_matches_refl (charset, collation) database)
        refl
