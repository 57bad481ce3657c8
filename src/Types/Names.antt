-- ===== src/Types/Names.antt =====
-- pkg/database/types/tablename.go and identifier.go, and the name generators of index.go,
-- foreignkey.go and checkconstraint.go. The package crypto/sha256 is Go's own, and its digest in
-- hexadecimal is a parameter here: a text of 64 bytes for every text.
pub mod Bounds
pub mod Fragment
use mathlib.Core.List.{reverse}
use schemahero.Base.{
  ℕ, ◌-◌, Bool, true, false, ◌&&◌, ◌||◌, [], ◌∷◌, ◌++◌, beq, leb, if◌then◌else◌, length, take, ◌≡◌,
}
use schemahero.Base.Text.{Text, lit, join, is_empty, to_lower}
use schemahero.Schema.Mysql.{MysqlTableIndex, MysqlTableForeignKey}
use schemahero.Schema.Dialects.{
  PostgresqlTableIndex, PostgresqlTableForeignKey, PostgresqlTableCheckConstraint, SqliteTableIndex,
  SqliteTableForeignKey, RqliteTableIndex, RqliteTableForeignKey,
}

abbrev pub max_postgres_identifier_len : ℕ
max_postgres_identifier_len = 63

abbrev pub identifier_hash_suffix_len : ℕ
identifier_hash_suffix_len = 8

-- The text behind the last dot; `seen` is what was read behind the last one so far.
after_last_dot : Text → Text → Text
after_last_dot seen [] = reverse seen
after_last_dot seen (c ∷ s) = after_last_dot (if beq c b'.' then [] else c ∷ seen) s

-- bareTableName
unfoldable pub bare_table_name : Text → Text
unfolding after_last_dot
bare_table_name = after_last_dot []

-- The loop of sanitizeIdentFragment; the flag is prevUnderscore.
unfoldable pub sanitize_from : Bool → Text → Text
sanitize_from prev [] = []
sanitize_from prev (c ∷ s) =
    let kept = leb b'a' c && leb c b'z' || leb b'0' c && leb c b'9' in
    let rest = sanitize_from (if kept then false else true) s in
    if kept then c ∷ rest else if prev then rest else b'_' ∷ rest

unfoldable pub trim_underscores : Text → Text
trim_underscores [] = []
trim_underscores (c ∷ s) = if beq c b'_' then trim_underscores s else c ∷ s

-- sanitizeIdentFragment
unfoldable pub sanitize_ident_fragment : Text → Text
unfolding sanitize_from trim_underscores to_lower
sanitize_ident_fragment s =
    reverse (trim_underscores (reverse (trim_underscores (sanitize_from false (to_lower s)))))

-- hex.EncodeToString(sha256.Sum256(…)), of which only the length is used
pub record Digest : Type 0 where
  pub hex : Text → Text
  pub length-hex : (s : Text) → length (hex s) ≡ 64

module _ (sha256 : Digest) where
  open sha256 use {hex}

  -- capPostgresIdentifier
  unfoldable pub cap_postgres_identifier : Text → Text
  cap_postgres_identifier name =
      let suffix = take identifier_hash_suffix_len (hex name) in
      let prefix_len = max_postgres_identifier_len - length suffix - 1 in
      if leb (length name) max_postgres_identifier_len
      then name
      else take prefix_len name ++ lit "_" ++ suffix

  unfoldable pub generate_postgresql_index_name : Text → PostgresqlTableIndex → Text
  unfolding cap_postgres_identifier bare_table_name
  generate_postgresql_index_name table_name index =
      cap_postgres_identifier
        (lit "idx_" ++ bare_table_name table_name ++ lit "_" ++ join (lit "_") index.columns)

  unfoldable pub generate_postgresql_check_name : Text → PostgresqlTableCheckConstraint → Text
  unfolding cap_postgres_identifier bare_table_name sanitize_ident_fragment
  generate_postgresql_check_name table_name c =
      if is_empty c.name
      then cap_postgres_identifier (
          bare_table_name table_name
          ++ lit "_"
          ++ sanitize_ident_fragment c.expression
          ++ lit "_check")
      else c.name

unfoldable pub generate_mysql_index_name : Text → MysqlTableIndex → Text
generate_mysql_index_name table_name index =
    let index_name = lit "idx_" ++ table_name ++ lit "_" ++ join (lit "_") index.columns in
    if leb (length index_name) 64 then index_name else take 64 index_name

unfoldable pub generate_sqlite_index_name : Text → SqliteTableIndex → Text
generate_sqlite_index_name table_name index =
    lit "idx_" ++ table_name ++ lit "_" ++ join (lit "_") index.columns

unfoldable pub generate_rqlite_index_name : Text → RqliteTableIndex → Text
generate_rqlite_index_name table_name index =
    lit "idx_" ++ table_name ++ lit "_" ++ join (lit "_") index.columns

unfoldable pub generate_mysql_fk_name : Text → MysqlTableForeignKey → Text
generate_mysql_fk_name table_name fk =
    if is_empty fk.name
    then table_name ++ lit "_" ++ join (lit "_") fk.columns ++ lit "_fkey"
    else fk.name

unfoldable pub generate_postgresql_fk_name : Text → PostgresqlTableForeignKey → Text
unfolding bare_table_name
generate_postgresql_fk_name table_name fk =
    if is_empty fk.name
    then bare_table_name table_name ++ lit "_" ++ join (lit "_") fk.columns ++ lit "_fkey"
    else fk.name

unfoldable pub generate_sqlite_fk_name : Text → SqliteTableForeignKey → Text
generate_sqlite_fk_name table_name fk =
    if is_empty fk.name
    then table_name ++ lit "_" ++ join (lit "_") fk.columns ++ lit "_fkey"
    else fk.name

unfoldable pub generate_rqlite_fk_name : Text → RqliteTableForeignKey → Text
generate_rqlite_fk_name table_name fk =
    if is_empty fk.name
    then table_name ++ lit "_" ++ join (lit "_") fk.columns ++ lit "_fkey"
    else fk.name
