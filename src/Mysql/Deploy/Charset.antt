-- ===== src/Mysql/Deploy/Charset.antt =====
-- The character set and collation of the table and of its columns.
pub mod Converge
use schemahero.Base.{
  Bool, true, false, not, ◌&&◌, ◌||◌, List, [], ◌∷◌, ◌++◌, Option, none, some, if◌then◌else◌,
}
use schemahero.Base.Text.{Text, lit, ◌==◌, is_empty}
use schemahero.Base.Result.{Result, ok, err, refused, wrap, ◌>>=◌}
use schemahero.Schema.Mysql.{MysqlTableSchema}
use schemahero.Mysql.Connection.{MysqlConnection}

-- Scanning NULL into a string is an error of the driver.
unfoldable pub scan_string : Option Text → Result Text
scan_string none = err (refused (lit "converting NULL to string is unsupported"))
scan_string (some s) = ok s

unfoldable pub convert_statement : Text → Text → Text → Text
convert_statement table_name charset collation =
    lit "alter table "
    ++ table_name
    ++ lit " convert to character set "
    ++ charset
    ++ (if is_empty collation then lit "" else lit " collate " ++ collation)

-- The declared character set and collation with what the program fills in; `none` where it returns
-- before, with no statement. The existing table and the database are given by character set and
-- collation.
unfoldable pub fill_in_charset :
    MysqlConnection → Text → Text → Text × Text → Text × Text → Result (Option (Text × Text))
fill_in_charset m charset collation table database =
    if is_empty collation && is_empty charset && table.1 == database.1 && table.0 == database.0
    then ok none
    else if is_empty collation
    then (if charset == table.0
        then ok none
        else ok (some (if is_empty charset then database else (charset, collation))))
    else if is_empty charset
    then (do
      found ←
          wrap (lit "failed to read charset for collation " ++ collation)
            (m.collation_charset collation)
      ok (some (found, collation)))
    else ok (some (charset, collation))

-- charsetMatches && collationMatches
unfoldable pub charset_matches : Text × Text → Text × Text → Text × Text → Bool
charset_matches desired table database =
    (desired.0 == table.0 || is_empty desired.0 && table.0 == database.0) && desired.1 == table.1

-- The statements, and the declaration as the function leaves it.
charset_outcome :
    Text
    → MysqlTableSchema
    → Text × Text
    → Text × Text
    → Option (Text × Text)
    → List Text × MysqlTableSchema
charset_outcome table_name schema table database none = ([], schema)
charset_outcome table_name schema table database (some (charset, collation)) = (
  (if charset_matches (charset, collation) table database
      then []
      else convert_statement table_name charset collation ∷ []),
  record schema { default_charset = charset; collation = collation },
)

-- buildTableCharsetAndCollationStatements
unfoldable pub build_table_charset_and_collation_statements :
    MysqlConnection → Text → MysqlTableSchema → Result (List Text × MysqlTableSchema)
unfolding scan_string fill_in_charset charset_outcome charset_matches
build_table_charset_and_collation_statements m table_name schema = do
  row ← wrap (lit "failed to read existing table charset and collate") (m.table_charset table_name)
  collation ← wrap (lit "failed to read existing table charset and collate") (scan_string row.1)
  charset ← wrap (lit "failed to read existing table charset and collate") (scan_string row.0)
  database ← wrap (lit "failed to read existing database charset and collate") m.database_charset
  filled ← fill_in_charset m schema.default_charset schema.collation (charset, collation) database
  ok (charset_outcome table_name schema (charset, collation) database filled)

abbrev or_database : Option Text → Text → Text
or_database none d = d
or_database (some s) d = s

-- getDefaultCharsetAndCollationForTable
unfoldable pub get_default_charset_and_collation_for_table :
    MysqlConnection → Text → Result (Text × Text)
get_default_charset_and_collation_for_table m table_name = do
  database ← wrap (lit "scan default charset and collation") m.database_charset
  row ← wrap (lit "scan table charset and collation") (m.table_charset table_name)
  ok (or_database row.0 database.0, or_database row.1 database.1)
