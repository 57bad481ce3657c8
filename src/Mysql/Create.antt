-- ===== src/Mysql/Create.antt =====
-- plugins/mysql/lib/create.go
use schemahero.Base.{List, [], ◌∷◌, ◌++◌, map, none, some, if◌then◌else◌}
use schemahero.Base.Text.{Text, lit, join, split, contains, is_empty}
use schemahero.Base.Text.Number.{itoa_int}
use schemahero.Base.Result.{Result, ok, ◌>>=◌, collect}
use schemahero.Schema.Mysql.{MysqlTableSchema, MysqlTableColumn}
use schemahero.Schema.SeedData
use schemahero.Schema.SeedData.{SeedDataValue, SeedDataRow, SeedData}
use schemahero.Mysql.Column.{mysql_column_as_insert}
use schemahero.Mysql.Constraints.{foreign_key_constraint_clause, index_clause}

abbrev quoted : Text → Text
quoted s = lit "'" ++ s ++ lit "'"

-- A text with line breaks is written as the concatenation of its lines.
text_value : Text → Text
text_value s =
    if contains (lit "\n") s
    then join (lit ", ") (lit "CONCAT_WS(CHAR(10 using utf8)" ∷ map quoted (split b'\n' s))
      ++ lit ")"
    else quoted s

-- The SQL of a value; an integer comes before a text, and a value with neither is the empty text.
unfoldable pub seed_value : SeedDataValue → Text
unfolding text_value
seed_value v = elim v.int [
  | some n ↦ itoa_int n
  | none ↦ elim v.str [ some s ↦ text_value s | none ↦ lit "''" ]
]

abbrev assignment : SeedData.Column → Text
assignment c = c.column ++ lit "=" ++ seed_value c.value

-- The statement for one row of SeedDataStatements.
unfoldable pub seed_row_statement : Text → SeedDataRow → Text
unfolding seed_value
seed_row_statement table_name row =
    lit "insert into "
    ++ table_name
    ++ lit " ("
    ++ join (lit ", ") (map (λ c. c.column) row.columns)
    ++ lit ") values ("
    ++ join (lit ", ") (map (λ c. seed_value c.value) row.columns)
    ++ lit ") on duplicate key update "
    ++ join (lit ", ") (map assignment row.columns)

-- SeedDataStatements
unfoldable pub seed_data_statements : Text → SeedData → Result (List Text)
unfolding seed_row_statement
seed_data_statements table_name seed_data = ok (map (seed_row_statement table_name) seed_data.rows)

primary_key_clause : List Text → List Text
primary_key_clause [] = []
primary_key_clause (k ∷ ks) =
    (lit "primary key ("
      ++ join (lit ", ") (map (λ c. lit "`" ++ c ++ lit "`") (k ∷ ks))
      ++ lit ")")
    ∷ []

column_fields : MysqlTableColumn → Result (List Text)
column_fields c = do f ← mysql_column_as_insert c; ok (f ∷ [])

abbrev option_if_set : Text → Text → Text
option_if_set keyword value = if is_empty value then lit "" else keyword ++ value

-- CreateTableStatements
unfoldable pub create_table_statements : Text → MysqlTableSchema → Result (List Text)
unfolding column_fields primary_key_clause collect
create_table_statements table_name schema = do
  fields ← collect column_fields schema.columns
  ok (
      (lit "create table `"
        ++ table_name
        ++ lit "` ("
        ++ join (lit ", ") (
            fields
            ++ primary_key_clause schema.primary_key
            ++ map (foreign_key_constraint_clause table_name) schema.foreign_keys
            ++ map (index_clause table_name) schema.indexes)
        ++ lit ")"
        ++ option_if_set (lit " default character set ") schema.default_charset
        ++ option_if_set (lit " collate ") schema.collation)
      ∷ [])
