-- ===== src/Mysql/AlterStatements.antt =====
-- plugins/mysql/lib/alter_statements.go
use schemahero.Base.{
  Bool, true, false, not, ◌&&◌, ◌||◌, ◌++◌, List, [], ◌∷◌, Option, none, some, if◌then◌else◌, beq,
  ltb, ℕ, ◌+◌, ◌/◌, ◌%◌,
}
use schemahero.Base.Text.{Text, lit, ◌==◌, is_empty, join}
use schemahero.Types.Columns.{Column}
use schemahero.Types.Keys.{KeyConstraint, generate_name}
use schemahero.Mysql.Column.{not_null_of, auto_increment_of}

pub record AlterModifyColumnStatement : Type 0 where
  pub table_name : Text
  pub existing_column : Column
  pub column : Column

abbrev pub is_true : Option Bool → Bool
is_true (some true) = true
is_true _ = false

-- The condition isAddingNotNull of DDL.
unfoldable pub is_adding_not_null : AlterModifyColumnStatement → Bool
is_adding_not_null s =
    is_true (not_null_of s.column) && not (is_true (not_null_of s.existing_column))

abbrev clause : Option Bool → List Text
clause none = []
clause (some true) = lit "not null" ∷ []
clause (some false) = lit "null" ∷ []

-- The clause for character set and collation, where one of them changes.
charset_clause : Column → Column → List Text
charset_clause existing column =
    let charset = if is_empty column.charset then [] else lit "character set " ++ column.charset in
    let gap = if is_empty charset then [] else lit " " in
    let stmt =
      if is_empty column.collation
      then charset
      else charset ++ gap ++ lit "collate " ++ column.collation in
    if (column.charset == existing.charset) && (column.collation == existing.collation)
    then []
    else if is_empty stmt
    then []
    else stmt ∷ []

increment_clause : Option Bool → List Text
increment_clause (some true) = lit "auto_increment" ∷ []
increment_clause _ = []

default_clause : Option Text → List Text
default_clause none = []
default_clause (some value) = (lit "default \"" ++ value ++ lit "\"") ∷ []

-- AlterModifyColumnStatement.ddl
unfoldable pub ddl : Bool → AlterModifyColumnStatement → List Text
unfolding charset_clause increment_clause default_clause
ddl use_constraints_from_existing_column s =
    join (lit " ") (
      ((lit "alter table `"
          ++ s.table_name
          ++ lit "` modify column `"
          ++ s.column.name
          ++ lit "` "
          ++ s.column.data_type)
        ∷ charset_clause s.existing_column s.column)
      ++ clause (
          if use_constraints_from_existing_column
          then not_null_of s.existing_column
          else not_null_of s.column)
      ++ increment_clause (auto_increment_of s.column)
      ++ default_clause s.column.column_default)
    ∷ []

nibble : ℕ → ℕ
nibble n = if ltb n 10 then n + 48 else n + 87

-- One byte of strconv.Quote. A byte above 127 is kept, as that function keeps printable text.
escape_byte : ℕ → Text
unfolding nibble
escape_byte c =
    if beq c b'"' || beq c b'\\'
    then b'\\' ∷ c ∷ []
    else if beq c 7
    then lit "\\a"
    else if beq c 8
    then lit "\\b"
    else if beq c 12
    then lit "\\f"
    else if beq c 10
    then lit "\\n"
    else if beq c 13
    then lit "\\r"
    else if beq c 9
    then lit "\\t"
    else if beq c 11
    then lit "\\v"
    else if ltb c 32 || beq c 127
    then lit "\\x" ++ nibble (c / 16) ∷ nibble (c % 16) ∷ []
    else c ∷ []

escape : Text → Text
escape [] = []
escape (c ∷ s) = escape_byte c ++ escape s

-- %q of package fmt
unfoldable pub quote : Text → Text
unfolding escape_byte escape
quote s = lit "\"" ++ escape s ++ lit "\""

-- The default has to be set before the column may refuse nulls.
sets_default : AlterModifyColumnStatement → Text → Bool
sets_default s value = elim s.existing_column.column_default [
  | none ↦ true
  | some old ↦ not (old == value)
]

update_existing : AlterModifyColumnStatement → Text → Text
update_existing s value =
    lit "update `"
    ++ s.table_name
    ++ lit "` set `"
    ++ s.column.name
    ++ lit "`="
    ++ quote value
    ++ lit " where `"
    ++ s.column.name
    ++ lit "` is null"

-- ddlWithNotNull
unfoldable pub ddl_with_not_null : AlterModifyColumnStatement → List Text
unfolding sets_default update_existing
ddl_with_not_null s = elim s.column.column_default [
  | none ↦ ddl false s
  | some value ↦
      (if sets_default s value then ddl true s else [])
      ++ (update_existing s value ∷ [])
      ++ ddl false s
]

-- AlterModifyColumnStatement.DDL
unfoldable pub modify_column_ddl : AlterModifyColumnStatement → List Text
unfolding ddl_with_not_null
modify_column_ddl s = if is_adding_not_null s then ddl_with_not_null s else ddl false s

-- AlterDropColumnStatement.DDL
unfoldable pub drop_column_ddl : Text → Text → List Text
drop_column_ddl table_name column_name =
    (lit "alter table `" ++ table_name ++ lit "` drop column `" ++ column_name ++ lit "`") ∷ []

-- AlterRemoveConstrantStatement.String
unfoldable pub remove_constraint_statement : Text → KeyConstraint → Text
remove_constraint_statement table_name k =
    if k.is_primary
    then lit "alter table `" ++ table_name ++ lit "` drop primary key"
    else lit "alter table `" ++ table_name ++ lit "` drop index `" ++ k.name ++ lit "`"

-- AlterAddConstrantStatement.String
unfoldable pub add_constraint_statement : Text → KeyConstraint → Text
add_constraint_statement table_name k = join (lit " ") (
    (lit "alter table `"
        ++ table_name
        ++ lit "` add constraint `"
        ++ generate_name k table_name
        ++ lit "`")
      ∷ (if k.is_primary then lit "primary key" ∷ [] else [])
    ++ (lit "(`" ++ join (lit "`, `") k.columns ++ lit "`)") ∷ [])
