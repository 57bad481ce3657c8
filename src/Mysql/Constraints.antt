-- ===== src/Mysql/Constraints.antt =====
-- plugins/mysql/lib/index.go and foreignkey.go
use schemahero.Base.{◌++◌, if◌then◌else◌}
use schemahero.Base.Text.{Text, lit, is_empty, join}
use schemahero.Schema.Mysql.{MysqlTableIndex, MysqlTableForeignKey}
use schemahero.Types.Indexes.{Index}
use schemahero.Types.ForeignKeys.{ForeignKey}
use schemahero.Types.Names.{generate_mysql_index_name, generate_mysql_fk_name}

-- RemoveIndexStatement
unfoldable pub remove_index_statement : Text → Index → Text
remove_index_statement table_name index =
    lit "alter table `" ++ table_name ++ lit "` drop index `" ++ index.name ++ lit "`"

abbrev index_name : Text → MysqlTableIndex → Text
index_name table_name i = if is_empty i.name then generate_mysql_index_name table_name i else i.name

-- AddIndexStatement
unfoldable pub add_index_statement : Text → MysqlTableIndex → Text
add_index_statement table_name i =
    lit "create "
    ++ (if i.is_unique then lit "unique " else lit "")
    ++ lit "index "
    ++ index_name table_name i
    ++ lit " on "
    ++ table_name
    ++ lit " ("
    ++ join (lit ", ") i.columns
    ++ lit ")"

-- RenameIndexStatement
unfoldable pub rename_index_statement : Text → Index → MysqlTableIndex → Text
rename_index_statement table_name index i =
    lit "alter index " ++ index.name ++ lit " rename to " ++ i.name

-- indexClause
unfoldable pub index_clause : Text → MysqlTableIndex → Text
index_clause table_name i =
    (if i.is_unique then lit "unique " else lit "")
    ++ lit "key "
    ++ index_name table_name i
    ++ lit " ("
    ++ join (lit ", ") i.columns
    ++ lit ")"

-- RemoveForeignKeyStatement
unfoldable pub remove_foreign_key_statement : Text → ForeignKey → Text
remove_foreign_key_statement table_name fk =
    lit "alter table " ++ table_name ++ lit " drop constraint " ++ fk.name

-- foreignKeyConstraintClause
unfoldable pub foreign_key_constraint_clause : Text → MysqlTableForeignKey → Text
foreign_key_constraint_clause table_name fk =
    lit "constraint "
    ++ generate_mysql_fk_name table_name fk
    ++ lit " foreign key ("
    ++ join (lit ", ") fk.columns
    ++ lit ") references "
    ++ fk.references.table
    ++ lit " ("
    ++ join (lit ", ") fk.references.columns
    ++ lit ")"
    ++ (if is_empty fk.on_delete then lit "" else lit " on delete " ++ fk.on_delete)

-- AddForeignKeyStatement
unfoldable pub add_foreign_key_statement : Text → MysqlTableForeignKey → Text
unfolding foreign_key_constraint_clause
add_foreign_key_statement table_name fk =
    lit "alter table " ++ table_name ++ lit " add " ++ foreign_key_constraint_clause table_name fk
