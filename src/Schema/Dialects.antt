-- ===== src/Schema/Dialects.antt =====
-- The parts of pkg/apis/schemas/v1alpha4/postgresql.go, rqlite.go and sqlite.go that the package
-- pkg/database/types converts from and to.
use schemahero.Base.{Bool, List, Option}
use schemahero.Base.Text.{Text}

pub record PostgresqlTableForeignKeyReferences : Type 0 where
  pub table : Text
  pub columns : List Text

pub record PostgresqlTableForeignKey : Type 0 where
  pub columns : List Text
  pub references : PostgresqlTableForeignKeyReferences
  pub on_delete : Text
  pub name : Text

pub record PostgresqlTableCheckConstraint : Type 0 where
  pub name : Text
  pub expression : Text

pub record PostgresqlTableIndexColumn : Type 0 where
  pub column : Text
  pub op_class : Text
  pub sort : Text
  pub nulls : Text

-- The map of storage parameters is the list of its entries.
pub record PostgresqlTableIndex : Type 0 where
  pub columns : List Text
  pub name : Text
  pub is_unique : Bool
  pub type : Text
  pub parameters : List (Text × Text)
  pub condition : Text
  pub expressions : List Text
  pub sorted_columns : List PostgresqlTableIndexColumn

pub record PostgresqlTablePolicy : Type 0 where
  pub name : Text
  pub command : Text
  pub permissive : Text
  pub roles : List Text
  pub using : Option Text
  pub with_check : Option Text

pub record RqliteTableForeignKeyReferences : Type 0 where
  pub table : Text
  pub columns : List Text

pub record RqliteTableForeignKey : Type 0 where
  pub columns : List Text
  pub references : RqliteTableForeignKeyReferences
  pub on_delete : Text
  pub name : Text

pub record RqliteTableIndex : Type 0 where
  pub columns : List Text
  pub name : Text
  pub is_unique : Bool
  pub type : Text

pub record SqliteTableForeignKeyReferences : Type 0 where
  pub table : Text
  pub columns : List Text

pub record SqliteTableForeignKey : Type 0 where
  pub columns : List Text
  pub references : SqliteTableForeignKeyReferences
  pub on_delete : Text
  pub name : Text

pub record SqliteTableIndex : Type 0 where
  pub columns : List Text
  pub name : Text
  pub is_unique : Bool
  pub type : Text
