-- ===== src/Schema/Sqlite.antt =====
-- pkg/apis/schemas/v1alpha4/sqlite.go and rqlite.go, what Dialects does not have.
use schemahero.Base.{Bool, List, Option}
use schemahero.Base.Text.{Text}
use schemahero.Schema.Dialects.{
  SqliteTableForeignKey, SqliteTableIndex, RqliteTableForeignKey, RqliteTableIndex,
}

pub record SqliteTableColumnConstraints : Type 0 where
  pub not_null : Option Bool

pub record SqliteTableColumnAttributes : Type 0 where
  pub auto_increment : Option Bool

pub record SqliteTableColumn : Type 0 where
  pub name : Text
  pub type : Text
  pub constraints : Option SqliteTableColumnConstraints
  pub attributes : Option SqliteTableColumnAttributes
  pub default : Option Text

pub record SqliteTableSchema : Type 0 where
  pub primary_key : List Text
  pub foreign_keys : List SqliteTableForeignKey
  pub indexes : List SqliteTableIndex
  pub columns : List SqliteTableColumn
  pub is_deleted : Bool
  pub strict : Bool

pub record RqliteTableColumnConstraints : Type 0 where
  pub not_null : Option Bool

pub record RqliteTableColumnAttributes : Type 0 where
  pub auto_increment : Option Bool

pub record RqliteTableColumn : Type 0 where
  pub name : Text
  pub type : Text
  pub constraints : Option RqliteTableColumnConstraints
  pub attributes : Option RqliteTableColumnAttributes
  pub default : Option Text

pub record RqliteTableSchema : Type 0 where
  pub primary_key : List Text
  pub foreign_keys : List RqliteTableForeignKey
  pub indexes : List RqliteTableIndex
  pub columns : List RqliteTableColumn
  pub is_deleted : Bool
  pub strict : Bool
