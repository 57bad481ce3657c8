-- ===== src/Schema/Mysql.antt =====
-- pkg/apis/schemas/v1alpha4/mysql.go
use schemahero.Base.{Bool, List, Option}
use schemahero.Base.Text.{Text}

pub record MysqlTableColumnConstraints : Type 0 where
  pub not_null : Option Bool

pub record MysqlTableColumnAttributes : Type 0 where
  pub auto_increment : Option Bool

pub record MysqlTableForeignKeyReferences : Type 0 where
  pub table : Text
  pub columns : List Text

pub record MysqlTableForeignKey : Type 0 where
  pub columns : List Text
  pub references : MysqlTableForeignKeyReferences
  pub on_delete : Text
  pub name : Text

pub record MysqlTableIndex : Type 0 where
  pub columns : List Text
  pub name : Text
  pub is_unique : Bool
  pub type : Text

pub record MysqlTableColumn : Type 0 where
  pub name : Text
  pub type : Text
  pub constraints : Option MysqlTableColumnConstraints
  pub attributes : Option MysqlTableColumnAttributes
  pub default : Option Text
  pub charset : Text
  pub collation : Text

pub record MysqlTableSchema : Type 0 where
  pub primary_key : List Text
  pub foreign_keys : List MysqlTableForeignKey
  pub indexes : List MysqlTableIndex
  pub columns : List MysqlTableColumn
  pub is_deleted : Bool
  pub default_charset : Text
  pub collation : Text
