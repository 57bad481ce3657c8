-- ===== src/Schema/Postgresql.antt =====
-- pkg/apis/schemas/v1alpha4/postgresql.go, what Dialects does not have. A list of pointers is a list of
-- what they point to.
use schemahero.Base.{Bool, List, Option}
use schemahero.Base.Text.{Text}
use schemahero.Schema.Dialects.{
  PostgresqlTableForeignKey, PostgresqlTableCheckConstraint, PostgresqlTableIndex,
  PostgresqlTablePolicy,
}

pub record PostgresqlTableExclusionConstraintItem : Type 0 where
  pub column : Text
  pub expression : Text
  pub operator : Text

pub record PostgresqlTableExclusionConstraint : Type 0 where
  pub name : Text
  pub using : Text
  pub items : List PostgresqlTableExclusionConstraintItem
  pub condition : Text
  pub parameters : List (Text × Text)

pub record PostgresqlTableColumnConstraints : Type 0 where
  pub not_null : Option Bool

pub record PostgresqlTableColumnAttributes : Type 0 where
  pub auto_increment : Option Bool

pub record PostgresqlTableColumn : Type 0 where
  pub name : Text
  pub type : Text
  pub constraints : Option PostgresqlTableColumnConstraints
  pub attributes : Option PostgresqlTableColumnAttributes
  pub default : Option Text

pub record PostgresqlTableRowLevelSecurity : Type 0 where
  pub enable : Text
  pub force : Text

pub record PostgresqlExecuteParameter : Type 0 where
  pub mode : Text
  pub name : Text
  pub type : Text

pub record PostgresqlTableTriggerExecute : Type 0 where
  pub type : Text
  pub schema : Text
  pub name : Text
  pub params : List PostgresqlExecuteParameter

pub record PostgresqlTableTrigger : Type 0 where
  pub name : Text
  pub constraint_trigger : Option Bool
  pub events : List Text
  pub for_each_statement : Option Bool
  pub for_each_row : Option Bool
  pub condition : Option Text
  pub execute : Option PostgresqlTableTriggerExecute
  pub execute_procedure : Text

pub record PostgresqlTableSchema : Type 0 where
  pub schema : Text
  pub primary_key : List Text
  pub foreign_keys : List PostgresqlTableForeignKey
  pub checks : List PostgresqlTableCheckConstraint
  pub indexes : List PostgresqlTableIndex
  pub exclusion_constraints : List PostgresqlTableExclusionConstraint
  pub columns : List PostgresqlTableColumn
  pub is_deleted : Bool
  pub json_triggers : List PostgresqlTableTrigger
  pub triggers : List PostgresqlTableTrigger
  pub row_level_security : Option PostgresqlTableRowLevelSecurity
  pub policies : List PostgresqlTablePolicy

pub record PostgresqlFunctionSchema : Type 0 where
  pub schema : Text
  pub lang : Text
  pub params : List PostgresqlExecuteParameter
  pub return_set : Bool
  pub return : Text
  pub body_text : Text
  pub security_definer : Bool
  pub body : Text
  pub returns : Text
  pub language : Text
  pub is_deleted : Bool

-- database_extension_types.go
pub record PostgresDatabaseExtension : Type 0 where
  pub name : Text
  pub version : Option Text
  pub schema : Option Text
  pub is_deleted : Bool
