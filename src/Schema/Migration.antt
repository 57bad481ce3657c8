-- ===== src/Schema/Migration.antt =====
-- pkg/apis/schemas/v1alpha4/migration_types.go
use schemahero.Base.{ℕ, List}
use schemahero.Base.Text.{Text}
use schemahero.Base.Text.Number.{ℤ}

pub data Phase : Type 0 where
  planned approved executed invalid rejected : Phase

pub record TableReference : Type 0 where
  pub name : Text
  pub namespace : Text

pub record MigrationSpec : Type 0 where
  pub database_name : Text
  pub table_name : Text
  pub table_namespace : Text
  pub generated_ddl : Text
  pub edited_ddl : Text
  pub tables : List TableReference

pub record MigrationStatus : Type 0 where
  pub phase : Phase
  pub planned_at : ℤ
  pub invalidated_at : ℤ
  pub approved_at : ℤ
  pub rejected_at : ℤ
  pub executed_at : ℤ

-- Of the object's metadata, what identifies it and the version that the API server compares.
pub record Migration : Type 0 where
  pub name : Text
  pub namespace : Text
  pub resource_version : ℕ
  pub spec : MigrationSpec
  pub status : MigrationStatus
