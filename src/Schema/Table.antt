-- ===== src/Schema/Table.antt =====
-- pkg/apis/schemas/v1alpha4/table_types.go, view_types.go and type_types.go
use schemahero.Base.{ℕ, List, Option}
use schemahero.Base.Text.{Text}
use schemahero.Schema.Mysql.{MysqlTableSchema}
use schemahero.Schema.Postgresql.{PostgresqlTableSchema}
use schemahero.Schema.Sqlite.{SqliteTableSchema, RqliteTableSchema}
use schemahero.Schema.Cassandra.{CassandraTableSchema, CassandraDataTypeSchema}
use schemahero.Schema.Timescaledb.{TimescaleDbTableSchema, TimescaleDbViewSchema}
use schemahero.Schema.SeedData.{SeedData}

pub record TableSchema : Type 0 where
  pub postgres : Option PostgresqlTableSchema
  pub mysql : Option MysqlTableSchema
  pub cockroachdb : Option PostgresqlTableSchema
  pub cassandra : Option CassandraTableSchema
  pub timescaledb : Option TimescaleDbTableSchema
  pub sqlite : Option SqliteTableSchema
  pub rqlite : Option RqliteTableSchema

pub record TableSpec : Type 0 where
  pub database : Text
  pub name : Text
  pub requires : List Text
  pub schema : Option TableSchema
  pub seed_data : Option SeedData

pub record TableStatus : Type 0 where
  pub last_planned_table_spec_sha : Text

-- Of the metadata, what identifies the object and the version that the API server compares.
pub record Table : Type 0 where
  pub name : Text
  pub namespace : Text
  pub resource_version : ℕ
  pub spec : TableSpec
  pub status : TableStatus

-- A struct without fields.
pub data NotImplementedViewSchema : Type 0 where
  not_implemented : NotImplementedViewSchema

pub record ViewSchema : Type 0 where
  pub postgres : Option NotImplementedViewSchema
  pub mysql : Option NotImplementedViewSchema
  pub cockroachdb : Option NotImplementedViewSchema
  pub rqlite : Option NotImplementedViewSchema
  pub sqlite : Option NotImplementedViewSchema
  pub timescaledb : Option TimescaleDbViewSchema
  pub cassandra : Option NotImplementedViewSchema

pub record ViewSpec : Type 0 where
  pub database : Text
  pub name : Text
  pub requires : List Text
  pub schema : Option ViewSchema

pub record DataTypeSchema : Type 0 where
  pub cassandra : Option CassandraDataTypeSchema

pub record DataTypeSpec : Type 0 where
  pub database : Text
  pub name : Text
  pub schema : Option DataTypeSchema
