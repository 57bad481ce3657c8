-- ===== src/Schema/Timescaledb.antt =====
-- pkg/apis/schemas/v1alpha4/timescaledb.go
use schemahero.Base.{Bool, List, Option}
use schemahero.Base.Text.{Text}
use schemahero.Base.Text.Number.{ℤ}
use schemahero.Schema.Dialects.{PostgresqlTableForeignKey, PostgresqlTableIndex}
use schemahero.Schema.Postgresql.{PostgresqlTableColumn, PostgresqlTableTrigger}

pub record TimescaleDbCompression : Type 0 where
  pub segment_by : Option Text
  pub interval : Option Text

pub record TimescaleDbRetention : Type 0 where
  pub interval : Text

pub record TimescaleDbHypertable : Type 0 where
  pub time_column_name : Option Text
  pub partitioning_column : Option Text
  pub number_partitions : Option ℤ
  pub chunk_time_interval : Option Text
  pub create_default_indexes : Option Bool
  pub if_not_exists : Option Bool
  pub partitioning_func : Option Text
  pub associated_schema_name : Option Text
  pub associated_table_prefix : Option Text
  pub migrate_data : Option Bool
  pub time_partitioning_func : Option Text
  pub replication_factor : Option ℤ
  pub data_nodes : List Text
  pub compression : Option TimescaleDbCompression
  pub retention : Option TimescaleDbRetention

pub record TimescaleDbTableSchema : Type 0 where
  pub primary_key : List Text
  pub foreign_keys : List PostgresqlTableForeignKey
  pub indexes : List PostgresqlTableIndex
  pub columns : List PostgresqlTableColumn
  pub is_deleted : Bool
  pub triggers : List PostgresqlTableTrigger
  pub hypertable : Option TimescaleDbHypertable

pub record TimescaleDbViewSchema : Type 0 where
  pub is_continuous_aggregate : Option Bool
  pub with_no_data : Option Bool
  pub query : Text
  pub is_deleted : Bool
