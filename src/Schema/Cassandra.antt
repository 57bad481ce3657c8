-- ===== src/Schema/Cassandra.antt =====
-- pkg/apis/schemas/v1alpha4/cassandra.go
use schemahero.Base.{Bool, List, Option}
use schemahero.Base.Text.{Text}
use schemahero.Base.Text.Number.{ℤ}

pub record CassandraColumn : Type 0 where
  pub name : Text
  pub type : Text
  pub is_static : Option Bool

pub record CassandraClusteringOrder : Type 0 where
  pub column : Text
  pub is_descending : Option Bool

pub record CassandraTableProperties : Type 0 where
  pub bloom_filter_fp_chance : Text
  pub caching : List (Text × Text)
  pub comment : Text
  pub compaction : List (Text × Text)
  pub compression : List (Text × Text)
  pub crc_check_chance : Text
  pub dc_local_read_repair_chance : Text
  pub default_ttl : Option ℤ
  pub gc_grace_seconds : Option ℤ
  pub max_index_interval : Option ℤ
  pub memtable_flush_period_ms : Option ℤ
  pub min_index_interval : Option ℤ
  pub read_repair_chance : Text
  pub speculative_retry : Text

pub record CassandraTableSchema : Type 0 where
  pub is_deleted : Bool
  pub primary_key : List (List Text)
  pub clustering_order : Option CassandraClusteringOrder
  pub columns : List CassandraColumn
  pub properties : Option CassandraTableProperties

pub record CassandraField : Type 0 where
  pub name : Text
  pub type : Text

pub record CassandraDataTypeSchema : Type 0 where
  pub is_deleted : Bool
  pub fields : List CassandraField
