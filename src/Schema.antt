-- ===== src/Schema.antt =====
-- pkg/apis/schemas/v1alpha4: what a user declares. A pointer that may be nil is an `Option`.
pub mod Mysql
pub mod Dialects
pub mod SeedData
pub mod Migration
pub mod Postgresql
pub mod Sqlite
pub mod Cassandra
pub mod Timescaledb
pub mod Table
pub mod Database
