-- ===== src/Mysql.antt =====
-- plugins/mysql/lib: planning a MySQL table.
pub mod ColumnType
pub mod Column
pub mod AlterStatements
pub mod Alter
pub mod Constraints
pub mod Create
pub mod Connection
pub mod Deploy
pub mod Fixtures
pub mod Planner
