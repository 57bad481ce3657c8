-- ===== src/Postgres.antt =====
-- plugins/postgres/lib: the planner of PostgreSQL tables, functions and extensions, and what it reads
-- of a table.
pub mod Names
pub mod ColumnType
pub mod Alter
pub mod Column
pub mod Elements
pub mod Exclusions
pub mod Named
pub mod Triggers
pub mod Rows
pub mod Executables
pub mod Connection
pub mod Fixtures
pub mod Functions
pub mod Planner
pub mod Schemas
pub mod Create
pub mod Deploy
pub mod Constraints
pub mod Keys
pub mod Checks
pub mod Security
pub mod Tests
