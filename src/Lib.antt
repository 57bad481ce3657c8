-- ===== src/Lib.antt =====
-- SchemaHero turns declared tables into the SQL statements that bring a database to them, and a
-- controller executes those statements once they are approved. This library models the planner of
-- its MySQL plugin and that of its PostgreSQL plugin, the types that the plugins share, the
-- controller of tables with its batches, the split of a migration's text into statements, and the
-- controller of migrations.
--
-- The parts and their files:
--   Schema           what a user declares, a migration and a database: the records of
--                    pkg/apis/schemas/v1alpha4 and of pkg/apis/databases/v1alpha4.
--   Types            pkg/database/types, the mirror of what a server has: keyconstraint.go in Keys,
--                    index.go in Indexes, foreignkey.go in ForeignKeys, column.go and table.go in
--                    Columns, the generated names with identifier.go and tablename.go in Names, and
--                    canonical.go in Canonical, rls.go in Policies, exclusionconstraint.go in
--                    Exclusions.
--   Mysql            plugins/mysql/lib. ColumnType reads a type name (parameterized.go, alias.go),
--                    Column and AlterStatements write a column (column.go, alter_statements.go),
--                    Alter decides what becomes of a column (alter.go), Constraints writes indexes
--                    and foreign keys (index.go, foreignkey.go), Create writes a new table and seed
--                    data (create.go), Connection reads a table (tables.go), and Deploy plans and
--                    executes (deploy.go), with a child module for each group of statements. Fixtures
--                    writes the statements for a new table without a connection, and Planner is what
--                    the plugin offers to its callers (connection.go).
--   Postgres         plugins/postgres/lib. ColumnType reads a type name (parameterized.go, alias.go),
--                    Column writes a column (column.go), Alter compares it with what is there
--                    (alter.go, oid.go), Names quotes (helpers.go), Constraints writes keys and
--                    indexes (constraint.go, foreignkey.go, index.go), Keys plans them, Named is the
--                    two passes that checks (Checks), exclusion constraints (Exclusions) and triggers
--                    (Triggers) share, Security is rls.go, Elements reads an index definition
--                    (helpers.go), Connection reads a table (tables.go, udt.go) from the answers in
--                    Rows, Executables names functions (helpers.go), Create writes a new table and
--                    seed data (create.go), Functions plans functions and extensions (function.go,
--                    extension.go), and Deploy plans a table (deploy.go). Fixtures writes the
--                    statements for a new table without a connection, Schemas chooses the schemas of
--                    a connection, and Planner is what the plugin offers to its callers
--                    (connection.go).
--   Database         pkg/database/database.go: GetStatementsFromDDL in Ddl, ApplySync in Apply, and
--                    in Plan what chooses the schema of a declaration for the plugin of the driver.
--                    Address is pkg/apis/databases/v1alpha4/connection.go, over calls that may panic
--                    (Outcome).
--   Controller       Migration is pkg/controller/migration: the reconciler, its guards and its
--                    lookups. Batch and Table are pkg/controller/table: the queue of tables with its
--                    timers and its abstract view (Batch.Latest), the plan of one table and of a
--                    batch, and the reconciler.
--   Base             texts, tests, lists and results that all parts share.
--
-- How they interact: `plan_mysql_table` and `plan_postgres_table` ask the connection for what a
-- table has, compare it with the declaration by the comparisons of Types, and return statements.
-- `Controller.Table.plan` and `plan_batch` reach them through `plan_sync_table_spec` and join the
-- statements by a semicolon and a line break into the text of a migration;
-- `Controller.Migration.reconcile` splits the text again by `get_statements_from_ddl` and hands the
-- statements to `apply_sync`, whose plugin executes them as `execute_statements` does.
--
-- How the model corresponds to the code:
--   * A text is the list of its bytes, and a change of case or a test for white space acts on ASCII.
--     A pointer that may be nil is an `Option`, a Go error is the `err` case of `Result`, with the
--     message of each wrapping. An index name or a character set that the source writes into the
--     declaration through a pointer is passed on as a changed declaration.
--   * Loops are structural recursion. Two loops of canonical.go run on fuel, the length of the text
--     that is left: each of their rounds reads a byte at least.
--   * `regexp` is a matcher for the few patterns of the source, in Base.Regex. `%q` of `fmt` keeps
--     bytes above 127, as it keeps printable text. Where maybeParseParameterizedColumnType would
--     index past the groups of a match, the model returns an error.
--   * A server is what it answers to the queries of the source (`MysqlConnection`,
--     `PostgresConnection`), or a step function that executes or refuses a statement. The API
--     server, the clock, the plugins and the digest of crypto/sha256 are parameters with what the
--     code relies on of them as laws (`Cluster`, `Stores`, `TableCluster`, `TableStores`,
--     `Unobserved`, `Planner`, `Plugins`, `Digest`), as are a MySQL server that drops and adds
--     indexes or a primary key (`IndexServer`, `KeyServer`), and the quoting of names by pgx
--     (`Pgx`), of which the planners need no law. Whether an update of the status of a table is
--     accepted is up to the API server. With the CRD of tables in config/crds, whose
--     `subresources` are empty, it refuses each of them.
--   * The batches of tables change by steps in any order (Controller.Batch.Steps): a table is queued, a
--     timer expires, or a callback that expired gets the lock of its batch, whose tables it copies in
--     any order. A timer that was stopped too late still runs its callback.
--
-- Not modelled: the plugins of SQLite, rqlite, Cassandra and TimescaleDB; the controllers of databases,
-- views, functions and extensions; the reading of specifications from files; the connection itself,
-- with its parsing of addresses; plugin processes and their download; the command line, the installer
-- and generated clients, which are input and output around these parts.
pub mod Base
pub mod Schema
pub mod Types
pub mod Mysql
pub mod Postgres
pub mod Database
pub mod Controller
