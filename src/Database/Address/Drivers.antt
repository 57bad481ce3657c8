-- ===== src/Database/Address/Drivers.antt =====
-- The driver that GetConnection returns against the schema that the reconciler of tables asks for.
use schemahero.Base.{ℕ, ◌+◌, Bool, true, false, ◌≡◌, ◌⊎◌, refl, arith}
use schemahero.Base.Text.{lit}
use schemahero.Base.Result.{Error, ok, failed}
use schemahero.Schema.Database.{Database, DatabaseConnection}
use schemahero.Database.Plan.{
  AnyTableSchema, nil_schema, postgresql_schema, mysql_schema, timescaledb_schema, sqlite_schema,
  rqlite_schema, cassandra_schema,
}
use schemahero.Database.Outcome.{raised}
use schemahero.Database.Address.{
  Secrets, Configured, cockroachdb, cassandra, postgres, mysql, rqlite, sqlite, timescaledb,
  driver_of, get_db_type, get_connection, is_param_based, get_connection_from_params,
  get_connection_from_uri,
}
use schemahero.Controller.Table.{is_set}

-- The pointer in the interface is not nil.
abbrev pub is_there : AnyTableSchema → Bool
is_there nil_schema = false
is_there (postgresql_schema s) = is_set s
is_there (mysql_schema s) = is_set s
is_there (timescaledb_schema s) = is_set s
is_there (sqlite_schema s) = is_set s
is_there (rqlite_schema s) = is_set s
is_there (cassandra_schema s) = is_set s

abbrev one : Bool → ℕ
one true = 1
one false = 0

-- How many connections are set.
abbrev pub count_set : DatabaseConnection → ℕ
count_set c =
    one (is_set c.postgres)
    + one (is_set c.mysql)
    + one (is_set c.cockroachdb)
    + one (is_set c.rqlite)
    + one (is_set c.timescaledb)
    + one (is_set c.sqlite)
    + one (is_set c.cassandra)

-- No database of SQLite or of Cassandra gets a connection: GetConnection fails, whatever the
-- configuration and the secrets are.
pub get_connection-unsupported :
    (secrets : Secrets) (d : Database) (k : Configured)
    → get_db_type d ≡ ok k
    → (driver_of k ≡ lit "sqlite") ⊎ (driver_of k ≡ lit "cassandra")
    → (e : Error) × (get_connection secrets d ≡ raised e)
unfolding get_connection is_param_based get_connection_from_params get_connection_from_uri lit
get_connection-unsupported secrets d (sqlite c) is h =
    (failed (lit "valueOrValueFrom must not be nil"), rw is refl)
get_connection-unsupported secrets d (cassandra c) is h =
    (failed (lit "not implemented"), rw is refl)
get_connection-unsupported secrets d (cockroachdb c) is h = ground arith
get_connection-unsupported secrets d (postgres c) is h = ground arith
get_connection-unsupported secrets d (mysql c) is h = ground arith
get_connection-unsupported secrets d (rqlite c) is h = ground arith
get_connection-unsupported secrets d (timescaledb c) is h = ground arith
