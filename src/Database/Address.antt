-- ===== src/Database/Address.antt =====
-- GetConnection of pkg/apis/databases/v1alpha4/connection.go, with getDbType of vault.go and IsEmpty of
-- value_or_value_from.go: the driver of a database and the address that its plugin connects to. The
-- Kubernetes API, Vault and SSM are parameters.
pub mod Drivers
pub mod Tests
use schemahero.Base.{
  Bool, true, false, ◌&&◌, List, [], ◌∷◌, ◌++◌, Option, none, some, if◌then◌else◌,
}
use schemahero.Base.Text.{Text, lit, ◌==◌, is_empty, join}
use schemahero.Base.Text.Escape.{user_info}
use schemahero.Base.Result.{Error, Result, ok, err, failed, wrapped}
use schemahero.Base.Maps.{TextMap, find}
use schemahero.Mysql.AlterStatements.{quote}
use schemahero.Schema.Database.{
  Database, DatabaseConnection, ValueOrValueFrom, ValueFrom, SecretKeyRef, Vault, Ssm,
  PostgresConnection, CockroachDbConnection, MysqlConnection, SqliteConnection, RqliteConnection,
  CassandraConnection,
}
use schemahero.Database.Outcome.{
  returned, raised, panicked, Outcome, ◌>>=◌, annotate, lift_result, as_outcome,
}

-- A secret is looked up by namespace and name. Vault and SSM read for a driver.
pub record Secrets : Type 0 where
  pub rest_config : Result {0} Unit
  pub clientset : Result {0} Unit
  pub get_secret : Text → Text → Result (TextMap Text)
  pub get_vault_connection : Database → Text → ValueOrValueFrom → Result Text
  pub get_ssm_connection : Database → Text → ValueOrValueFrom → Result Text

-- IsEmpty
unfoldable pub is_empty_value : ValueOrValueFrom → Bool
is_empty_value v = elim v.value_from [ none ↦ is_empty v.value | some f ↦ false ]

-- The connection that getDbType finds.
pub data Configured : Type 0 where
  cockroachdb : CockroachDbConnection → Configured
  cassandra : CassandraConnection → Configured
  postgres : PostgresConnection → Configured
  mysql : MysqlConnection → Configured
  rqlite : RqliteConnection → Configured
  sqlite : SqliteConnection → Configured
  timescaledb : PostgresConnection → Configured

abbrev pub driver_of : Configured → Text
driver_of (cockroachdb c) = lit "cockroachdb"
driver_of (cassandra c) = lit "cassandra"
driver_of (postgres c) = lit "postgres"
driver_of (mysql c) = lit "mysql"
driver_of (rqlite c) = lit "rqlite"
driver_of (sqlite c) = lit "sqlite"
driver_of (timescaledb c) = lit "timescaledb"

abbrev first_set {ℓ} :
    {A : Type ℓ} → Option A → (A → Configured) → Result Configured → Result Configured
first_set none make rest = rest
first_set (some a) make rest = ok (make a)

-- getDbType
unfoldable pub get_db_type : Database → Result Configured
get_db_type d = first_set d.spec.connection.cockroachdb cockroachdb (
    first_set d.spec.connection.cassandra cassandra (
      first_set d.spec.connection.postgres postgres (
        first_set d.spec.connection.mysql mysql (
          first_set d.spec.connection.rqlite rqlite (
            first_set d.spec.connection.sqlite sqlite (
              first_set d.spec.connection.timescaledb timescaledb (
                err
                  (failed (lit "no database connection configured for database: " ++ d.name)))))))))

-- What the three dialects of PostgreSQL read.
pub record PostgresParams : Type 0 where
  pub host : ValueOrValueFrom
  pub port : ValueOrValueFrom
  pub user : ValueOrValueFrom
  pub password : ValueOrValueFrom
  pub db_name : ValueOrValueFrom
  pub ssl_mode : ValueOrValueFrom
  pub current_schema : ValueOrValueFrom

abbrev params_of_postgres : PostgresConnection → PostgresParams
params_of_postgres c = record {
  host = c.host;
  port = c.port;
  user = c.user;
  password = c.password;
  db_name = c.db_name;
  ssl_mode = c.ssl_mode;
  current_schema = c.current_schema;
}

abbrev params_of_cockroachdb : CockroachDbConnection → PostgresParams
params_of_cockroachdb c = record {
  host = c.host;
  port = c.port;
  user = c.user;
  password = c.password;
  db_name = c.db_name;
  ssl_mode = c.ssl_mode;
  current_schema = c.current_schema;
}

abbrev with_query : Text → List Text → Text
with_query uri [] = uri
with_query uri (q ∷ params) = uri ++ lit "?" ++ join (lit "&") (q ∷ params)

module _ (secrets : Secrets) (d : Database) where
  abbrev key_of_secret : SecretKeyRef → Option Text → Outcome Text
  key_of_secret r (some content) = returned content
  key_of_secret r none = raised (
      failed
        (lit "expected Secret \"" ++ r.name ++ lit "\" to contain key \"" ++ r.key ++ lit "\""))

  abbrev from_vault : Text → ValueOrValueFrom → Option Vault → Option Ssm → Outcome Text
  from_vault driver v (some vault) ssm = as_outcome (secrets.get_vault_connection d driver v)
  from_vault driver v none (some ssm) = as_outcome (secrets.get_ssm_connection d driver v)
  from_vault driver v none none = raised (failed (lit "unable to get value for driver"))

  abbrev from_secret : Text → ValueOrValueFrom → ValueFrom → Option SecretKeyRef → Outcome Text
  from_secret driver v f (some r) = do
    secret ← lift_result (lit "failed to get secret") (secrets.get_secret d.namespace r.name)
    key_of_secret r (find r.key secret)
  from_secret driver v f none = from_vault driver v f.vault f.ssm

  -- The pointer is read without a test whether it is nil.
  abbrev from_source : Text → ValueOrValueFrom → Option ValueFrom → Outcome Text
  from_source driver v none = panicked
  from_source driver v (some f) = from_secret driver v f f.secret_key_ref

  -- getValueFromValueOrValueFrom on a value that is not nil
  unfoldable pub get_value : Text → ValueOrValueFrom → Outcome Text
  unfolding find
  get_value driver v =
      if is_empty v.value
      then (do
        _ ← lift_result (lit "failed to get config") secrets.rest_config
        _ ← lift_result (lit "failed to get clientset") secrets.clientset
        from_source driver v v.value_from)
      else returned v.value

  -- A parameter that must be there
  unfoldable pub read_param : Text → Text → ValueOrValueFrom → Outcome Text
  unfolding get_value
  read_param driver label v = annotate (lit "failed to read " ++ label) (get_value driver v)

  -- addQueryStringParameter
  unfoldable pub query_param : Text → Text → Text → ValueOrValueFrom → Outcome (List Text)
  unfolding is_empty_value read_param
  query_param driver label key v =
      if is_empty_value v
      then returned []
      else (do value ← read_param driver label v; returned ((key ++ lit "=" ++ value) ∷ []))

  -- The branches of PostgreSQL, CockroachDB and TimescaleDB, with their labels and the key of the
  -- current schema.
  unfoldable pub postgres_address : Text → Text → Text → PostgresParams → Outcome Text
  unfolding read_param query_param user_info
  postgres_address driver label schema_key p = do
    hostname ← read_param driver (label ++ lit " hostname") p.host
    port ← read_param driver (label ++ lit " port") p.port
    user ← read_param driver (label ++ lit " user") p.user
    password ← read_param driver (label ++ lit " password") p.password
    dbname ← read_param driver (label ++ lit " dbname") p.db_name
    ssl ←
        annotate (lit "failed to compute query string parameters")
          (query_param driver (label ++ lit " ssl mode") (lit "sslmode") p.ssl_mode)
    schema ←
        annotate (lit "failed to compute query string parameters")
          (query_param driver (label ++ lit " currentSchema") schema_key p.current_schema)
    returned (
        with_query
          (lit "postgres://"
            ++ user_info user password
            ++ lit "@"
            ++ hostname
            ++ lit ":"
            ++ port
            ++ lit "/"
            ++ dbname)
          (ssl ++ schema))

  unfoldable pub mysql_address : MysqlConnection → Outcome Text
  unfolding read_param
  mysql_address c = do
    hostname ← read_param (lit "mysql") (lit "mysql hostname") c.host
    port ← read_param (lit "mysql") (lit "mysql port") c.port
    user ← read_param (lit "mysql") (lit "mysql user") c.user
    password ← read_param (lit "mysql") (lit "mysql password") c.password
    dbname ← read_param (lit "mysql") (lit "mysql dbname") c.db_name
    returned (
        user
        ++ lit ":"
        ++ password
        ++ lit "@tcp("
        ++ hostname
        ++ lit ":"
        ++ port
        ++ lit ")/"
        ++ dbname
        ++ (if c.disable_tls then lit "?tls=false" else []))

  unfoldable pub rqlite_address : RqliteConnection → Outcome Text
  unfolding read_param
  rqlite_address c = do
    hostname ← read_param (lit "rqlite") (lit "rqlite hostname") c.host
    port ← read_param (lit "rqlite") (lit "rqlite port") c.port
    user ← read_param (lit "rqlite") (lit "rqlite user") c.user
    password ← read_param (lit "rqlite") (lit "rqlite password") c.password
    returned (
        (if c.disable_tls then lit "http" else lit "https")
        ++ lit "://"
        ++ user
        ++ lit ":"
        ++ password
        ++ lit "@"
        ++ hostname
        ++ lit ":"
        ++ port
        ++ lit "/")

  -- getConnectionFromParams; it is not called for SQLite, and would return an empty address.
  unfoldable pub get_connection_from_params : Configured → Outcome Text
  unfolding postgres_address mysql_address rqlite_address
  get_connection_from_params (postgres c) =
      postgres_address (lit "postgres") (lit "postgres") (lit "search_path") (params_of_postgres c)
  get_connection_from_params (cockroachdb c) =
      postgres_address (lit "cockroachdb") (lit "cockroachdb") (lit "search_path")
        (params_of_cockroachdb c)
  get_connection_from_params (cassandra c) = raised (failed (lit "not implemented"))
  get_connection_from_params (mysql c) = mysql_address c
  get_connection_from_params (rqlite c) = rqlite_address c
  get_connection_from_params (timescaledb c) =
      postgres_address (lit "timescaledb") (lit "timescale") (lit "currentSchema")
        (params_of_postgres c)
  get_connection_from_params (sqlite c) = returned []

  -- getConnectionFromURI; for SQLite no value is chosen, and a nil value is refused.
  unfoldable pub get_connection_from_uri : Configured → Outcome Text
  unfolding get_value
  get_connection_from_uri (postgres c) = get_value (lit "postgres") c.uri
  get_connection_from_uri (cockroachdb c) = get_value (lit "cockroachdb") c.uri
  get_connection_from_uri (cassandra c) =
      raised (failed (lit "reading cassandra connecting from uri is not supported"))
  get_connection_from_uri (mysql c) = get_value (lit "mysql") c.uri
  get_connection_from_uri (rqlite c) = get_value (lit "rqlite") c.uri
  get_connection_from_uri (timescaledb c) = get_value (lit "timescaledb") c.uri
  get_connection_from_uri (sqlite c) = raised (failed (lit "valueOrValueFrom must not be nil"))

  unfoldable pub is_param_based : Configured → Bool
  unfolding is_empty_value
  is_param_based (postgres c) = is_empty_value c.uri
  is_param_based (cockroachdb c) = is_empty_value c.uri
  is_param_based (mysql c) = is_empty_value c.uri
  is_param_based (cassandra c) = true
  is_param_based (rqlite c) = is_empty_value c.uri
  is_param_based (timescaledb c) = is_empty_value c.uri
  is_param_based (sqlite c) = false

  abbrev address_of : Configured → Outcome Text
  address_of k =
      if is_param_based k then get_connection_from_params k else get_connection_from_uri k

  -- GetConnection: the driver and the address
  unfoldable pub get_connection : Outcome (Text × Text)
  unfolding get_db_type is_param_based get_connection_from_params get_connection_from_uri
  get_connection = do
    k ← lift_result (lit "failed to get database type") (get_db_type d)
    uri ← address_of k
    returned (driver_of k, uri)
