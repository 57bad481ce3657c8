-- ===== src/Schema/Database.antt =====
-- pkg/apis/databases/v1alpha4: string_or_value.go, value_or_value_from.go, the connections of the
-- dialects and database_types.go, less the fields of DatabaseSpec that only shape the controller's own
-- deployment (its image, its template and its shell).
use schemahero.Base.{Bool, List, Option}
use schemahero.Base.Text.{Text}
use schemahero.Base.Text.Number.{ℤ}

pub record SecretKeyRef : Type 0 where
  pub name : Text
  pub key : Text

pub record ValueFromSecret : Type 0 where
  pub secret_key_ref : Option SecretKeyRef

pub record ValueOrSecretRef : Type 0 where
  pub value : Text
  pub value_from : Option ValueFromSecret

pub record Vault : Type 0 where
  pub agent_inject : Bool
  pub secret : Text
  pub role : Text
  pub endpoint : Text
  pub service_account : Text
  pub service_account_namespace : Text
  pub connection_template : Text
  pub kubernetes_auth_endpoint : Text

pub record Ssm : Type 0 where
  pub name : Text
  pub with_decryption : Bool
  pub region : Text
  pub access_key_id : Option ValueOrSecretRef
  pub secret_access_key : Option ValueOrSecretRef

pub record ValueFrom : Type 0 where
  pub secret_key_ref : Option SecretKeyRef
  pub vault : Option Vault
  pub ssm : Option Ssm

pub record ValueOrValueFrom : Type 0 where
  pub value : Text
  pub value_from : Option ValueFrom

pub record PostgresConnection : Type 0 where
  pub uri : ValueOrValueFrom
  pub host : ValueOrValueFrom
  pub port : ValueOrValueFrom
  pub user : ValueOrValueFrom
  pub password : ValueOrValueFrom
  pub db_name : ValueOrValueFrom
  pub ssl_mode : ValueOrValueFrom
  pub current_schema : ValueOrValueFrom

pub record CockroachDbConnection : Type 0 where
  pub uri : ValueOrValueFrom
  pub host : ValueOrValueFrom
  pub port : ValueOrValueFrom
  pub user : ValueOrValueFrom
  pub password : ValueOrValueFrom
  pub db_name : ValueOrValueFrom
  pub ssl_mode : ValueOrValueFrom
  pub current_schema : ValueOrValueFrom

pub record MysqlConnection : Type 0 where
  pub uri : ValueOrValueFrom
  pub host : ValueOrValueFrom
  pub port : ValueOrValueFrom
  pub user : ValueOrValueFrom
  pub password : ValueOrValueFrom
  pub db_name : ValueOrValueFrom
  pub disable_tls : Bool
  pub default_charset : Text
  pub collation : Text

pub record SqliteConnection : Type 0 where
  pub dsn : Text

pub record RqliteConnection : Type 0 where
  pub uri : ValueOrValueFrom
  pub host : ValueOrValueFrom
  pub port : ValueOrValueFrom
  pub user : ValueOrValueFrom
  pub password : ValueOrValueFrom
  pub disable_tls : Bool

pub record CassandraConnection : Type 0 where
  pub hosts : List Text
  pub keyspace : ValueOrValueFrom
  pub username : ValueOrValueFrom
  pub password : ValueOrValueFrom

pub record DatabaseConnection : Type 0 where
  pub postgres : Option PostgresConnection
  pub mysql : Option MysqlConnection
  pub cockroachdb : Option CockroachDbConnection
  pub cassandra : Option CassandraConnection
  pub sqlite : Option SqliteConnection
  pub rqlite : Option RqliteConnection
  pub timescaledb : Option PostgresConnection

-- A duration is a number of nanoseconds.
pub record DatabaseSpec : Type 0 where
  pub connection : DatabaseConnection
  pub immediate_deploy : Bool
  pub deploy_seed_data : Bool
  pub batch_window : Option ℤ

pub record Database : Type 0 where
  pub name : Text
  pub namespace : Text
  pub spec : DatabaseSpec
