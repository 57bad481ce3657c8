-- ===== src/Database/Address/Tests.antt =====
-- Addresses from parameters, and the theorems on drivers at a SQLite and a MySQL database.
use schemahero.Base.{true, [], none, some, ◌≡◌, refl}
use schemahero.Base.Text.{Text, lit, join}
use schemahero.Base.Text.Escape.{user_info}
use schemahero.Base.Result.{ok, err, not_found}
use schemahero.Schema.Database.{Database, DatabaseConnection, ValueOrValueFrom, MysqlConnection}
use schemahero.Controller.Batch.Tests.{database}
use schemahero.Database.Outcome.{returned, panicked}
use schemahero.Database.Address.{Secrets, get_connection, mysql}

abbrev no_secrets : Secrets
no_secrets = record {
  rest_config = ok tt;
  clientset = ok tt;
  get_secret = λ namespace name. err not_found;
  get_vault_connection = λ d driver v. err not_found;
  get_ssm_connection = λ d driver v. err not_found;
}

abbrev no_connection : DatabaseConnection
no_connection = record database.spec.connection { sqlite = none }

abbrev plain : Text → ValueOrValueFrom
plain t = record { value = t; value_from = none }

abbrev mysql_connection : MysqlConnection
mysql_connection = record {
  uri = plain [];
  host = plain (lit "h");
  port = plain (lit "3306");
  user = plain (lit "u");
  password = plain (lit "p/w");
  db_name = plain (lit "d");
  disable_tls = true;
  default_charset = [];
  collation = [];
}

abbrev connected : DatabaseConnection → Database
connected c = record database { spec = record database.spec { connection = c } }

abbrev mysql_database : Database
mysql_database = connected (record no_connection { mysql = some mysql_connection })

abbrev postgres_database : Database
postgres_database = connected (record no_connection {
  postgres = some (record {
    uri = plain [];
    host = plain (lit "h");
    port = plain (lit "5432");
    user = plain (lit "u");
    password = plain (lit "p/w");
    db_name = plain (lit "d");
    ssl_mode = plain (lit "disable");
    current_schema = plain [];
  });
})

-- Without a port, the source of the value is read through a nil pointer.
abbrev portless_database : Database
portless_database =
    connected (record no_connection { mysql = some (record mysql_connection { port = plain [] }) })

address_tests :
    (get_connection no_secrets mysql_database
      ≡ returned (lit "mysql", lit "u:p/w@tcp(h:3306)/d?tls=false"))
    × (get_connection no_secrets postgres_database
        ≡ returned (lit "postgres", lit "postgres://u:p%2Fw@h:5432/d?sslmode=disable"))
    × (get_connection no_secrets portless_database ≡ panicked)
unfolding get_connection lit join user_info
address_tests = (refl, refl, refl)
