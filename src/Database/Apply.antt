-- ===== src/Database/Apply.antt =====
-- ApplySync of pkg/database/database.go. The plugin that connects to a server and executes there is a
-- parameter.
use schemahero.Base.{Bool, List, [], ◌∷◌, ◌++◌, any, if◌then◌else◌}
use schemahero.Base.Text.{Text, lit, ◌==◌}
use schemahero.Base.Result.{Result, ok, err, failed, wrapped}
use schemahero.Mysql.AlterStatements.{quote}
use schemahero.Mysql.Deploy.Execute.{Executed, stopped}

pub record Plugins (S Connection : Type 0) : Type 0 where
  pub get_connection : Text → Text → S → Result Connection
  pub deploy_statements : Connection → List Text → S → Executed S

unfoldable pub is_known_driver : Text → Bool
is_known_driver driver =
    any (λ k. driver == k)
      (lit "postgres"
        ∷ lit "postgresql"
        ∷ lit "cockroachdb"
        ∷ lit "mysql"
        ∷ lit "timescaledb"
        ∷ lit "sqlite"
        ∷ lit "sqlite3"
        ∷ lit "rqlite"
        ∷ lit "cassandra"
        ∷ [])

module _ {S Connection : Type 0} (plugins : Plugins S Connection) where
  abbrev deploy_on : List Text → S → Result Connection → Executed S
  deploy_on statements s (ok conn) = plugins.deploy_statements conn statements s
  deploy_on statements s (err e) = stopped (wrapped (lit "failed to get database connection") e) s

  -- ApplySync
  unfoldable pub apply_sync : Text → Text → List Text → S → Executed S
  unfolding is_known_driver
  apply_sync driver uri statements s =
      if is_known_driver driver
      then deploy_on statements s (plugins.get_connection driver uri s)
      else stopped (failed (lit "unknown database driver: " ++ quote driver)) s
