-- ===== src/Controller/Batch/Tests.antt =====
-- Two versions of a table are queued for a database with a batch window of a second.
use mathlib.Core.List.{Memᴰ}
use schemahero.Base.{false, List, [], ◌∷◌, none, some, ◌≡◌, refl, keep}
use schemahero.Base.Text.{lit, ◌==◌}
use schemahero.Base.Text.Number.{pos}
use schemahero.Base.Maps.{find, put}
use schemahero.Schema.Table.{Table}
use schemahero.Schema.Database.{Database}
use schemahero.Controller.Batch.{
  BatchManager, BatchState, new_batch_manager, add_pending, queue_table, key_of, is_batched,
  database_key, table_key,
}
use schemahero.Controller.Batch.Steps.{queues, Reach, initial, next, Fires}
use schemahero.Controller.Batch.Waiting.{Reach-processed}
use schemahero.Controller.Batch.Refinement.{Step-WantedStep}
use schemahero.Controller.Batch.Latest.{WantedStep, queued, wanted_in}

abbrev pub database : Database
database = record {
  name = lit "d";
  namespace = lit "n";
  spec = record {
    connection = record {
      postgres = none;
      mysql = none;
      cockroachdb = none;
      cassandra = none;
      sqlite = some (record { dsn = lit "file" });
      rqlite = none;
      timescaledb = none;
    };
    immediate_deploy = false;
    deploy_seed_data = false;
    batch_window = some (pos 1000000000);
  };
}

abbrev pub table : Table
table = record {
  name = lit "t";
  namespace = lit "n";
  resource_version = 1;
  spec = record {
    database = lit "d";
    name = lit "t";
    requires = [];
    schema = none;
    seed_data = none;
  };
  status = record { last_planned_table_spec_sha = [] };
}

abbrev newer : Table
newer = record table { resource_version = 2 }

abbrev queued_once : BatchManager
queued_once = (queue_table database table 3 new_batch_manager).1

abbrev queued_twice : BatchManager
queued_twice = (queue_table database newer 4 queued_once).1

reached : Reach queued_twice
reached = next (next initial (queues database table 3)) (queues database newer 4)

-- The first timer is stopped, the second runs, and only the newer version waits.
abbrev batch : BatchState
batch = record {
  pending_tables = (lit "n/t", record { table = newer; queued_at = 4 }) ∷ [];
  timer = some 1;
  timers = record { started = 2; running = (1, database) ∷ []; expired = [] };
}

queued_twice_test : queued_twice ≡ record { batches = (lit "n/d", batch) ∷ []; handed = [] }
unfolding queue_table add_pending is_batched find put database_key table_key lit ◌==◌ keep
queued_twice_test = refl

Reach-processed_example :
    (t : BatchManager) × Fires queued_twice t
    × (db : Database) × (tables : List Table) × (key_of db ≡ lit "n/d")
    × (t.handed ≡ (db, tables) ∷ queued_twice.handed)
    × Memᴰ newer tables
unfolding queue_table add_pending is_batched find put database_key table_key lit ◌==◌ keep
Reach-processed_example =
    Reach-processed reached (lit "n/d") (lit "n/t") batch (record { table = newer; queued_at = 4 })
      refl refl

Step-WantedStep_example :
    WantedStep (wanted_in queued_once) (wanted_in queued_twice) (queued database newer)
Step-WantedStep_example =
    Step-WantedStep (next initial (queues database table 3)) (queues database newer 4)
