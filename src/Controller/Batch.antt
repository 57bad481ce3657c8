-- ===== src/Controller/Batch.antt =====
-- The queue of pkg/controller/table/batch.go: tables wait until the batch window of their database
-- has passed without a further table. A timer of time.AfterFunc runs until it is stopped or expires;
-- the callback of an expired one waits for the lock of its batch, and stopping it has no effect.
pub mod Steps
pub mod Waiting
pub mod Latest
pub mod Refinement
pub mod Tests
use mathlib.Core.List.{Memᴰ}
use schemahero.Base.{
  ℕ, ◌+◌, Bool, true, false, not, List, [], ◌∷◌, ◌++◌, Option, none, some, map, beq, keep,
  if◌then◌else◌,
}
use schemahero.Base.Text.{Text, lit}
use schemahero.Base.Text.Number.{ℤ, pos, negsuc}
use schemahero.Base.Maps.{TextMap, find, put, values}
use schemahero.Schema.Table.{Table}
use schemahero.Schema.Database.{Database}

pub record PendingTable : Type 0 where
  pub table : Table
  pub queued_at : ℕ

-- The timers that were started for a batch, each with the database that its callback processes.
pub record Timers : Type 0 where
  pub started : ℕ
  pub running : List (ℕ × Database)
  pub expired : List (ℕ × Database)

pub record BatchState : Type 0 where
  pub pending_tables : TextMap PendingTable
  pub timer : Option ℕ
  pub timers : Timers

-- The batches, and what processBatch has handed to planBatch, the last first.
pub record BatchManager : Type 0 where
  pub batches : TextMap BatchState
  pub handed : List (Database × List Table)

-- NewBatchManager
abbrev pub new_batch_manager : BatchManager
new_batch_manager = record { batches = []; handed = [] }

abbrev pub new_batch : BatchState
new_batch = record {
  pending_tables = [];
  timer = none;
  timers = record { started = 0; running = []; expired = [] };
}

-- databaseKey and tableKey
unfoldable pub database_key : Text → Text → Text
database_key namespace name = namespace ++ lit "/" ++ name

unfoldable pub table_key : Text → Text → Text
table_key namespace name = namespace ++ lit "/" ++ name

abbrev pub key_of : Database → Text
key_of db = database_key db.namespace db.name

-- The batch window is set and is not zero.
unfoldable pub is_batched : Option ℤ → Bool
is_batched none = false
is_batched (some (pos n)) = not (beq n 0)
is_batched (some (negsuc n)) = true

abbrev pub without : ℕ → List (ℕ × Database) → List (ℕ × Database)
without h timers = keep (λ e. not (beq e.0 h)) timers

-- Timer.Stop on what may be nil
abbrev pub stop : Option ℕ → Timers → Timers
stop none w = w
stop (some h) w = record w { running = without h w.running }

-- time.AfterFunc
abbrev pub after_func : Database → Timers → Timers
after_func db w = record w { started = w.started + 1; running = (w.started, db) ∷ w.running }

-- What QueueTable does under the lock of the batch.
unfoldable pub add_pending : Database → Table → ℕ → BatchState → BatchState
unfolding table_key
add_pending db table now b =
    let w = stop b.timer b.timers in
    record {
      pending_tables =
          put (table_key table.namespace table.name) (record { table = table; queued_at = now })
            b.pending_tables;
      timer = some w.started;
      timers = after_func db w;
    }

abbrev pub found : Option BatchState → BatchState
found none = new_batch
found (some b) = b

abbrev pub with_batch : Text → BatchState → BatchManager → BatchManager
with_batch k b s = record s { batches = put k b s.batches }

-- QueueTable
unfoldable pub queue_table : Database → Table → ℕ → BatchManager → Bool × BatchManager
unfolding is_batched add_pending
queue_table db table now s =
    let b = add_pending db table now (found (find (key_of db) s.batches)) in
    if is_batched db.spec.batch_window then (true, with_batch (key_of db) b s) else (false, s)

-- The tables that processBatch copies, in the order of the entries.
unfoldable pub pending_of : BatchState → List Table
unfolding values
pending_of b = map (λ p. p.table) (values b.pending_tables)

abbrev pub hand_over : Database → List Table → BatchManager → BatchManager
hand_over db [] s = s
hand_over db (t ∷ tables) s = record s { handed = (db, t ∷ tables) ∷ s.handed }

abbrev pub cleared : BatchState → BatchState
cleared b = record b { pending_tables = []; timer = none }

abbrev process_found : Database → List Table → BatchManager → Option BatchState → BatchManager
process_found db tables s none = s
process_found db tables s (some b) = hand_over db tables (with_batch (key_of db) (cleared b) s)

-- processBatch up to the call of planBatch. The loop over the map copies the tables in an order that
-- Go leaves open: they are passed here in that order.
unfoldable pub process_batch : Database → List Table → BatchManager → BatchManager
process_batch db tables s = process_found db tables s (find (key_of db) s.batches)
