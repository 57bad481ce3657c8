-- ===== src/Controller/Batch/Steps.antt =====
-- What happens to the batches, in any order: a table is queued, a timer expires, or the callback of an
-- expired timer gets the lock.
use mathlib.Core.List.{Memᴰ, Permᴰ}
use schemahero.Base.{ℕ, List, ◌∷◌, some, ◌≡◌}
use schemahero.Base.Maps.{find}
use schemahero.Schema.Table.{Table}
use schemahero.Schema.Database.{Database}
use schemahero.Controller.Batch.{
  BatchState, BatchManager, new_batch_manager, key_of, without, with_batch, queue_table, pending_of,
  process_batch,
}

abbrev pub expire : ℕ → Database → BatchState → BatchState
expire h db b = record b {
  timers = record b.timers {
    running = without h b.timers.running;
    expired = (h, db) ∷ b.timers.expired;
  };
}

abbrev pub return : ℕ → BatchState → BatchState
return h b = record b { timers = record b.timers { expired = without h b.timers.expired } }

-- The steps that need no new table.
pub data Fire (s : BatchManager) : BatchManager → Type 0 where
  expires :
      (h : ℕ) (db : Database) (b : BatchState)
      → find (key_of db) s.batches ≡ some b
      → Memᴰ (h, db) b.timers.running
      → Fire s (with_batch (key_of db) (expire h db b) s)
  processes :
      (h : ℕ) (db : Database) (b : BatchState) (tables : List Table)
      → find (key_of db) s.batches ≡ some b
      → Memᴰ (h, db) b.timers.expired
      → Permᴰ tables (pending_of b)
      → Fire s (process_batch db tables (with_batch (key_of db) (return h b) s))

pub data Step (s : BatchManager) : BatchManager → Type 0 where
  queues : (db : Database) (table : Table) (now : ℕ) → Step s (queue_table db table now s).1
  fires : {t : BatchManager} → Fire s t → Step s t

pub data Reach : BatchManager → Type 0 where
  initial : Reach new_batch_manager
  next : {s t : BatchManager} → Reach s → Step s t → Reach t

pub data Fires (s : BatchManager) : BatchManager → Type 0 where
  here : Fires s s
  fire : {t u : BatchManager} → Fires s t → Fire t u → Fires s u
