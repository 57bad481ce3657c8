-- ===== src/Controller/Batch/Latest.antt =====
-- The abstract view of the batches of pkg/controller/table: the latest version of each table that is
-- still to be planned, and what was handed to a planner.
use mathlib.Core.List.{Memᴰ}
use schemahero.Base.{false, ◌&&◌, List, [], ◌∷◌, Option, none, some, ◌≡◌, ◌↔◌, ◌⊎◌}
use schemahero.Base.Text.{Text, ◌==◌}
use schemahero.Base.Maps.{find}
use schemahero.Base.Text.Number.{pos}
use schemahero.Schema.Table.{Table}
use schemahero.Schema.Database.{Database}
use schemahero.Controller.Batch.Steps.{Fire, expires, processes, Step, queues, fires}
use schemahero.Controller.Batch.{BatchState, BatchManager, PendingTable, key_of, table_key, found}

-- The version of each table, by the key of its database and its own, and the batches handed over.
pub record Wanted : Type 0 where
  pub wanted : Text → Text → Option Table
  pub handed : List (Database × List Table)

abbrev pub added :
    Database → List Table → List (Database × List Table) → List (Database × List Table)
added db [] log = log
added db (t ∷ tables) log = (db, t ∷ tables) ∷ log

-- The batch window of the database is not set or is zero.
abbrev pub HasNoWindow : Database → Type 0
HasNoWindow db = (db.spec.batch_window ≡ none) ⊎ (db.spec.batch_window ≡ some (pos 0))

-- What happens to the batches: a table is queued, a timer expires, a batch is handed over.
pub data Event : Type 0 where
  queued : Database → Table → Event
  expired : Event
  delivered : Database → List Table → Event

-- What an event makes of the wanted versions. A queued table that has a batch window is wanted, in
-- place of another version of it, and one that has none changes nothing. A batch that is handed over
-- has the wanted tables of its database, of which none is wanted then.
pub data WantedStep (v : Wanted) (w : Wanted) : Event → Type 0 where
  ignores :
      {db : Database} {table : Table}
      → HasNoWindow db
      → ((k i : Text) → w.wanted k i ≡ v.wanted k i)
      → w.handed ≡ v.handed
      → WantedStep v w (queued db table)
  wants :
      {db : Database} {table : Table}
      → ¬ HasNoWindow db
      → w.wanted (key_of db) (table_key table.namespace table.name) ≡ some table
      → ((k i : Text)
          → ((key_of db == k) && (table_key table.namespace table.name == i)) ≡ false
          → w.wanted k i ≡ v.wanted k i)
      → w.handed ≡ v.handed
      → WantedStep v w (queued db table)
  rests :
      ((k i : Text) → w.wanted k i ≡ v.wanted k i) → w.handed ≡ v.handed → WantedStep v w expired
  delivers :
      {db : Database} {tables : List Table}
      → ((t : Table) → Memᴰ t tables ↔ ((i : Text) × (v.wanted (key_of db) i ≡ some t)))
      → ((i : Text) → w.wanted (key_of db) i ≡ none)
      → ((k i : Text) → (key_of db == k) ≡ false → w.wanted k i ≡ v.wanted k i)
      → w.handed ≡ added db tables v.handed
      → WantedStep v w (delivered db tables)

pub data WantedReach : Wanted → Type 0 where
  nothing_wanted : WantedReach (record { wanted = λ k i. none; handed = [] })
  step : {v w : Wanted} (e : Event) → WantedReach v → WantedStep v w e → WantedReach w

-- The event of a step of the batches.
abbrev fired : {s t : BatchManager} → Fire s t → Event
fired (expires h db b is m) = expired
fired (processes h db b tables is m p) = delivered db tables

abbrev pub event_of : {s t : BatchManager} → Step s t → Event
event_of (queues db table now) = queued db table
event_of (fires f) = fired f

abbrev pub table_of : Option PendingTable → Option Table
table_of none = none
table_of (some p) = some p.table

unfoldable pub latest : BatchState → Text → Option Table
latest b i = table_of (find i b.pending_tables)

-- What the state of the batches stands for.
unfoldable pub wanted_in : BatchManager → Wanted
unfolding latest
wanted_in s = record { wanted = λ k i. latest (found (find k s.batches)) i; handed = s.handed }
