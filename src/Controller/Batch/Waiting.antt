-- ===== src/Controller/Batch/Waiting.antt =====
-- A table that waits is processed: its batch has a timer at all times.
use mathlib.Core.List.{Memᴰ}
use mathlib.Core.List.Memᴰ
use mathlib.Core.List.Permᴰ
use schemahero.Base.{
  ℕ, false, List, [], ◌∷◌, none, some, ◌≡◌, ◌⊎◌, inl, inr, refl, sym, ap, ◌∙◌, beq, beq_iff,
  Bool-cases, Option-cases,
}
use schemahero.Base.Members.{mem-keep}
use schemahero.Base.Text.{Text, ◌==◌}
use schemahero.Base.Text.Equality.{eq_iff}
use schemahero.Base.Maps.{
  find, HasDistinctKeys, find-put, find-put_other, put-HasDistinctKeys, mem_of_find,
}
use schemahero.Schema.Table.{Table}
use schemahero.Schema.Database.{Database}
use schemahero.Controller.Batch.{
  BatchState, BatchManager, PendingTable, key_of, stop, with_batch, add_pending, found, is_batched,
  queue_table, pending_of, cleared, hand_over, process_batch,
}
use schemahero.Controller.Batch.Steps.{
  expire, return, Fire, expires, processes, Step, queues, fires, Reach, initial, next, Fires, here,
  fire,
}

-- The timer of the batch runs, or it has expired and its callback waits.
abbrev pub IsArmed : Text → BatchState → Type 0
IsArmed k b =
    (h : ℕ) × (db : Database) × (b.timer ≡ some h)
    × (key_of db ≡ k)
    × (Memᴰ (h, db) b.timers.running ⊎ Memᴰ (h, db) b.timers.expired)

abbrev pub IsWaiting : Text → BatchState → Type 0
IsWaiting k b = ((b.pending_tables ≡ []) ⊎ IsArmed k b) × HasDistinctKeys b.pending_tables

abbrev pub IsSound : BatchManager → Type 0
IsSound s = (k : Text) (b : BatchState) → find k s.batches ≡ some b → IsWaiting k b

some_inj {ℓ} : {A : Type ℓ} {a b : A} → some a ≡ some b → a ≡ b
some_inj h = cc

none_not_some {ℓ} : {A : Type ℓ} {a : A} → none ≡ some a → ⊥
none_not_some h = cc

-- The same of all batches but one.
abbrev IsSoundBut : Text → BatchManager → Type 0
IsSoundBut k s =
    (i : Text) (b : BatchState) → (k == i) ≡ false → find i s.batches ≡ some b → IsWaiting i b

with_batch-IsSound :
    (k : Text) (b : BatchState) (s : BatchManager)
    → IsWaiting k b
    → IsSoundBut k s
    → IsSound (with_batch k b s)
with_batch-IsSound k b s w sound i c e = elim (Bool-cases (k == i)) [
  | inl t ↦
      let same = (eq_iff k i).0 t in
      let written = some_inj {b = c} (sym (find-put k b s.batches) ∙ rw (sym same) at e) in
      rw (sym same, sym written) w
  | inr f ↦ sound i c f (sym (find-put_other k i b s.batches f) ∙ e)
]

with_batch-IsSoundBut :
    (k : Text) (b : BatchState) (s : BatchManager)
    → IsSoundBut k s
    → IsSoundBut k (with_batch k b s)
with_batch-IsSoundBut k b s sound i c f e = sound i c f (sym (find-put_other k i b s.batches f) ∙ e)

but : (k : Text) (s : BatchManager) → IsSound s → IsSoundBut k s
but k s sound i b f e = sound i b e

hand_over-IsSound :
    (db : Database) (tables : List Table) (s : BatchManager)
    → IsSound s
    → IsSound (hand_over db tables s)
hand_over-IsSound db [] s sound = sound
hand_over-IsSound db (t ∷ tables) s sound = sound

found-HasDistinctKeys :
    (k : Text) (s : BatchManager)
    → IsSound s
    → HasDistinctKeys (found (find k s.batches)).pending_tables
found-HasDistinctKeys k s sound = elim (Option-cases (find k s.batches)) [
  | inl missing ↦ rw missing tt
  | inr (b, is) ↦ rw is (sound k b is).1
]

add_pending-IsWaiting :
    (db : Database) (table : Table) (now : ℕ) (b : BatchState)
    → HasDistinctKeys b.pending_tables
    → IsWaiting (key_of db) (add_pending db table now b)
unfolding add_pending
add_pending-IsWaiting db table now b d = (
  inr ((stop b.timer b.timers).started, db, refl, refl, inl (Memᴰ.head refl)),
  put-HasDistinctKeys _ _ b.pending_tables d,
)

queue_table-IsSound :
    (db : Database) (table : Table) (now : ℕ) (s : BatchManager)
    → IsSound s
    → IsSound (queue_table db table now s).1
unfolding queue_table
queue_table-IsSound db table now s sound = elim (Bool-cases (is_batched db.spec.batch_window)) [
  | inl t ↦ rw t (
      with_batch-IsSound (key_of db) _ s
        (add_pending-IsWaiting db table now (found (find (key_of db) s.batches))
          (found-HasDistinctKeys (key_of db) s sound))
        (but (key_of db) s sound))
  | inr f ↦ rw f sound
]

expire-IsWaiting :
    (h : ℕ) (db : Database) (b : BatchState)
    → IsWaiting (key_of db) b
    → IsWaiting (key_of db) (expire h db b)
expire-IsWaiting h db b (inl none_left, d) = (inl none_left, d)
expire-IsWaiting h db b (inr (i, of, timer, key, inr m), d) =
    (inr (i, of, timer, key, inr (Memᴰ.tail m)), d)
expire-IsWaiting h db b (inr (i, of, timer, key, inl m), d) = elim (Bool-cases (beq i h)) [
  | inl t ↦ (inr (i, db, timer, refl, inr (Memᴰ.head (ap (λ j. (j, db)) ((beq_iff i h).0 t)))), d)
  | inr f ↦ (inr (i, of, timer, key, inl (mem-keep _ m (rw f refl))), d)
]

-- The batch of a database is there when one of its timers is.
pub process_batch-found :
    (h : ℕ) (db : Database) (b : BatchState) (tables : List Table) (s : BatchManager)
    → process_batch db tables (with_batch (key_of db) (return h b) s)
      ≡ hand_over db tables
          (with_batch (key_of db) (cleared (return h b)) (with_batch (key_of db) (return h b) s))
unfolding process_batch
process_batch-found h db b tables s = rw (find-put (key_of db) (return h b) s.batches) refl

Fire-IsSound : {s t : BatchManager} → Fire s t → IsSound s → IsSound t
Fire-IsSound {s} (expires h db b is m) sound =
    with_batch-IsSound (key_of db) _ s (expire-IsWaiting h db b (sound (key_of db) b is))
      (but (key_of db) s sound)
Fire-IsSound {s} (processes h db b tables is m p) sound = rw (process_batch-found h db b tables s) (
    hand_over-IsSound db tables _ (
      with_batch-IsSound (key_of db) (cleared (return h b)) (with_batch (key_of db) (return h b) s)
        (inl refl, tt)
        (with_batch-IsSoundBut (key_of db) (return h b) s (but (key_of db) s sound))))

Step-IsSound : {s t : BatchManager} → Step s t → IsSound s → IsSound t
Step-IsSound {s} (queues db table now) sound = queue_table-IsSound db table now s sound
Step-IsSound (fires f) sound = Fire-IsSound f sound

pub Reach-IsSound : {s : BatchManager} → Reach s → IsSound s
unfolding find
Reach-IsSound initial k b e = cc
Reach-IsSound (next r st) k b e = Step-IsSound st (Reach-IsSound r) k b e

hand_over-handed :
    (db : Database) {t : Table} (tables : List Table) (s : BatchManager)
    → Memᴰ t tables
    → (hand_over db tables s).handed ≡ (db, tables) ∷ s.handed
hand_over-handed db [] s m = absurd (Memᴰ.not-nil m)
hand_over-handed db (t ∷ tables) s m = refl

-- A callback that waits processes the batch with what waits in it.
process_waiting :
    (h : ℕ) (db : Database) (b : BatchState) (s : BatchManager) {t : Table}
    → find (key_of db) s.batches ≡ some b
    → Memᴰ (h, db) b.timers.expired
    → Memᴰ t (pending_of b)
    → (u : BatchManager) × Fire s u × (u.handed ≡ (db, pending_of b) ∷ s.handed)
process_waiting h db b s is m waits = (
  _,
  processes h db b (pending_of b) is m (Permᴰ.refl _),
  rw (process_batch-found h db b (pending_of b) s) (hand_over-handed db (pending_of b) _ waits),
)

-- What waits after a queue is among what the loop of processBatch copies.
pending_of_find :
    (k : Text) (b : BatchState) (p : PendingTable)
    → find k b.pending_tables ≡ some p
    → Memᴰ p.table (pending_of b)
unfolding pending_of
pending_of_find k b p e = Memᴰ.map _ (mem_of_find k b.pending_tables e)

-- In every state that queueing, expiring timers and their callbacks lead to: where a table waits in
-- the batch of a database, the timers of this batch alone, expiring and running their callbacks, lead
-- to a state in which one more batch was handed to planBatch, for a database of that key and with that
-- table in it.
pub Reach-processed :
    {s : BatchManager}
    → Reach s
    → (k table_key : Text) (b : BatchState) (p : PendingTable) → find k s.batches ≡ some b
    → find table_key b.pending_tables ≡ some p
    → (t : BatchManager) × Fires s t
      × (db : Database) × (tables : List Table) × (key_of db ≡ k)
      × (t.handed ≡ (db, tables) ∷ s.handed)
      × Memᴰ p.table tables
unfolding find pending_of
Reach-processed {s} r k table_key b p is waits = elim ((Reach-IsSound r k b is).0) [
  | inl none_left ↦ absurd (none_not_some (rw none_left at waits))
  | inr (h, db, _, key, inr m) ↦
      let (u, f, handed) =
        process_waiting h db b s (rw key is) m (pending_of_find table_key b p waits) in
      (u, fire here f, db, pending_of b, key, handed, pending_of_find table_key b p waits)
  | inr (h, db, _, key, inl m) ↦
      let s' = with_batch (key_of db) (expire h db b) s in
      let (u, f, handed) =
        process_waiting h db (expire h db b) s' (find-put (key_of db) (expire h db b) s.batches)
          (Memᴰ.head refl) (pending_of_find table_key b p waits) in
      (
        u,
        fire (fire here (expires h db b (rw key is) m)) f,
        db,
        pending_of b,
        key,
        handed,
        pending_of_find table_key b p waits,
      )
]
