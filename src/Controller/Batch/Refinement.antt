-- ===== src/Controller/Batch/Refinement.antt =====
-- What the queue promises, without timers and without an order: the version of each table that was
-- queued last, until the batch of its database is handed over.
use mathlib.Core.List.{Memᴰ, Permᴰ}
use mathlib.Core.List.Memᴰ
use mathlib.Core.List.Permᴰ
use schemahero.Base.{
  ℕ, Bool, beq, beq_iff, true, false, ◌⊎◌, ◌&&◌, List, [], ◌∷◌, Option, none, some, ◌≡◌, ◌↔◌, inl,
  inr, refl, sym, ap, ◌∙◌, Bool-cases,
}
use schemahero.Base.Text.{Text, ◌==◌}
use schemahero.Base.Text.Equality.{eq_iff}
use schemahero.Base.Text.Number.{ℤ, pos, negsuc}
use schemahero.Base.Maps.{
  find, values, HasDistinctKeys, find-put, find-put_other, mem_of_find, find_of_mem,
}
use schemahero.Schema.Table.{Table}
use schemahero.Schema.Database.{Database}
use schemahero.Controller.Batch.{
  BatchState, BatchManager, PendingTable, key_of, table_key, with_batch, add_pending, found,
  is_batched, queue_table, pending_of, cleared, hand_over,
}
use schemahero.Controller.Batch.Steps.{
  expire, return, Fire, expires, processes, Step, queues, fires, Reach, initial, next,
}
use schemahero.Controller.Batch.Waiting.{IsSound, Reach-IsSound, process_batch-found}
use schemahero.Controller.Batch.Latest.{
  ignores, rests, wants, delivers, queued, event_of, nothing_wanted, step, added, WantedStep,
  WantedReach, table_of, latest, wanted_in,
}

table_of-some :
    (o : Option PendingTable) {t : Table}
    → table_of o ≡ some t
    → (p : PendingTable) × (o ≡ some p) × (p.table ≡ t)
table_of-some none h = cc
table_of-some (some p) h = (p, refl, cc)

mem_of_perm : {A : Type 0} {x : A} {xs ys : List A} → Permᴰ xs ys → Memᴰ x xs → Memᴰ x ys
mem_of_perm Permᴰ.nil m = m
mem_of_perm (Permᴰ.cons e p) m = elim (Memᴰ.cases_cons m) [
  | inl is ↦ Memᴰ.head (is ∙ e)
  | inr later ↦ Memᴰ.tail (mem_of_perm p later)
]
mem_of_perm (Permᴰ.swap e f) m = elim (Memᴰ.cases_cons m) [
  | inl is ↦ Memᴰ.tail (Memᴰ.head (is ∙ e))
  | inr later ↦ elim (Memᴰ.cases_cons later) [
    | inl is ↦ Memᴰ.head (is ∙ f)
    | inr last ↦ Memᴰ.tail (Memᴰ.tail last)
  ]
]
mem_of_perm (Permᴰ.trans p q) m = mem_of_perm q (mem_of_perm p m)

mem-pending_iff :
    (b : BatchState) (t : Table)
    → HasDistinctKeys b.pending_tables
    → Memᴰ t (pending_of b) ↔ ((i : Text) × (latest b i ≡ some t))
unfolding pending_of latest
mem-pending_iff b t d = (
  λ m.
      let (p, stored, is) = Memᴰ.of_map (λ p. p.table) (values b.pending_tables) m in
      let (i, at) = find_of_mem b.pending_tables d stored in (i, rw (at, is) refl),
  λ (i, e).
      let (p, at, is) = table_of-some (find i b.pending_tables) e in
      rw (sym is) (Memᴰ.map (λ p. p.table) (mem_of_find i b.pending_tables at)),
)

wanted-with_batch :
    (k i : Text) (b : BatchState) (s : BatchManager)
    → (wanted_in (with_batch k b s)).wanted k i ≡ latest b i
unfolding wanted_in
wanted-with_batch k i b s = rw (find-put k b s.batches) refl

wanted-with_batch_other :
    (k i j : Text) (b : BatchState) (s : BatchManager)
    → (k == i) ≡ false
    → (wanted_in (with_batch k b s)).wanted i j ≡ (wanted_in s).wanted i j
unfolding wanted_in
wanted-with_batch_other k i j b s f = rw (find-put_other k i b s.batches f) refl

wanted-of_found :
    (k i : Text) (b : BatchState) (s : BatchManager)
    → find k s.batches ≡ some b
    → (wanted_in s).wanted k i ≡ latest b i
unfolding wanted_in
wanted-of_found k i b s is = rw is refl

latest-add_pending :
    (db : Database) (table : Table) (now : ℕ) (b : BatchState)
    → latest (add_pending db table now b) (table_key table.namespace table.name) ≡ some table
unfolding latest add_pending
latest-add_pending db table now b =
    rw (find-put (table_key table.namespace table.name) _ b.pending_tables) refl

latest-add_pending_other :
    (db : Database) (table : Table) (now : ℕ) (b : BatchState) (i : Text)
    → (table_key table.namespace table.name == i) ≡ false
    → latest (add_pending db table now b) i ≡ latest b i
unfolding latest add_pending
latest-add_pending_other db table now b i f =
    rw (find-put_other (table_key table.namespace table.name) i _ b.pending_tables f) refl

latest-cleared : (b : BatchState) (i : Text) → latest (cleared b) i ≡ none
unfolding latest find
latest-cleared b i = refl

handed_of : (s : BatchManager) → s.handed ≡ (wanted_in s).handed
unfolding wanted_in
handed_of s = refl

handed_same :
    (k : Text) (b : BatchState) (s : BatchManager)
    → (wanted_in (with_batch k b s)).handed ≡ (wanted_in s).handed
unfolding wanted_in
handed_same k b s = refl

queue_other :
    (db : Database) (table : Table) (now : ℕ) (s : BatchManager) (k i : Text)
    → ((key_of db == k) && (table_key table.namespace table.name == i)) ≡ false
    → (wanted_in (
          with_batch
            (key_of db)
            (add_pending db table now (found (find (key_of db) s.batches)))
            s)).wanted
        k i
      ≡ (wanted_in s).wanted k i
unfolding wanted_in
queue_other db table now s k i h = elim (Bool-cases (key_of db == k)) [
  | inr f ↦ wanted-with_batch_other (key_of db) k i _ s f
  | inl t ↦
      let same = (eq_iff (key_of db) k).0 t in
      let b = found (find (key_of db) s.batches) in
      rw (sym same) (
        wanted-with_batch (key_of db) i (add_pending db table now b) s
        ∙ latest-add_pending_other db table now b i (rw t at h))
]

true_not_false : {b : Bool} → b ≡ true → b ≡ false → ⊥
true_not_false t f = cc

pos_of_same : {n : ℕ} → Option.some (pos n) ≡ some (pos 0) → n ≡ 0
pos_of_same h = cc

is_batched-window :
    (window : Option ℤ) → is_batched window ≡ true → ¬ ((window ≡ none) ⊎ (window ≡ some (pos 0)))
unfolding is_batched
is_batched-window none h e = absurd (true_not_false h refl)
is_batched-window (some w) h (inl e) = cc
is_batched-window (some (pos n)) h (inr e) = absurd (true_not_false h (rw (pos_of_same e) refl))
is_batched-window (some (negsuc n)) h (inr e) = cc

window-is_batched :
    (window : Option ℤ) → is_batched window ≡ false → (window ≡ none) ⊎ (window ≡ some (pos 0))
unfolding is_batched
window-is_batched none h = inl refl
window-is_batched (some (pos n)) h = elim (Bool-cases (beq n 0)) [
  | inl t ↦ inr (ap (λ n. some (pos n)) ((beq_iff n 0).0 t))
  | inr f ↦ absurd (true_not_false (rw f refl) h)
]
window-is_batched (some (negsuc n)) h = absurd (true_not_false refl h)

queue_table-WantedStep :
    (db : Database) (table : Table) (now : ℕ) (s : BatchManager)
    → WantedStep (wanted_in s) (wanted_in (queue_table db table now s).1) (queued db table)
unfolding queue_table
queue_table-WantedStep db table now s = elim (Bool-cases (is_batched db.spec.batch_window)) [
  | inr f ↦ rw f (ignores (window-is_batched db.spec.batch_window f) (λ k i. refl) refl)
  | inl t ↦
      let b = found (find (key_of db) s.batches) in
      rw t (
        wants (is_batched-window db.spec.batch_window t)
          (wanted-with_batch (key_of db) (table_key table.namespace table.name)
              (add_pending db table now b) s
            ∙ latest-add_pending db table now b)
          (queue_other db table now s) (handed_same (key_of db) (add_pending db table now b) s))
]

wanted-hand_over :
    (db : Database) (tables : List Table) (s : BatchManager) (k i : Text)
    → (wanted_in (hand_over db tables s)).wanted k i ≡ (wanted_in s).wanted k i
unfolding wanted_in
wanted-hand_over db [] s k i = refl
wanted-hand_over db (t ∷ tables) s k i = refl

handed-hand_over :
    (db : Database) (tables : List Table) (s : BatchManager)
    → (wanted_in (hand_over db tables s)).handed ≡ added db tables s.handed
unfolding wanted_in
handed-hand_over db [] s = refl
handed-hand_over db (t ∷ tables) s = refl

-- What is wanted of a database is what waits in its batch.
mem-wanted_iff :
    (k : Text) (b : BatchState) (s : BatchManager) (tables : List Table)
    → IsSound s
    → find k s.batches ≡ some b
    → Permᴰ tables (pending_of b)
    → (t : Table) → Memᴰ t tables ↔ ((i : Text) × ((wanted_in s).wanted k i ≡ some t))
mem-wanted_iff k b s tables sound is p t =
    let (to, back) = mem-pending_iff b t (sound k b is).1 in
    (
      λ m. let (i, e) = to (mem_of_perm p m) in (i, wanted-of_found k i b s is ∙ e),
      λ (i, e). mem_of_perm (Permᴰ.symm p) (back (i, sym (wanted-of_found k i b s is) ∙ e)),
    )

expires-WantedStep :
    (h : ℕ) (db : Database) (b : BatchState) (s : BatchManager)
    → find (key_of db) s.batches ≡ some b
    → (k i : Text)
    → (wanted_in (with_batch (key_of db) (expire h db b) s)).wanted k i ≡ (wanted_in s).wanted k i
unfolding latest
expires-WantedStep h db b s is k i = elim (Bool-cases (key_of db == k)) [
  | inr f ↦ wanted-with_batch_other (key_of db) k i (expire h db b) s f
  | inl t ↦ rw (sym ((eq_iff (key_of db) k).0 t)) (
      wanted-with_batch (key_of db) i (expire h db b) s
      ∙ sym (wanted-of_found (key_of db) i b s is))
]

Fire-WantedStep :
    {s t : BatchManager}
    → IsSound s
    → (f : Fire s t) → WantedStep (wanted_in s) (wanted_in t) (event_of (fires f))
Fire-WantedStep {s} sound (expires h db b is m) =
    rests (expires-WantedStep h db b s is) (handed_same (key_of db) (expire h db b) s)
Fire-WantedStep {s} sound (processes h db b tables is m p) =
    let returned = with_batch (key_of db) (return h b) s in
    let after = with_batch (key_of db) (cleared (return h b)) returned in
    rw (process_batch-found h db b tables s) (
      delivers (mem-wanted_iff (key_of db) b s tables sound is p)
        (λ i.
          wanted-hand_over db tables after (key_of db) i
          ∙ wanted-with_batch (key_of db) i (cleared (return h b)) returned
          ∙ latest-cleared (return h b) i)
        (λ k i f.
          wanted-hand_over db tables after k i
          ∙ wanted-with_batch_other (key_of db) k i (cleared (return h b)) returned f
          ∙ wanted-with_batch_other (key_of db) k i (return h b) s f)
        (handed-hand_over db tables after ∙ ap (added db tables) (handed_of s)))

-- Each step of the batches makes of what they stand for what its event says. A table that is queued
-- becomes the wanted version of its key where the database has a batch window, other than zero, and
-- changes nothing where it has none. A timer that expires changes nothing. A batch that is handed over
-- has exactly the wanted tables of its database, in some order, and none is wanted then. What is wanted
-- of other tables stays as it is.
pub Step-WantedStep :
    {s t : BatchManager}
    → Reach s
    → (st : Step s t) → WantedStep (wanted_in s) (wanted_in t) (event_of st)
Step-WantedStep {s} r (queues db table now) = queue_table-WantedStep db table now s
Step-WantedStep r (fires f) = Fire-WantedStep (Reach-IsSound r) f

-- So every state of the batches stands for one that the steps of what is wanted lead to.
Reach-WantedReach : {s : BatchManager} → Reach s → WantedReach (wanted_in s)
unfolding wanted_in latest find
Reach-WantedReach initial = nothing_wanted
Reach-WantedReach (next r st) = step (event_of st) (Reach-WantedReach r) (Step-WantedStep r st)
