-- ===== src/Mysql/Deploy/Keys/Indexes.antt =====
-- The plan for the indexes of a table, its execution by a server, and the plan after that.
use mathlib.Core.List.{Memᴰ}
use mathlib.Core.List.Memᴰ
use schemahero.Base.{
  Bool, true, false, not, List, [], ◌∷◌, ◌++◌, map, ◌≡◌, ◌≢◌, inl, inr, refl, sym, keep, Bool-cases,
  ap, ◌∙◌, if_same, ◌↔◌, append-nil, append_assoc,
}
use schemahero.Base.Text.{Text, ◌==◌, lit, is_empty}
use schemahero.Base.Members.{mem-keep, mem_of_keep, All-of_mem, keep-eq-nil}
use schemahero.Schema.Mysql.{MysqlTableIndex}
use schemahero.Types.Indexes.{Index}
use schemahero.Types.Indexes.Conversions.{mysql_schema_index_to_index}
use schemahero.Types.Names.{generate_mysql_index_name}
use schemahero.Mysql.Constraints.{remove_index_statement, add_index_statement}
use schemahero.Mysql.Deploy.Execute.{
  Executed, done, execute_statements, execute_statements-cons_done,
}
use schemahero.Mysql.Deploy.Keys.{
  name_index, name_indexes, is_desired, is_current, remove_index_statements, add_index_statements,
}
use schemahero.Mysql.Deploy.Keys.Converge.{index_plan_exact}

-- The index that a declaration makes on the server, which gives a name to one without.
abbrev pub shown : Text → MysqlTableIndex → Index
shown table_name d = mysql_schema_index_to_index (name_index table_name d)

-- The indexes of a table have different names. What executing a statement for an index does, where the
-- server accepts it: a drop removes what has the name of the index, and a declared index is added
-- behind the others.
pub record IndexServer (table_name : Text) (declared : List MysqlTableIndex) (current : List Index)
    (exec : Text → List Index → Executed (List Index)) : Type 0 where
  pub distinct : (a b : Index) → Memᴰ a current → Memᴰ b current → (a.name == b.name) ≡ true → a ≡ b
  pub dropped :
      (c : Index) (before after : List Index)
      → Memᴰ c current
      → exec (remove_index_statement table_name c) before ≡ done after
      → after ≡ keep (λ k. not (k.name == c.name)) before
  pub added :
      (d : MysqlTableIndex) (before after : List Index)
      → Memᴰ d declared
      → exec (add_index_statement table_name d) before ≡ done after
      → after ≡ before ++ shown table_name d ∷ []

remove_index-nonempty : (table_name : Text) (c : Index) → remove_index_statement table_name c ≢ []
unfolding remove_index_statement lit
remove_index-nonempty table_name c h = cc

add_index-nonempty :
    (table_name : Text) (d : MysqlTableIndex) → add_index_statement table_name d ≢ []
unfolding add_index_statement lit
add_index-nonempty table_name d h = cc

-- The statement for an index is the same with the name that it is given, as is what the server shows.
add_index-named :
    (table_name : Text) (d : MysqlTableIndex)
    → add_index_statement table_name (name_index table_name d) ≡ add_index_statement table_name d
unfolding add_index_statement name_index generate_mysql_index_name
add_index-named table_name d = elim (Bool-cases (is_empty d.name)) [
  | inl t ↦ rw t (
      rw
        (if_same (is_empty (generate_mysql_index_name table_name d))
          (generate_mysql_index_name table_name d))
        refl)
  | inr f ↦ rw f (rw f refl)
]

name_index_idem :
    (table_name : Text) (d : MysqlTableIndex)
    → name_index table_name (name_index table_name d) ≡ name_index table_name d
unfolding name_index generate_mysql_index_name
name_index_idem table_name d = elim (Bool-cases (is_empty d.name)) [
  | inl t ↦ rw t (
      if_same (is_empty (generate_mysql_index_name table_name d))
        (record d { name = generate_mysql_index_name table_name d }))
  | inr f ↦ rw f (rw f refl)
]

done_inj : {S : Type 0} {s t : S} → Executed.done s ≡ done t → s ≡ t
done_inj h = cc

pub true_not_false : {b : Bool} → b ≡ true → b ≡ false → ⊥
true_not_false t f = cc

not_of_true : {b : Bool} → b ≡ true → not b ≡ false
not_of_true e = rw e refl

pub false_of_not : (b : Bool) → not b ≡ true → b ≡ false
false_of_not true h = cc
false_of_not false h = refl

-- A plan is empty for a table whose indexes are all declared and that has all declared ones.
pub plan-eq-nil :
    (table_name : Text) (desired : List MysqlTableIndex) (current : List Index)
    → ((c : Index) → Memᴰ c current → is_desired desired c ≡ true)
    → ((d : MysqlTableIndex) → Memᴰ d desired → is_current current d ≡ true)
    → (remove_index_statements table_name desired current ≡ [])
      × (add_index_statements table_name current desired ≡ [])
plan-eq-nil table_name desired current declared_all present_all =
    let (removed, added) = index_plan_exact table_name desired current in
    (
      removed
          ∙ ap (map (remove_index_statement table_name)) (
              keep-eq-nil (λ c. not (is_desired desired c)) current
                (All-of_mem _ current (λ c m. not_of_true (declared_all c m)))),
      added
          ∙ ap (map (add_index_statement table_name)) (
              keep-eq-nil (λ d. not (is_current current d)) desired
                (All-of_mem _ desired (λ d m. not_of_true (present_all d m)))),
    )

module _ (table_name : Text) (declared : List MysqlTableIndex) where
  abbrev pub all_named : List MysqlTableIndex
  all_named = map (name_index table_name) declared

  pub named-of_mem :
      (cs : List Index) {c : Index} → Memᴰ c cs → name_indexes table_name cs declared ≡ all_named
  unfolding name_indexes
  named-of_mem [] m = absurd (Memᴰ.not-nil m)
  named-of_mem (x ∷ cs) m = refl

  -- The names are written in the first plan or in the second: what the server shows is the same.
  pub shown-named :
      (cs : List Index) {d : MysqlTableIndex}
      → Memᴰ d (name_indexes table_name cs declared)
      → (g : MysqlTableIndex) × Memᴰ g all_named
        × (shown table_name d ≡ mysql_schema_index_to_index g)
  unfolding name_indexes
  shown-named [] {d} m = (name_index table_name d, Memᴰ.map (name_index table_name) m, refl)
  shown-named (x ∷ cs) {d} m =
      let (d0, from, e) = Memᴰ.of_map (name_index table_name) declared m in
      (d, m, ap mysql_schema_index_to_index (rw (← e) (name_index_idem table_name d0)))

  pub named-shown :
      (cs : List Index) {g : MysqlTableIndex}
      → Memᴰ g all_named
      → (d : MysqlTableIndex) × Memᴰ d (name_indexes table_name cs declared)
        × (shown table_name d ≡ mysql_schema_index_to_index g)
        × ((c : Index) → Memᴰ c cs → d ≡ g)
  unfolding name_indexes
  named-shown [] {g} m =
      let (d0, from, e) = Memᴰ.of_map (name_index table_name) declared m in
      (d0, from, ap mysql_schema_index_to_index e, λ c n. absurd (Memᴰ.not-nil n))
  named-shown (x ∷ cs) {g} m =
      let (d0, from, e) = Memᴰ.of_map (name_index table_name) declared m in
      (g, m, ap mysql_schema_index_to_index (rw (← e) (name_index_idem table_name d0)), λ c n. refl)

module _ (table_name : Text) (declared : List MysqlTableIndex) (current : List Index)
    (exec : Text → List Index → Executed (List Index))
    (server : IndexServer table_name declared current exec) where
  abbrev named : List MysqlTableIndex
  named = name_indexes table_name current declared

  -- A drop for each of some present indexes leaves what has none of their names.
  pub indexes-dropped :
      (cs before after : List Index)
      → ((c : Index) → Memᴰ c cs → Memᴰ c current)
      → execute_statements exec (map (remove_index_statement table_name) cs) before ≡ done after
      → (k : Index)
      → Memᴰ k after ↔ (Memᴰ k before × ((c : Index) → Memᴰ c cs → (k.name == c.name) ≡ false))
  unfolding execute_statements
  indexes-dropped [] before after present h k =
      rw (sym (done_inj h)) (λ m. (m, λ c n. absurd (Memᴰ.not-nil n)), λ (m, f). m)
  indexes-dropped (c ∷ cs) before after present h k =
      let (u, dropped, rest) =
        execute_statements-cons_done exec (remove_index_statement table_name c)
          (map (remove_index_statement table_name) cs) before after
          (remove_index-nonempty table_name c) h in
      let e = server.dropped c before u (present c (Memᴰ.head refl)) dropped in
      let (to, back) = indexes-dropped cs u after (λ d m. present d (Memᴰ.tail m)) rest k in
      (
        λ m.
            let (n, others) = to m in
            let (old, apart) = mem_of_keep (λ i. not (i.name == c.name)) before (rw e at n) in
            (
              old,
              λ d o. elim (Memᴰ.cases_cons o) [
                | inl is ↦ rw is (false_of_not (k.name == c.name) apart)
                | inr later ↦ others d later
              ],
            ),
        λ (old, apart). back (
          rw e (mem-keep (λ i. not (i.name == c.name)) old (rw (apart c (Memᴰ.head refl)) refl)),
          λ d m. apart d (Memᴰ.tail m),
        ),
      )

  abbrev pub IsAdded : MysqlTableIndex → Type 0
  IsAdded d =
      (before after : List Index)
      → exec (add_index_statement table_name d) before ≡ done after
      → after ≡ before ++ shown table_name d ∷ []

  pub named-IsAdded :
      (cs : List Index) (d : MysqlTableIndex)
      → Memᴰ d (name_indexes table_name cs declared)
      → IsAdded d
  unfolding name_indexes
  named-IsAdded [] d m before after h = server.added d before after m h
  named-IsAdded (x ∷ cs) d m before after h =
      let (d0, from, e) = Memᴰ.of_map (name_index table_name) declared m in
      let h' = rw (← e, add_index-named table_name d0) at h in
      server.added d0 before after from h'
      ∙ ap (λ i. before ++ mysql_schema_index_to_index i ∷ [])
          (sym (name_index_idem table_name d0) ∙ ap (name_index table_name) e)

  -- The indexes of a plan are added behind the others.
  pub indexes-added :
      (ds : List MysqlTableIndex) (before after : List Index)
      → ((d : MysqlTableIndex) → Memᴰ d ds → IsAdded d)
      → execute_statements exec (map (add_index_statement table_name) ds) before ≡ done after
      → after ≡ before ++ map (shown table_name) ds
  unfolding execute_statements
  indexes-added [] before after added h = rw (append-nil before) (sym (done_inj h))
  indexes-added (d ∷ ds) before after added h =
      let (u, first, rest) =
        execute_statements-cons_done exec (add_index_statement table_name d)
          (map (add_index_statement table_name) ds) before after (add_index-nonempty table_name d)
          h in
      let e = added d (Memᴰ.head refl) before u first in
      indexes-added ds u after (λ x m. added x (Memᴰ.tail m)) rest
      ∙ rw e (append_assoc before (shown table_name d ∷ []) (map (shown table_name) ds))
