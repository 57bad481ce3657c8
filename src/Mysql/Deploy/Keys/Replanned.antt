-- ===== src/Mysql/Deploy/Keys/Replanned.antt =====
-- Planning the indexes of a table again once the plan was executed.
use mathlib.Core.List.{Memᴰ}
use mathlib.Core.List.Memᴰ
use schemahero.Base.{
  true, false, not, any, List, [], ◌∷◌, ◌++◌, map, ◌≡◌, ◌↔◌, inl, inr, refl, sym, keep, Bool-cases,
  ◌∙◌,
}
use schemahero.Base.Text.{Text, ◌==◌}
use schemahero.Base.Text.Equality.{eq_refl}
use schemahero.Base.Members.{any-of_mem, mem_of_any, mem-keep, mem_of_keep}
use schemahero.Schema.Mysql.{MysqlTableIndex}
use schemahero.Types.Indexes.{Index, index_equals}
use schemahero.Types.Indexes.Conversions.{mysql_schema_index_to_index}
use schemahero.Types.Indexes.Matching.{index_equals_refl}
use schemahero.Mysql.Constraints.{remove_index_statement, add_index_statement}
use schemahero.Mysql.Deploy.Execute.{
  Executed, done, execute_statements, execute_statements-append_done,
}
use schemahero.Mysql.Deploy.Keys.{
  name_indexes, is_desired, is_current, remove_index_statements, add_index_statements,
}
use schemahero.Mysql.Deploy.Keys.Converge.{index_plan_exact}
use schemahero.Mysql.Deploy.Keys.Indexes.{
  IndexServer, shown, true_not_false, false_of_not, plan-eq-nil, all_named, named-of_mem,
  shown-named, named-shown, IsAdded, indexes-dropped, named-IsAdded, indexes-added,
}

is_desired-of_mem :
    (desired : List MysqlTableIndex) {d : MysqlTableIndex} (c : Index)
    → Memᴰ d desired
    → index_equals c (mysql_schema_index_to_index d) ≡ true
    → is_desired desired c ≡ true
unfolding is_desired
is_desired-of_mem desired c m h =
    any-of_mem (λ d. index_equals c (mysql_schema_index_to_index d)) m h

is_current-of_mem :
    {current : List Index} (d : MysqlTableIndex) {c : Index}
    → Memᴰ c current
    → index_equals c (mysql_schema_index_to_index d) ≡ true
    → is_current current d ≡ true
unfolding is_current
is_current-of_mem d m h = any-of_mem (λ c. index_equals c (mysql_schema_index_to_index d)) m h

mem_of_is_current :
    {current : List Index} (d : MysqlTableIndex)
    → is_current current d ≡ true
    → (c : Index) × Memᴰ c current × (index_equals c (mysql_schema_index_to_index d) ≡ true)
unfolding is_current
mem_of_is_current {current} d h =
    mem_of_any (λ c. index_equals c (mysql_schema_index_to_index d)) current h

module _ (table_name : Text) (declared : List MysqlTableIndex) (current after : List Index)
    (exec : Text → List Index → Executed (List Index))
    (server : IndexServer table_name declared current exec)
    (ran : execute_statements exec
        (remove_index_statements table_name (name_indexes table_name current declared) current
          ++ add_index_statements table_name current (name_indexes table_name current declared))
        current
      ≡ done after) where
  abbrev desired : List MysqlTableIndex
  desired = name_indexes table_name current declared

  abbrev stale : List Index
  stale = keep (λ c. not (is_desired desired c)) current

  abbrev missing : List MysqlTableIndex
  missing = keep (λ d. not (is_current current d)) desired

  missing-IsAdded :
      (d : MysqlTableIndex) → Memᴰ d missing → IsAdded table_name declared current exec server d
  missing-IsAdded d m =
      named-IsAdded table_name declared current exec server current d
        (mem_of_keep (λ d. not (is_current current d)) desired m).0

  -- The table between the drops and the additions, and behind them.
  runs :
      (mid : List Index) × (execute_statements exec
          (map (remove_index_statement table_name) stale)
          current
        ≡ done mid)
      × (after ≡ mid ++ map (shown table_name) missing)
  runs =
      let (removes, adds) = index_plan_exact table_name desired current in
      let (mid, dropped, added) =
        execute_statements-append_done exec (map (remove_index_statement table_name) stale)
          (map (add_index_statement table_name) missing) current after
          (rw (removes, adds) at ran) in
      (
        mid,
        dropped,
        indexes-added table_name declared current exec server missing mid after missing-IsAdded
            added,
      )

  different :
      (k c : Index)
      → Memᴰ k current
      → is_desired desired k ≡ true
      → Memᴰ c stale
      → (k.name == c.name) ≡ false
  different k c m wanted old = elim (Bool-cases (k.name == c.name)) [
    | inr f ↦ f
    | inl t ↦
        let (there, unwanted) = mem_of_keep (λ c. not (is_desired desired c)) current old in
        let same = server.distinct k c m there t in
        absurd (true_not_false (rw same at wanted) (false_of_not (is_desired desired c) unwanted))
  ]

  -- The drops leave the indexes that are declared.
  kept :
      (mid : List Index)
      → execute_statements exec (map (remove_index_statement table_name) stale) current ≡ done mid
      → (k : Index) → Memᴰ k mid ↔ (Memᴰ k current × (is_desired desired k ≡ true))
  kept mid dropped k =
      let (to, back) =
        indexes-dropped table_name declared current exec server stale current mid
          (λ c m. (mem_of_keep (λ c. not (is_desired desired c)) current m).0) dropped k in
      (
        λ m.
            let (there, apart) = to m in
            (
              there,
              elim (Bool-cases (is_desired desired k)) [
                | inl t ↦ t
                | inr f ↦
                    let old = mem-keep (λ c. not (is_desired desired c)) there (rw f refl) in
                    absurd (true_not_false (eq_refl k.name) (apart k old))
              ],
            ),
        λ (there, wanted). back (there, λ c m. different k c there wanted m),
      )

  after-is_desired :
      (k : Index) → Memᴰ k after → is_desired (all_named table_name declared) k ≡ true
  after-is_desired k m =
      let (mid, dropped, e) = runs in
      elim (Memᴰ.append_cases mid (rw e at m)) [
        | inl old ↦
            let (there, wanted) = (kept mid dropped k).0 old in
            rw (sym (named-of_mem table_name declared current there)) wanted
        | inr new ↦
            let (d, from, is) = Memᴰ.of_map (shown table_name) missing new in
            let (g, listed, same) =
              shown-named table_name declared current
                (mem_of_keep (λ d. not (is_current current d)) desired from).0 in
            is_desired-of_mem (all_named table_name declared) k listed
              (rw (sym (sym same ∙ is)) (index_equals_refl (mysql_schema_index_to_index g)))
      ]

  after-is_current :
      (g : MysqlTableIndex) → Memᴰ g (all_named table_name declared) → is_current after g ≡ true
  after-is_current g m =
      let (mid, dropped, e) = runs in
      let (d, listed, same, written) = named-shown table_name declared current m in
      elim (Bool-cases (is_current current d)) [
        | inl old ↦
            let (c, there, like) = mem_of_is_current d old in
            let wanted = is_desired-of_mem desired c listed like in
            let stays =
              Memᴰ.append_left (map (shown table_name) missing)
                ((kept mid dropped c).1 (there, wanted)) in
            is_current-of_mem g {c = c} (rw e stays) (rw (written c there) at like)
        | inr new ↦
            let lacked = mem-keep (λ d. not (is_current current d)) listed (rw new refl) in
            let made = Memᴰ.append_right mid (Memᴰ.map (shown table_name) lacked) in
            is_current-of_mem g {c = shown table_name d} (rw e made)
              (rw same (index_equals_refl (mysql_schema_index_to_index g)))
      ]

again_empty :
    (table_name : Text) (declared : List MysqlTableIndex) (after : List Index)
    → ((c : Index) → Memᴰ c after → is_desired (all_named table_name declared) c ≡ true)
    → ((d : MysqlTableIndex) → Memᴰ d (all_named table_name declared) → is_current after d ≡ true)
    → (remove_index_statements table_name (name_indexes table_name after declared) after ≡ [])
      × (add_index_statements table_name after (name_indexes table_name after declared) ≡ [])
unfolding name_indexes is_current any
again_empty table_name [] [] wanted present = plan-eq-nil table_name [] [] wanted present
again_empty table_name (d ∷ ds) [] wanted present =
    absurd (true_not_false (present _ (Memᴰ.head refl)) refl)
again_empty table_name declared (c ∷ cs) wanted present =
    plan-eq-nil table_name (all_named table_name declared) (c ∷ cs) wanted present

-- Where the server executes drops and additions of indexes as `IndexServer` says, and all statements of
-- an index plan are executed from the indexes that the table has, the plan for the same declaration and
-- the indexes that this leaves is empty. Both plans write the generated names into the declaration as
-- the code does.
pub index_plan_converges :
    (table_name : Text) (declared : List MysqlTableIndex) (current after : List Index)
    (exec : Text → List Index → Executed (List Index))
    → IndexServer table_name declared current exec
    → execute_statements exec
        (remove_index_statements table_name (name_indexes table_name current declared) current
          ++ add_index_statements table_name current (name_indexes table_name current declared))
        current
      ≡ done after
    → (remove_index_statements table_name (name_indexes table_name after declared) after ≡ [])
      × (add_index_statements table_name after (name_indexes table_name after declared) ≡ [])
index_plan_converges table_name declared current after exec server ran =
    again_empty table_name declared after
      (after-is_desired table_name declared current after exec server ran)
      (after-is_current table_name declared current after exec server ran)
