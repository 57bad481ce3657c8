-- ===== src/Mysql/Deploy/Keys/Converge.antt =====
-- The plans for indexes and for the primary key, and a second plan after the first one is applied.
use schemahero.Base.{
  true, not, List, [], ◌∷◌, ◌++◌, map, Option, none, some, ◌≡◌, ◌≢◌, inl, inr, refl, keep,
  Bool-cases, ap, sym, ◌∙◌,
}
use schemahero.Base.Text.{Text, lit, join}
use schemahero.Schema.Mysql.{MysqlTableIndex}
use schemahero.Mysql.Deploy.Execute.{
  Executed, done, execute_statements, execute_statements-append_done, execute_statements-cons_done,
}
use schemahero.Types.Keys.{KeyConstraint, key_equals, key_equals_iff, shape}
use schemahero.Types.Indexes.{Index}
use schemahero.Mysql.AlterStatements.{remove_constraint_statement, add_constraint_statement}
use schemahero.Mysql.Constraints.{remove_index_statement, add_index_statement}
use schemahero.Mysql.Deploy.Keys.{
  is_desired, is_current, remove_index_statements, add_index_statements, desired_primary_key,
  remove_primary_key_statements, add_primary_key_statements, statement_of,
}

module _ (table_name : Text) where
  removed_indexes :
      (desired : List MysqlTableIndex) (cs : List Index)
      → remove_index_statements table_name desired cs
        ≡ map (remove_index_statement table_name) (keep (λ c. not (is_desired desired c)) cs)
  unfolding remove_index_statements keep
  removed_indexes desired [] = refl
  removed_indexes desired (c ∷ cs) = elim (Bool-cases (is_desired desired c)) [
    | inl t ↦ rw t (removed_indexes desired cs)
    | inr f ↦ rw f (ap (◌∷◌ (remove_index_statement table_name c)) (removed_indexes desired cs))
  ]

  added_indexes :
      (current : List Index) (ds : List MysqlTableIndex)
      → add_index_statements table_name current ds
        ≡ map (add_index_statement table_name) (keep (λ d. not (is_current current d)) ds)
  unfolding add_index_statements keep
  added_indexes current [] = refl
  added_indexes current (d ∷ ds) = elim (Bool-cases (is_current current d)) [
    | inl t ↦ rw t (added_indexes current ds)
    | inr f ↦ rw f (ap (◌∷◌ (add_index_statement table_name d)) (added_indexes current ds))
  ]

-- The plan drops the present indexes to which no declared one is equal and adds the declared ones to
-- which no present one is equal, each once and in their order.
pub index_plan_exact :
    (table_name : Text) (desired : List MysqlTableIndex) (current : List Index)
    → (remove_index_statements table_name desired current
        ≡ map (remove_index_statement table_name) (keep (λ c. not (is_desired desired c)) current))
      × (add_index_statements table_name current desired
          ≡ map (add_index_statement table_name) (keep (λ d. not (is_current current d)) desired))
index_plan_exact table_name desired current =
    (removed_indexes table_name desired current, added_indexes table_name current desired)

-- A primary key plan drops the present key and adds the declared one, each where there is one, if the
-- two differ in their ordered columns; it is empty if they do not.
pub primary_key_plan_exact :
    (table_name : Text) (primary_key : List Text) (current : Option KeyConstraint)
    → ((shape (desired_primary_key primary_key) ≡ shape current)
        → (remove_primary_key_statements table_name primary_key current ≡ [])
          × (add_primary_key_statements table_name primary_key current ≡ []))
      × ((shape (desired_primary_key primary_key) ≢ shape current)
          → (remove_primary_key_statements table_name primary_key current
              ≡ statement_of (remove_constraint_statement table_name) current)
            × (add_primary_key_statements table_name primary_key current
                ≡ statement_of
                    (add_constraint_statement table_name)
                    (desired_primary_key primary_key)))
unfolding remove_primary_key_statements add_primary_key_statements
primary_key_plan_exact table_name primary_key current =
    let same = key_equals_iff (desired_primary_key primary_key) current in
    (
      (λ e. let t = same.1 e in (rw t refl, rw t refl)),
      λ ne. elim (Bool-cases (key_equals (desired_primary_key primary_key) current)) [
        | inl t ↦ absurd (ne (same.0 t))
        | inr f ↦ (rw f refl, rw f refl)
      ],
    )

-- What executing a statement for a primary key does, where the server accepts it: a drop leaves none, and
-- the declared key is added as MySQL shows each primary key, under the name PRIMARY.
pub record KeyServer (table_name : Text) (primary_key : List Text) (current : Option KeyConstraint)
    (exec : Text → Option KeyConstraint → Executed (Option KeyConstraint)) : Type 0 where
  pub dropped :
      (k : KeyConstraint) (after : Option KeyConstraint)
      → current ≡ some k
      → exec (remove_constraint_statement table_name k) current ≡ done after
      → after ≡ none
  pub added :
      (k : KeyConstraint) (after : Option KeyConstraint)
      → desired_primary_key primary_key ≡ some k
      → exec (add_constraint_statement table_name k) none ≡ done after
      → after ≡ some (record k { name = lit "PRIMARY" })

remove_constraint-nonempty :
    (table_name : Text) (k : KeyConstraint) → remove_constraint_statement table_name k ≢ []
unfolding remove_constraint_statement lit
remove_constraint-nonempty table_name k = elim (Bool-cases k.is_primary) [
  | inl t ↦ rw t (λ h. cc)
  | inr f ↦ rw f (λ h. cc)
]

add_constraint-nonempty :
    (table_name : Text) (k : KeyConstraint) → add_constraint_statement table_name k ≢ []
unfolding add_constraint_statement lit join
add_constraint-nonempty table_name k = elim (Bool-cases k.is_primary) [
  | inl t ↦ rw t (λ h. cc)
  | inr f ↦ rw f (λ h. cc)
]

done_inj : {S : Type 0} {s t : S} → Executed.done s ≡ done t → s ≡ t
done_inj h = cc

module _ (table_name : Text) (primary_key : List Text) (current : Option KeyConstraint)
    (exec : Text → Option KeyConstraint → Executed (Option KeyConstraint))
    (server : KeyServer table_name primary_key current exec) where
  key-dropped :
      (o after : Option KeyConstraint)
      → current ≡ o
      → execute_statements exec (statement_of (remove_constraint_statement table_name) o) o
        ≡ done after
      → after ≡ none
  unfolding execute_statements
  key-dropped none after is h = sym (done_inj h)
  key-dropped (some k) after is h =
      let (u, dropped, ended) =
        execute_statements-cons_done exec (remove_constraint_statement table_name k) [] (some k)
          after (remove_constraint-nonempty table_name k) h in
      sym (done_inj ended) ∙ server.dropped k u is (rw is dropped)

  key-added :
      (o after : Option KeyConstraint)
      → desired_primary_key primary_key ≡ o
      → execute_statements exec (statement_of (add_constraint_statement table_name) o) none
        ≡ done after
      → shape o ≡ shape after
  unfolding execute_statements
  key-added none after is h = ap shape (done_inj h)
  key-added (some k) after is h =
      let (u, added, ended) =
        execute_statements-cons_done exec (add_constraint_statement table_name k) [] none after
          (add_constraint-nonempty table_name k) h in
      rw (sym (done_inj ended), server.added k u is added) refl

  key-executed :
      (after : Option KeyConstraint)
      → execute_statements exec
          (remove_primary_key_statements table_name primary_key current
            ++ add_primary_key_statements table_name primary_key current)
          current
        ≡ done after
      → key_equals (desired_primary_key primary_key) after ≡ true
  unfolding remove_primary_key_statements add_primary_key_statements execute_statements
  key-executed after h = elim (Bool-cases (key_equals (desired_primary_key primary_key) current)) [
    | inl t ↦ rw (sym (done_inj (rw t at h))) t
    | inr f ↦
        let (u, dropped, added) =
          execute_statements-append_done exec
            (statement_of (remove_constraint_statement table_name) current)
            (statement_of (add_constraint_statement table_name) (desired_primary_key primary_key))
            current after (rw f at h) in
        let none_left = key-dropped current u refl dropped in
        (key_equals_iff (desired_primary_key primary_key) after).1
          (key-added (desired_primary_key primary_key) after refl (rw none_left at added))
  ]

-- Where the server executes the drop and the addition of a primary key as `KeyServer` says, and all
-- statements of a primary key plan are executed from the key that the table has, the same plan for the
-- key that this leaves is empty.
pub primary_key_plan_converges :
    (table_name : Text) (primary_key : List Text) (current after : Option KeyConstraint)
    (exec : Text → Option KeyConstraint → Executed (Option KeyConstraint))
    → KeyServer table_name primary_key current exec
    → execute_statements exec
        (remove_primary_key_statements table_name primary_key current
          ++ add_primary_key_statements table_name primary_key current)
        current
      ≡ done after
    → (remove_primary_key_statements table_name primary_key after ≡ [])
      × (add_primary_key_statements table_name primary_key after ≡ [])
unfolding remove_primary_key_statements add_primary_key_statements
primary_key_plan_converges table_name primary_key current after exec server h =
    let e = key-executed table_name primary_key current exec server after h in
    (rw e refl, rw e refl)
