-- ===== src/Mysql/Deploy/Tests/Servers.antt =====
-- Servers that execute the plans for the indexes and for the primary key of a small table.
use mathlib.Core.List.{Memᴰ}
use mathlib.Core.List.Memᴰ
use schemahero.Base.{
  true, not, List, [], ◌∷◌, ◌++◌, Option, none, some, ◌≡◌, ◌∙◌, refl, sym, keep, inl, inr, any,
  if◌then◌else◌,
}
use schemahero.Base.Text.{Text, lit, ◌==◌, join}
use schemahero.Types.Keys.{KeyConstraint, key_equals}
use schemahero.Types.Indexes.{Index, index_equals}
use schemahero.Types.Indexes.Conversions.{mysql_schema_index_to_index}
use schemahero.Types.Names.{generate_mysql_index_name}
use schemahero.Mysql.AlterStatements.{remove_constraint_statement, add_constraint_statement}
use schemahero.Mysql.Constraints.{remove_index_statement, add_index_statement}
use schemahero.Mysql.Deploy.Execute.{Executed, done, execute_statements}
use schemahero.Mysql.Deploy.Keys.{
  name_indexes, is_desired, is_current, desired_primary_key, remove_index_statements,
  add_index_statements, remove_primary_key_statements, add_primary_key_statements,
}
use schemahero.Mysql.Deploy.Keys.Converge.{KeyServer, primary_key_plan_converges}
use schemahero.Mysql.Deploy.Keys.Indexes.{IndexServer, shown}
use schemahero.Mysql.Deploy.Keys.Replanned.{index_plan_converges}
use schemahero.Mysql.Deploy.Tests.{team_index}
use schemahero.Mysql.Deploy.Tests.Keys.{old_index}

-- The server drops the index that is not declared and adds the declared one.
abbrev execute_index : Text → List Index → Executed (List Index)
execute_index statement indexes =
    if statement == remove_index_statement (lit "users") old_index
    then done (keep (λ k. not (k.name == old_index.name)) indexes)
    else done (indexes ++ shown (lit "users") team_index ∷ [])

done_inj : {S : Type 0} {s t : S} → Executed.done s ≡ done t → s ≡ t
done_inj h = cc

only_member : {A : Type 0} {x y : A} → Memᴰ x (y ∷ []) → x ≡ y
only_member m = elim (Memᴰ.cases_cons m) [ inl e ↦ e | inr n ↦ absurd (Memᴰ.not-nil n) ]

old_index_dropped :
    (before after : List Index)
    → execute_index (remove_index_statement (lit "users") old_index) before ≡ done after
    → after ≡ keep (λ k. not (k.name == old_index.name)) before
unfolding lit ◌==◌ remove_index_statement
old_index_dropped before after h = sym (done_inj h)

team_index_added :
    (before after : List Index)
    → execute_index (add_index_statement (lit "users") team_index) before ≡ done after
    → after ≡ before ++ shown (lit "users") team_index ∷ []
unfolding lit ◌==◌ remove_index_statement add_index_statement
team_index_added before after h = sym (done_inj h)

index_server : IndexServer (lit "users") (team_index ∷ []) (old_index ∷ []) execute_index
index_server = record {
  distinct = λ a b m n h. only_member m ∙ sym (only_member n);
  dropped = λ c before after m h.
      let is = only_member m in rw is (old_index_dropped before after (rw is at h));
  added = λ d before after m h.
      let is = only_member m in rw is (team_index_added before after (rw is at h));
}

index_plan_converges_example :
    (remove_index_statements
        (lit "users")
        (name_indexes (lit "users") (shown (lit "users") team_index ∷ []) (team_index ∷ []))
        (shown (lit "users") team_index ∷ [])
      ≡ [])
    × (add_index_statements
          (lit "users")
          (shown (lit "users") team_index ∷ [])
          (name_indexes (lit "users") (shown (lit "users") team_index ∷ []) (team_index ∷ []))
        ≡ [])
unfolding lit ◌==◌ join mysql_schema_index_to_index generate_mysql_index_name any is_desired
    is_current index_equals remove_index_statement add_index_statement name_indexes
    execute_statements remove_index_statements add_index_statements keep
index_plan_converges_example =
    index_plan_converges (lit "users") (team_index ∷ []) (old_index ∷ [])
      (shown (lit "users") team_index ∷ []) execute_index index_server refl

abbrev old_primary : KeyConstraint
old_primary = record { name = lit "PRIMARY"; columns = lit "old" ∷ []; is_primary = true }

abbrev new_primary : KeyConstraint
new_primary = record { name = lit "PRIMARY"; columns = lit "id" ∷ []; is_primary = true }

abbrev execute_key : Text → Option KeyConstraint → Executed (Option KeyConstraint)
execute_key statement key =
    if statement == remove_constraint_statement (lit "users") old_primary
    then done none
    else done (some new_primary)

old_primary_dropped :
    (after : Option KeyConstraint)
    → execute_key (remove_constraint_statement (lit "users") old_primary) (some old_primary)
      ≡ done after
    → after ≡ none
unfolding lit ◌==◌ remove_constraint_statement
old_primary_dropped after h = sym (done_inj h)

abbrev unnamed_primary : KeyConstraint
unnamed_primary = record { name = []; columns = lit "id" ∷ []; is_primary = true }

unnamed_primary_added :
    (after : Option KeyConstraint)
    → execute_key (add_constraint_statement (lit "users") unnamed_primary) none ≡ done after
    → after ≡ some (record unnamed_primary { name = lit "PRIMARY" })
unfolding lit ◌==◌ join remove_constraint_statement add_constraint_statement
unnamed_primary_added after h = sym (done_inj h)

desired_primary_key-id : desired_primary_key (lit "id" ∷ []) ≡ some unnamed_primary
unfolding desired_primary_key
desired_primary_key-id = refl

some_inj : {A : Type 0} {x y : A} → some x ≡ some y → x ≡ y
some_inj h = cc

new_primary_added :
    (k : KeyConstraint) (after : Option KeyConstraint)
    → desired_primary_key (lit "id" ∷ []) ≡ some k
    → execute_key (add_constraint_statement (lit "users") k) none ≡ done after
    → after ≡ some (record k { name = lit "PRIMARY" })
new_primary_added k after is h =
    let e = some_inj (sym desired_primary_key-id ∙ is) in
    rw (← e) (unnamed_primary_added after (rw (← e) at h))

key_server : KeyServer (lit "users") (lit "id" ∷ []) (some old_primary) execute_key
key_server = record {
  dropped = λ k after is h. old_primary_dropped after (rw (← some_inj is) at h);
  added = new_primary_added;
}

primary_key_plan_converges_example :
    (remove_primary_key_statements (lit "users") (lit "id" ∷ []) (some new_primary) ≡ [])
    × (add_primary_key_statements (lit "users") (lit "id" ∷ []) (some new_primary) ≡ [])
unfolding lit ◌==◌ remove_constraint_statement add_constraint_statement join desired_primary_key
    key_equals remove_primary_key_statements add_primary_key_statements execute_statements
primary_key_plan_converges_example =
    primary_key_plan_converges (lit "users") (lit "id" ∷ []) (some old_primary) (some new_primary)
      execute_key key_server refl
