-- ===== src/Mysql/Deploy/Keys/Exact.antt =====
-- The foreign key plans of two tables: one that has all declared keys, and one that has none.
use mathlib.Core.List.{append-nil}
use schemahero.Base.{true, not, List, [], ◌∷◌, map, ◌≡◌, inl, inr, refl, ap, keep, Bool-cases, All}
use schemahero.Base.Text.{Text}
use schemahero.Schema.Mysql.{MysqlTableForeignKey}
use schemahero.Types.ForeignKeys.{ForeignKey}
use schemahero.Mysql.Constraints.{remove_foreign_key_statement, add_foreign_key_statement}
use schemahero.Mysql.Deploy.Keys.{
  desired_foreign_key_statements, current_foreign_key_statements, foreign_key_statements,
}
use schemahero.Mysql.Deploy.Keys.ForeignKeys.{is_present, is_declared, desired-eq-nil_iff}

dropped_keys :
    (table_name : Text) (desired : List MysqlTableForeignKey) (current : List ForeignKey)
    → current_foreign_key_statements table_name desired current
      ≡ map
          (remove_foreign_key_statement table_name)
          (keep (λ c. not (is_declared desired c)) current)
unfolding current_foreign_key_statements keep
dropped_keys table_name desired [] = refl
dropped_keys table_name desired (c ∷ cs) = elim (Bool-cases (is_declared desired c)) [
  | inl t ↦ rw t (dropped_keys table_name desired cs)
  | inr f ↦
      rw f (
        ap (λ l. remove_foreign_key_statement table_name c ∷ l)
          (dropped_keys table_name desired cs))
]

added_keys :
    (table_name : Text) (desired : List MysqlTableForeignKey)
    → desired_foreign_key_statements table_name [] desired
      ≡ map (add_foreign_key_statement table_name) desired
unfolding desired_foreign_key_statements
added_keys table_name [] = refl
added_keys table_name (d ∷ ds) =
    ap (λ l. add_foreign_key_statement table_name d ∷ l) (added_keys table_name ds)

-- Where each declared foreign key is present, the plan drops the present keys that are not declared,
-- each once and in their order, and does nothing else. Where the table has no foreign key, the plan
-- adds the declared ones in their order and does nothing else.
pub foreign_key_plan_exact :
    (table_name : Text) (desired : List MysqlTableForeignKey) (current : List ForeignKey)
    → (All (λ d. is_present current d ≡ true) desired
        → foreign_key_statements table_name desired current
          ≡ map
              (remove_foreign_key_statement table_name)
              (keep (λ c. not (is_declared desired c)) current))
      × (foreign_key_statements table_name desired []
          ≡ map (add_foreign_key_statement table_name) desired)
unfolding foreign_key_statements current_foreign_key_statements
foreign_key_plan_exact table_name desired current = (
  (λ h.
      rw ((desired-eq-nil_iff table_name current desired).1 h)
        (dropped_keys table_name desired current)),
  rw (added_keys table_name desired) (append-nil _),
)
