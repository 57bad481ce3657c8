-- ===== src/Mysql/Fixtures.antt =====
-- GenerateFixtures of plugins/mysql/lib/connection.go: the statements that create a table, without a
-- connection.
use mathlib.Core.List.{append-nil}
use schemahero.Base.{Bool, true, false, List, [], ◌++◌, Option, none, some, ◌≡◌, ◌↔◌, if◌then◌else◌}
use schemahero.Base.Text.{Text, lit}
use schemahero.Base.Result.{Result, ok, err, wrap, ◌>>=◌}
use schemahero.Schema.Mysql.{MysqlTableSchema}
use schemahero.Schema.SeedData.{SeedData}
use schemahero.Mysql.Connection.{MysqlConnection}
use schemahero.Mysql.Create.{seed_data_statements, create_table_statements}
use schemahero.Mysql.Deploy.{seed_statements, plan_connected}

abbrev with_seed : Text → Option SeedData → List Text → Result (List Text)
with_seed name none statements = ok statements
with_seed name (some seed) statements = do
  seeded ← wrap (lit "failed to create seed data statements") (seed_data_statements name seed)
  ok (statements ++ seeded)

-- GenerateFixtures, of a table whose schema for MySQL may be missing
unfoldable pub generate_fixtures :
    Text → Option MysqlTableSchema → Option SeedData → Result (List Text)
generate_fixtures name none seed = ok []
generate_fixtures name (some schema) seed = if schema.is_deleted then ok [] else do
  statements ← wrap (lit "failed to create table statements") (create_table_statements name schema)
  with_seed name seed statements

-- Two runs with other messages and another order succeed alike.
swapped :
    (r q : Result (List Text)) (a b c d : Text) (t : List Text)
    → ((do s ← wrap a r; u ← wrap b q; ok (s ++ u)) ≡ ok t)
      ↔ ((do u ← wrap c q; s ← wrap d r; ok (s ++ u)) ≡ ok t)
swapped (ok s) (ok u) a b c d t = (λ h. h, λ h. h)
swapped (ok s) (err e) a b c d t = (λ h. cc, λ h. cc)
swapped (err e) (ok u) a b c d t = (λ h. cc, λ h. cc)
swapped (err e) (err e') a b c d t = (λ h. cc, λ h. cc)

alone :
    (r : Result (List Text)) (a d : Text) (t : List Text)
    → ((do s ← wrap a r; ok s) ≡ ok t) ↔ ((do s ← wrap d r; ok (s ++ [])) ≡ ok t)
alone (ok s) a d t = rw (append-nil s) (λ h. h, λ h. h)
alone (err e) a d t = (λ h. cc, λ h. cc)

if_iff :
    (b : Bool) (x y z : Result (List Text)) (t : List Text)
    → ((y ≡ ok t) ↔ (z ≡ ok t))
    → ((if b then x else y) ≡ ok t) ↔ ((if b then x else z) ≡ ok t)
if_iff true x y z t h = (λ k. k, λ k. k)
if_iff false x y z t h = h

-- For a table that the database lacks and a declaration with or without seed data, the fixtures are
-- generated successfully exactly if the plan is, and then they are the same statements.
pub generate_fixtures-plan_iff :
    (m : MysqlConnection) (name : Text) (schema : MysqlTableSchema) (seed : Option SeedData)
    (statements : List Text)
    → (generate_fixtures name (some schema) seed ≡ ok statements)
      ↔ (plan_connected m name schema seed 0 ≡ ok statements)
unfolding generate_fixtures plan_connected seed_statements
generate_fixtures-plan_iff m name schema none statements =
    if_iff schema.is_deleted (ok []) _ _ statements
      (alone (create_table_statements name schema) _ _ statements)
generate_fixtures-plan_iff m name schema (some seed) statements =
    if_iff schema.is_deleted (ok []) _ _ statements (
      swapped (create_table_statements name schema) (seed_data_statements name seed) _ _ _ _
        statements)
