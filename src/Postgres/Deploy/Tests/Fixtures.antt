-- ===== src/Postgres/Deploy/Tests/Fixtures.antt =====
-- A new table with an index that its create statement has apart, and the schemas of an address.
use schemahero.Base.{List, [], ◌∷◌, ◌++◌, none, some, ◌≡◌, ◌↔◌, refl, if◌then◌else◌, any}
use schemahero.Base.Text.{Text, lit, ◌==◌, join, to_lower, trim_space}
use schemahero.Base.Result.{ok}
use schemahero.Schema.Postgresql.{PostgresqlTableSchema}
use schemahero.Postgres.Tests.{digest, pgx, tags_index}
use schemahero.Postgres.Connection.{list_table_indexes, list_table_constraints}
use schemahero.Postgres.Rows.{PostgresConnection}
use schemahero.Postgres.Keys.{build_index_statements}
use schemahero.Postgres.Deploy.{plan_connected, check_if_table_exists}
use schemahero.Postgres.Fixtures.{generate_fixtures, index_plan}
use schemahero.Postgres.Fixtures.Indexes.{generate_fixtures-plan-indexes_iff}
use schemahero.Postgres.Schemas.{connection_schemas}
use schemahero.Postgres.Schemas.Default.{connection_schemas-IsFirst}
use schemahero.Postgres.Deploy.Tests.{server, people}

abbrev empty_server : PostgresConnection
empty_server = record server { table_count = λ s t. ok 0 }

abbrev tagged : PostgresqlTableSchema
tagged = record people { indexes = tags_index ∷ [] }

abbrev tags_statement : Text
tags_statement =
    lit
      "create index by_tags on people using gin (tags) with (fastupdate = off, fillfactor = 70) where tags is not null"

-- What the fixtures hold, and what the plan adds to them
abbrev created_statements : List Text
created_statements =
    lit
      "create table people (id integer not null, primary key (id), constraint adult check ((age >= 18)))"
    ∷ lit "create trigger \"tt\" after insert on people for each row execute procedure f()"
    ∷ []

tags_planned : index_plan digest pgx empty_server (lit "people") tagged ≡ ok (tags_statement ∷ [])
unfolding lit ◌==◌ join any trim_space to_lower check_if_table_exists build_index_statements
    list_table_indexes list_table_constraints
tags_planned = refl

tagged_fixtures :
    generate_fixtures digest pgx (lit "people") (some tagged) none ≡ ok created_statements
unfolding lit ◌==◌ join any trim_space to_lower generate_fixtures
tagged_fixtures = refl

generate_fixtures-plan-indexes_iff_example :
    (plan_connected digest pgx empty_server (lit "people") tagged none
      ≡ ok (created_statements ++ tags_statement ∷ []))
    ↔ ((created : List Text) × (generate_fixtures digest pgx (lit "people") (some tagged) none
          ≡ ok created)
        × (created_statements ++ tags_statement ∷ [] ≡ created ++ tags_statement ∷ []))
unfolding check_if_table_exists
generate_fixtures-plan-indexes_iff_example =
    generate_fixtures-plan-indexes_iff digest pgx empty_server (lit "people") tagged none
      (tags_statement ∷ []) (created_statements ++ tags_statement ∷ []) refl refl tags_planned

abbrev search_path : Text → Text
search_path name = if name == lit "search_path" then lit "hr, public" else []

connection_schemas-IsFirst_example :
    (rest : List Text) × ((connection_schemas (some search_path)).1
      ≡ (connection_schemas (some search_path)).0 ∷ rest)
connection_schemas-IsFirst_example = connection_schemas-IsFirst (some search_path)
