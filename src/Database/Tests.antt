-- ===== src/Database/Tests.antt =====
-- The text of a migration at small inputs, the last one with two dollar signs in a value.
use schemahero.Base.{[], ◌∷◌, ◌≡◌, refl}
use schemahero.Base.Text.{lit, is_space, ◌==◌, split, join, trim_space, has_suffix, contains}
use schemahero.Database.Ddl.{get_statements_from_ddl}
use schemahero.Database.Ddl.RoundTrip.{IsLine, get_statements_from_ddl-join}

ddl_tests :
    (get_statements_from_ddl (lit "create table a (b int);\n\n drop table c")
      ≡ lit "create table a (b int);" ∷ lit "drop table c" ∷ [])
    × (get_statements_from_ddl (lit "do $$ begin\n x;\n end $$;\nselect 1;\n")
        ≡ lit "do $$ begin x; end $$;" ∷ lit "select 1;" ∷ [])
    × (get_statements_from_ddl (lit "insert '$1 and $2';\ninsert 3")
        ≡ lit "insert '$1 and $2'; insert 3" ∷ [])
unfolding get_statements_from_ddl lit ◌==◌ split trim_space has_suffix contains
ddl_tests = (refl, refl, refl)

pub drop-IsLine : IsLine (lit "drop a")
unfolding lit ◌==◌ is_space
drop-IsLine = record {
  no_newline = (refl, (refl, (refl, (refl, (refl, (refl, tt))))));
  no_dollar = (refl, (refl, (refl, (refl, (refl, (refl, tt))))));
  first = b'd';
  behind = lit "rop a";
  starts = refl;
  first_plain = refl;
  last = b'a';
  before = lit "drop ";
  ends = refl;
  last_plain = refl;
  no_marker = refl;
}

get_statements_from_ddl-join_example :
    get_statements_from_ddl (join (lit ";\n") (lit "drop a" ∷ lit "drop a" ∷ []))
    ≡ lit "drop a;" ∷ lit "drop a" ∷ []
unfolding lit
get_statements_from_ddl-join_example =
    get_statements_from_ddl-join (lit "drop a" ∷ lit "drop a" ∷ []) (drop-IsLine, (drop-IsLine, tt))
