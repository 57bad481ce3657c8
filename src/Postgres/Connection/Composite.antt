-- ===== src/Postgres/Connection/Composite.antt =====
-- Foreign keys of several columns.
use schemahero.Base.{[], ◌∷◌, ◌≡◌, refl}
use schemahero.Base.Text.{Text}
use schemahero.Base.Text.Equality.{eq_refl}
use schemahero.Postgres.Connection.{in_public, foreign_keys_of_rows}

-- A key of two columns is read as one with the second column twice, in the table and in its parent:
-- the rows of the columns are read in their order, under one name.
pub composite_key_lost :
    (name parent_schema parent_table delete_rule a b x y : Text)
    → foreign_keys_of_rows [] (
        record {
          child_column = a;
          parent_table = parent_table;
          parent_column = x;
          delete_rule = delete_rule;
          name = name;
          parent_schema = parent_schema;
        }
        ∷ record {
          child_column = b;
          parent_table = parent_table;
          parent_column = y;
          delete_rule = delete_rule;
          name = name;
          parent_schema = parent_schema;
        }
        ∷ [])
      ≡ record {
        child_columns = b ∷ b ∷ [];
        parent_table = in_public parent_schema parent_table;
        parent_columns = y ∷ y ∷ [];
        name = name;
        on_delete = delete_rule;
      }
        ∷ []
unfolding foreign_keys_of_rows
composite_key_lost name parent_schema parent_table delete_rule a b x y = rw (eq_refl name) refl
