-- ===== src/Types/Indexes/Conversions/RoundTrip.antt =====
-- An index of a server, written as a declaration and read again.
use mathlib.Core.Bool.{or-true}
use schemahero.Base.{true, List, [], ◌∷◌, map, ◌≡◌, refl, sym, ap, ◌∙◌}
use schemahero.Base.Text.{Text}
use schemahero.Base.Text.Equality.{eq_refl}
use schemahero.Types.Indexes.{Index, IndexColumn, index_equals}
use schemahero.Types.Indexes.Matching.{
  index_equals_refl, sorted_columns_equal_refl, expressions_equal_refl, bool_eq_refl,
}
use schemahero.Types.Indexes.Conversions.{
  to_schema_column, of_schema_column, columns_or_sorted, index_to_postgresql_schema_index,
  postgresql_schema_index_to_index,
}

sorted_columns_back :
    (sorted : List IndexColumn) → map of_schema_column (map to_schema_column sorted) ≡ sorted
sorted_columns_back [] = refl
sorted_columns_back (c ∷ r) = ap (λ l. c ∷ l) (sorted_columns_back r)

-- What comes back: the same index, with the names of its sorted columns where it has no columns.
postgresql_index_back :
    (i : Index)
    → postgresql_schema_index_to_index (index_to_postgresql_schema_index i)
      ≡ record i { columns = columns_or_sorted i.columns i.sorted_columns }
unfolding postgresql_schema_index_to_index index_to_postgresql_schema_index
postgresql_index_back i = rw (sorted_columns_back i.sorted_columns) refl

-- Other columns make no difference to an index that has sorted columns, nor where they are the same.
columns_kept :
    (cs : List Text) (sorted : List IndexColumn) (i : Index)
    → i.columns ≡ cs
    → i.sorted_columns ≡ sorted
    → index_equals i (record i { columns = columns_or_sorted cs sorted }) ≡ true
unfolding index_equals
columns_kept (c ∷ r) sorted i e e' =
    ap (λ cs. index_equals i (record i { columns = cs })) (sym e) ∙ index_equals_refl i
columns_kept [] [] i e e' =
    ap (λ cs. index_equals i (record i { columns = cs })) (sym e) ∙ index_equals_refl i
columns_kept [] (x ∷ r) i e e' =
    simp (e', eq_refl, bool_eq_refl, sorted_columns_equal_refl, expressions_equal_refl, or-true)
      refl

-- Every index of a PostgreSQL server is equal, as `index_equals` compares, to what comes back when it
-- is written as a declaration and read again.
pub index_equals-postgresql_back :
    (i : Index)
    → index_equals i (postgresql_schema_index_to_index (index_to_postgresql_schema_index i)) ≡ true
index_equals-postgresql_back i =
    rw (postgresql_index_back i) (columns_kept i.columns i.sorted_columns i refl refl)
