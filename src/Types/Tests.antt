-- ===== src/Types/Tests.antt =====
-- The theorems on names, keys, indexes and flags at small inputs.
use schemahero.Base.Text.Order.{text_less}
use schemahero.Types.Spec.{Spec, GroupKind, less, less_iff, less-cyclic}
use schemahero.Types.Canonical.{strip_from, strip_type_casts}
use schemahero.Types.Canonical.Fuel.{strip_from-strip_type_casts}
use schemahero.Base.{
  arith, Option, ◌⊎◌, ℕ, zero, suc, ◌≤◌, true, false, [], ◌∷◌, ◌++◌, none, some, ◌≡◌, ◌↔◌, refl,
  length, All,
}
use schemahero.Base.Text.{Text, lit, ◌==◌}
use schemahero.Types.Keys.{KeyConstraint, key_equals, key_equals_iff, shape}
use schemahero.Types.Indexes.{Index, index_equals}
use schemahero.Types.Canonical.{canonicalize_sql_expr}
use schemahero.Types.Canonical.Shape.{is_kept, canonicalize_sql_expr-kept}
use schemahero.Types.Policies.{Policy}
use schemahero.Types.Names.Fragment.{is_fragment_byte, sanitize_ident_fragment-fragment}
use schemahero.Types.Indexes.Conversions.{
  postgresql_schema_index_to_index, index_to_postgresql_schema_index,
}
use schemahero.Types.Indexes.Conversions.RoundTrip.{index_equals-postgresql_back}
use schemahero.Types.Names.{sanitize_ident_fragment, Digest, cap_postgres_identifier}
use schemahero.Types.Names.Bounds.{length-cap_postgres_identifier}

repeat : ℕ → Text → Text
repeat zero t = []
repeat (suc n) t = t ++ repeat n t

-- A digest of 64 zeros for every text.
zeros : Digest
unfolding repeat lit
zeros = record { hex = λ s. repeat 64 (lit "0"); length-hex = λ s. refl }

abbrev key : KeyConstraint
key = record { name = lit "k"; columns = lit "a" ∷ lit "b" ∷ []; is_primary = true }

abbrev index : Index
index = record {
  columns = lit "a" ∷ lit "b" ∷ [];
  name = lit "i";
  is_unique = true;
  parameters = [];
  type = [];
  condition = [];
  expressions = [];
  sorted_columns = [];
}

key_equals_iff_example :
    (key_equals (some key) (some (record key { name = [] })) ≡ true)
    ↔ (shape (some key) ≡ shape (some (record key { name = [] })))
key_equals_iff_example = key_equals_iff (some key) (some (record key { name = [] }))

length-cap_postgres_identifier_example :
    length (cap_postgres_identifier zeros (repeat 70 (lit "a"))) ≤ 63
length-cap_postgres_identifier_example = length-cap_postgres_identifier zeros (repeat 70 (lit "a"))

canonicalize_sql_expr-kept_example :
    All (λ c. is_kept c ≡ true) (canonicalize_sql_expr (lit "Lower((email)::text)\n, 'a'"))
canonicalize_sql_expr-kept_example = canonicalize_sql_expr-kept (lit "Lower((email)::text)\n, 'a'")

sanitize_ident_fragment-fragment_example :
    All (λ c. is_fragment_byte c ≡ true) (sanitize_ident_fragment (lit "(Price > 0)"))
sanitize_ident_fragment-fragment_example = sanitize_ident_fragment-fragment (lit "(Price > 0)")

abbrev sorted_index : Index
sorted_index = record index {
  columns = [];
  sorted_columns = record { column = lit "a"; op_class = []; sort = lit "desc"; nulls = [] } ∷ [];
}

index_equals-postgresql_back_example :
    index_equals sorted_index
      (postgresql_schema_index_to_index (index_to_postgresql_schema_index sorted_index))
    ≡ true
index_equals-postgresql_back_example = index_equals-postgresql_back sorted_index

abbrev policy : Policy
policy = record {
  name = lit "p";
  command = lit "select";
  permissive = true;
  roles = lit "b" ∷ lit "a" ∷ [];
  using = some (lit "a = 1");
  with_check = none;
}

abbrev same_policy : Policy
same_policy = record policy { command = lit " SELECT"; roles = lit "a" ∷ lit "b" ∷ [] }

strip_from-strip_type_casts_example :
    strip_from 20 [] (lit "'a'::text = b") ≡ strip_type_casts (lit "'a'::text = b")
unfolding lit
strip_from-strip_type_casts_example =
    strip_from-strip_type_casts 20 (lit "'a'::text = b") (omega arith)

-- The decoder reads the kind off the text; an empty text is not decoded.
abbrev decode : Text → Option GroupKind
decode [] = none
decode (c ∷ s) = some (record { group = lit "schemas.schemahero.io"; kind = c ∷ s })

abbrev view_a : Spec
view_a = record { source_filename = lit "a"; spec = lit "View" }

abbrev unknown_b : Spec
unknown_b = record { source_filename = lit "b"; spec = [] }

abbrev table_c : Spec
table_c = record { source_filename = lit "c"; spec = lit "Table" }

less_iff_example : (less decode table_c view_a ≡ true) ↔ (
    (lit "Table" == lit "Table" ≡ true) × (lit "View" == lit "Table" ≡ false)
    ⊎ ((lit "Table" == lit "Table" ≡ lit "View" == lit "Table")
        × (text_less (lit "c") (lit "a") ≡ true)))
unfolding lit ◌==◌
less_iff_example =
    less_iff decode table_c view_a
      (record { group = lit "schemas.schemahero.io"; kind = lit "Table" })
      (record { group = lit "schemas.schemahero.io"; kind = lit "View" }) refl refl refl refl

less-cyclic_example :
    (less decode view_a unknown_b ≡ true)
    × (less decode unknown_b table_c ≡ true)
    × (less decode table_c view_a ≡ true)
unfolding lit ◌==◌ text_less
less-cyclic_example =
    less-cyclic decode view_a unknown_b table_c
      (record { group = lit "schemas.schemahero.io"; kind = lit "View" })
      (record { group = lit "schemas.schemahero.io"; kind = lit "Table" }) refl refl refl refl refl
      refl refl refl refl
