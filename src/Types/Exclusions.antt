-- ===== src/Types/Exclusions.antt =====
-- pkg/database/types/exclusionconstraint.go
use schemahero.Base.{Bool, true, false, ◌&&◌, ◌||◌, List, [], ◌∷◌, ◌++◌, map, if◌then◌else◌}
use schemahero.Base.Maps.{TextMap}
use schemahero.Base.Text.{Text, lit, ◌==◌, is_empty, to_lower, trim_space, join}
use schemahero.Schema.Postgresql.{
  PostgresqlTableExclusionConstraintItem, PostgresqlTableExclusionConstraint,
}
use schemahero.Types.Names.{
  Digest, cap_postgres_identifier, bare_table_name, sanitize_ident_fragment,
}
use schemahero.Types.Canonical.{canonicalize_sql_expr}

pub record ExclusionConstraintItem : Type 0 where
  pub column : Text
  pub expression : Text
  pub operator : Text

pub record ExclusionConstraint : Type 0 where
  pub name : Text
  pub using : Text
  pub items : List ExclusionConstraintItem
  pub condition : Text
  pub parameters : TextMap Text

-- element
abbrev pub element : ExclusionConstraintItem → Text
element i = if is_empty i.column then i.expression else i.column

-- normalizeUsing
unfoldable pub normalize_using : Text → Text
unfolding to_lower trim_space
normalize_using using = let m = to_lower (trim_space using) in if is_empty m then lit "gist" else m

-- The comparison of the items at each place, behind that of their numbers
unfoldable pub items_equal : List ExclusionConstraintItem → List ExclusionConstraintItem → Bool
unfolding canonicalize_sql_expr
items_equal [] [] = true
items_equal [] (_ ∷ _) = false
items_equal (_ ∷ _) [] = false
items_equal (a ∷ as') (b ∷ bs) =
    canonicalize_sql_expr (element a) == canonicalize_sql_expr (element b)
    && canonicalize_sql_expr a.operator == canonicalize_sql_expr b.operator
    && items_equal as' bs

-- ExclusionConstraint.Equals, for two constraints that are not nil
unfoldable pub exclusion_constraint_equals : ExclusionConstraint → ExclusionConstraint → Bool
unfolding normalize_using canonicalize_sql_expr items_equal
exclusion_constraint_equals e other =
    (is_empty e.name || is_empty other.name || e.name == other.name)
    && normalize_using e.using == normalize_using other.using
    && canonicalize_sql_expr e.condition == canonicalize_sql_expr other.condition
    && items_equal e.items other.items

abbrev of_schema_item : PostgresqlTableExclusionConstraintItem → ExclusionConstraintItem
of_schema_item i = record { column = i.column; expression = i.expression; operator = i.operator }

-- PostgresqlSchemaExclusionConstraintToExclusionConstraint
unfoldable pub postgresql_schema_exclusion_constraint_to_exclusion_constraint :
    PostgresqlTableExclusionConstraint → ExclusionConstraint
postgresql_schema_exclusion_constraint_to_exclusion_constraint c = record {
  name = c.name;
  using = c.using;
  items = map of_schema_item c.items;
  condition = c.condition;
  parameters = c.parameters;
}

module _ (sha256 : Digest) where
  -- GeneratePostgresqlExclusionConstraintName
  unfoldable pub generate_postgresql_exclusion_constraint_name :
      Text → PostgresqlTableExclusionConstraint → Text
  unfolding cap_postgres_identifier bare_table_name sanitize_ident_fragment join
  generate_postgresql_exclusion_constraint_name table_name c =
      if is_empty c.name
      then cap_postgres_identifier sha256 (
          bare_table_name table_name
          ++ lit "_"
          ++ join (lit "_")
              (map (λ i. sanitize_ident_fragment (element (of_schema_item i))) c.items)
          ++ lit "_excl")
      else c.name
