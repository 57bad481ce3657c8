-- ===== src/Types/Policies.antt =====
-- pkg/database/types/rls.go
pub mod Recreation
use schemahero.Base.Text.Order.{text_less}
use schemahero.Base.{
  Bool, true, false, not, ◌&&◌, List, [], ◌∷◌, Option, none, some, bool_eq, beq, ltb, if◌then◌else◌,
}
use schemahero.Base.Text.{Text, lit, ◌==◌, is_empty, to_upper, to_lower, trim_space, fields, join}
use schemahero.Schema.Dialects.{PostgresqlTablePolicy}
use schemahero.Types.Keys.{columns_equal}

pub record RowLevelSecurity : Type 0 where
  pub enabled : Bool
  pub forced : Bool

pub record Policy : Type 0 where
  pub name : Text
  pub command : Text
  pub permissive : Bool
  pub roles : List Text
  pub using : Option Text
  pub with_check : Option Text

-- normalizePolicyCommand
unfoldable pub normalize_policy_command : Text → Text
normalize_policy_command command =
    let c = to_upper (trim_space command) in if is_empty c then lit "ALL" else c

insert_text : Text → List Text → List Text
unfolding text_less
insert_text t [] = t ∷ []
insert_text t (x ∷ r) = let rest = insert_text t r in if text_less x t then x ∷ rest else t ∷ x ∷ r

-- sort.Strings
unfoldable pub sort_texts : List Text → List Text
unfolding insert_text
sort_texts [] = []
sort_texts (t ∷ r) = insert_text t (sort_texts r)

-- normalizePolicyRoles
unfoldable pub normalize_policy_roles : List Text → List Text
unfolding sort_texts
normalize_policy_roles [] = lit "public" ∷ []
normalize_policy_roles (r ∷ roles) = sort_texts (r ∷ roles)

-- normalizePolicyExpr
unfoldable pub normalize_policy_expr : Option Text → Text
normalize_policy_expr none = []
normalize_policy_expr (some e) = join (lit " ") (fields (to_lower e))

-- rolesEqual
unfoldable pub roles_equal : List Text → List Text → Bool
unfolding normalize_policy_roles
roles_equal a b = columns_equal (normalize_policy_roles a) (normalize_policy_roles b)

-- Policy.Equals, where nil equals nil
unfoldable pub policy_equals : Option Policy → Option Policy → Bool
unfolding normalize_policy_command roles_equal normalize_policy_expr
policy_equals none none = true
policy_equals none (some _) = false
policy_equals (some _) none = false
policy_equals (some p) (some other) =
    (p.name == other.name)
    && (normalize_policy_command p.command == normalize_policy_command other.command)
    && bool_eq p.permissive other.permissive
    && roles_equal p.roles other.roles
    && (normalize_policy_expr p.using == normalize_policy_expr other.using)
    && (normalize_policy_expr p.with_check == normalize_policy_expr other.with_check)

-- Policy.AttributesEqual
unfoldable pub attributes_equal : Option Policy → Option Policy → Bool
unfolding normalize_policy_command roles_equal
attributes_equal none none = true
attributes_equal none (some _) = false
attributes_equal (some _) none = false
attributes_equal (some p) (some other) =
    (normalize_policy_command p.command == normalize_policy_command other.command)
    && bool_eq p.permissive other.permissive
    && roles_equal p.roles other.roles

-- PostgresqlSchemaPolicyToPolicy
unfoldable pub postgresql_schema_policy_to_policy : PostgresqlTablePolicy → Policy
unfolding normalize_policy_command normalize_policy_roles
postgresql_schema_policy_to_policy p = record {
  name = p.name;
  command = normalize_policy_command p.command;
  permissive = not (to_lower (trim_space p.permissive) == lit "restrictive");
  roles = normalize_policy_roles p.roles;
  using = p.using;
  with_check = p.with_check;
}

-- PolicyCommandFromCatalogChar
unfoldable pub policy_command_from_catalog_char : Text → Text
policy_command_from_catalog_char polcmd =
    if polcmd == lit "*"
    then lit "ALL"
    else if polcmd == lit "r"
    then lit "SELECT"
    else if polcmd == lit "a"
    then lit "INSERT"
    else if polcmd == lit "w"
    then lit "UPDATE"
    else if polcmd == lit "d"
    then lit "DELETE"
    else lit "ALL"
