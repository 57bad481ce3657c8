-- ===== src/Types/Policies/Recreation.antt =====
-- When a policy of the same name is dropped and created again: where its attributes differ.
use schemahero.Base.{true, Option, none, some, ◌≡◌, ◌↔◌, refl, arith}
use schemahero.Base.Text.Equality.{eq_iff}
use schemahero.Types.Keys.{columns_equal_iff}
use schemahero.Types.Policies.{
  Policy, normalize_policy_command, normalize_policy_roles, roles_equal, policy_equals,
  attributes_equal,
}

-- What the comparison of attributes decides: the command and the sorted roles in their normal forms,
-- and the flag, are equal. The expressions and the name play no part.
pub attributes_equal_iff :
    (p other : Policy)
    → (attributes_equal (some p) (some other) ≡ true) ↔ (
        (normalize_policy_command p.command ≡ normalize_policy_command other.command)
        × (p.permissive ≡ other.permissive)
        × (normalize_policy_roles p.roles ≡ normalize_policy_roles other.roles))
unfolding attributes_equal roles_equal
attributes_equal_iff p other = ground (
  arith,
  eq_iff (normalize_policy_command p.command) (normalize_policy_command other.command),
  columns_equal_iff (normalize_policy_roles p.roles) (normalize_policy_roles other.roles),
)

-- Two policies that are equal, or nil alike, have equal attributes.
pub policy_equals-attributes_equal :
    (p other : Option Policy) → policy_equals p other ≡ true → attributes_equal p other ≡ true
unfolding policy_equals attributes_equal
policy_equals-attributes_equal none none h = refl
policy_equals-attributes_equal none (some q) h = cc
policy_equals-attributes_equal (some p) none h = cc
policy_equals-attributes_equal (some p) (some q) h = ground arith
