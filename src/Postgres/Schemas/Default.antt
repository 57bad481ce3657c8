-- ===== src/Postgres/Schemas/Default.antt =====
-- Connect of plugins/postgres/lib/connection.go: the default schema among the schemas of a connection.
use schemahero.Base.{
  ℕ, beq, Bool, true, false, List, [], ◌∷◌, map, Option, none, some, if◌then◌else◌, ◌≡◌, refl,
}
use schemahero.Base.Text.{Text, lit, is_empty, push_first, split, trim_space}
use schemahero.Postgres.Schemas.{default_schemas, listed_schemas, connection_schemas}

-- The default schema is the first of them.
abbrev IsFirst : Text × List Text → Type 0
IsFirst (schema, schemas) = (rest : List Text) × (schemas ≡ schema ∷ rest)

abbrev IsCons : List Text → Type 0
IsCons l = (p : Text) × (ps : List Text) × (l ≡ p ∷ ps)

push_first-IsCons : (c : ℕ) (l : List Text) → IsCons (push_first c l)
push_first-IsCons c [] = (c ∷ [], [], refl)
push_first-IsCons c (p ∷ ps) = (c ∷ p, ps, refl)

if-IsCons : (b : Bool) (x y : List Text) → IsCons x → IsCons y → IsCons (if b then x else y)
if-IsCons true x y h k = h
if-IsCons false x y h k = k

-- strings.Split returns a part at least.
split-IsCons : (sep : ℕ) (s : Text) → IsCons (split sep s)
unfolding split
split-IsCons sep [] = ([], [], refl)
split-IsCons sep (c ∷ s) =
    if-IsCons (beq c sep) _ _ ([], split sep s, refl) (push_first-IsCons c (split sep s))

if-IsFirst :
    (b : Bool) (x y : Text × List Text) → IsFirst x → IsFirst y → IsFirst (if b then x else y)
if-IsFirst true x y h k = h
if-IsFirst false x y h k = k

default_schemas-IsFirst : (query : Text → Text) → IsFirst (default_schemas query)
unfolding default_schemas
default_schemas-IsFirst query =
    if-IsFirst (is_empty (query (lit "schema"))) _ _
      (if-IsFirst (is_empty (query (lit "currentSchema"))) _ _
        (if-IsFirst (is_empty (query (lit "search_path"))) _ _ ([], refl) ([], refl)) ([], refl))
      ([], refl)

listed_schemas-IsFirst :
    (l : List Text) (d : Text × List Text)
    → IsCons l
    → IsFirst (listed_schemas (map trim_space l) d)
listed_schemas-IsFirst [] d (p, ps, e) = cc
listed_schemas-IsFirst (s ∷ ss) d h = (map trim_space ss, refl)

-- Whatever the address of a connection has in its query, and if it cannot be parsed, the schema that
-- names without a schema are looked up in is the first of those whose tables are listed, and there is
-- one at least.
pub connection_schemas-IsFirst :
    (query : Option (Text → Text))
    → (rest : List Text) × ((connection_schemas query).1 ≡ (connection_schemas query).0 ∷ rest)
unfolding connection_schemas
connection_schemas-IsFirst none = ([], refl)
connection_schemas-IsFirst (some query) =
    if-IsFirst (is_empty (query (lit "schemas"))) _ _ (default_schemas-IsFirst query) (
      listed_schemas-IsFirst (split b',' (query (lit "schemas"))) (default_schemas query)
        (split-IsCons b',' (query (lit "schemas"))))
