-- ===== src/Types/Spec.antt =====
-- pkg/database/types/spec.go, and SortSpecs of pkg/database/database.go. The decoder of Kubernetes
-- objects and the sorting of the package sort are parameters.
use schemahero.Base.{
  Bool, true, false, ◌&&◌, ◌||◌, List, Option, none, some, ◌≡◌, ◌↔◌, ◌⊎◌, inl, refl, sym, ◌∙◌,
  if◌then◌else◌, arith,
}
use schemahero.Base.Text.{Text, lit, ◌==◌}
use schemahero.Base.Text.Equality.{eq_iff}
use schemahero.Base.Text.Order.{text_less}

pub record Spec : Type 0 where
  pub source_filename : Text
  pub spec : Text

-- The group and the kind of what is decoded.
pub record GroupKind : Type 0 where
  pub group : Text
  pub kind : Text

abbrev pub by_name : Spec → Spec → Bool
by_name s t = text_less s.source_filename t.source_filename

abbrev pub by_kind : Spec → Spec → Text → Text → Bool
by_kind s t i j =
    if i == j
    then by_name s t
    else if i == lit "Table"
    then true
    else if j == lit "Table"
    then false
    else by_name s t

abbrev pub is_schema : GroupKind → Bool
is_schema i = i.group == lit "schemas.schemahero.io"

abbrev pub by_group_kind : Spec → Spec → Option GroupKind → Option GroupKind → Bool
by_group_kind s t none j = by_name s t
by_group_kind s t (some i) none = by_name s t
by_group_kind s t (some i) (some j) =
    if is_schema i && is_schema j then by_kind s t i.kind j.kind else by_name s t

true_not_false : true ≡ false → ⊥
true_not_false h = cc

module _ (decode : Text → Option GroupKind) where
  -- Less
  unfoldable pub less : Spec → Spec → Bool
  less s t = by_group_kind s t (decode s.spec) (decode t.spec)

  -- SortSpecs, over the sorting by a test whether one is less than another
  unfoldable pub sort_specs :
      ((Spec → Spec → Bool) → List Spec → List Spec) → Text → List Spec → List Spec
  unfolding less
  sort_specs sort driver specs =
      if driver == lit "postgres" || driver == lit "timescaledb" then sort less specs else specs

  -- A table comes first, and what is no table behind it, by their names otherwise.
  abbrev pub Precedes : Spec → Spec → Text → Text → Type 0
  Precedes s t i j =
      ((i == lit "Table") ≡ true) × ((j == lit "Table") ≡ false)
      ⊎ (((i == lit "Table") ≡ (j == lit "Table")) × (by_name s t ≡ true))

  choice_iff :
      (same a b l : Bool)
      → (same ≡ true → a ≡ b)
      → (a ≡ true → b ≡ true → same ≡ true)
      → ((if same then l else if a then true else if b then false else l) ≡ true)
        ↔ ((a ≡ true) × (b ≡ false) ⊎ ((a ≡ b) × (l ≡ true)))
  choice_iff true true true l h k = ground arith
  choice_iff true true false l h k = absurd (true_not_false (h refl))
  choice_iff true false true l h k = absurd (true_not_false (sym (h refl)))
  choice_iff true false false l h k = ground arith
  choice_iff false true true l h k = absurd (true_not_false (sym (k refl refl)))
  choice_iff false true false l h k = ground arith
  choice_iff false false true l h k = ground arith
  choice_iff false false false l h k = ground arith

  by_kind_iff : (s t : Spec) (i j : Text) → (by_kind s t i j ≡ true) ↔ Precedes s t i j
  by_kind_iff s t i j =
      choice_iff (i == j) (i == lit "Table") (j == lit "Table") (by_name s t)
        (λ e. rw ((eq_iff i j).0 e) refl)
        (λ e f. (eq_iff i j).1 ((eq_iff i (lit "Table")).0 e ∙ sym ((eq_iff j (lit "Table")).0 f)))

-- Of two specifications that are decoded as resources of SchemaHero, the first is less than the second
-- exactly if it alone is a table, or both or neither are tables and its file name is less.
pub less_iff :
    (decode : Text → Option GroupKind) (s t : Spec) (i j : GroupKind)
    → decode s.spec ≡ some i
    → decode t.spec ≡ some j
    → is_schema i ≡ true
    → is_schema j ≡ true
    → (less decode s t ≡ true) ↔ (
        ((i.kind == lit "Table") ≡ true) × ((j.kind == lit "Table") ≡ false)
        ⊎ (((i.kind == lit "Table") ≡ (j.kind == lit "Table"))
            × (text_less s.source_filename t.source_filename ≡ true)))
unfolding less
less_iff decode s t i j di dj gi gj = rw (di, dj, gi, gj) (by_kind_iff decode s t i.kind j.kind)

-- The order has a cycle where one specification is not decoded: if its file name lies between that of
-- another resource of SchemaHero and that of a table behind it, then the resource is less than it, it is
-- less than the table, and the table is less than the resource.
pub less-cyclic :
    (decode : Text → Option GroupKind) (resource unknown table : Spec) (i j : GroupKind)
    → decode resource.spec ≡ some i
    → decode unknown.spec ≡ none
    → decode table.spec ≡ some j
    → is_schema i ≡ true
    → is_schema j ≡ true
    → (i.kind == lit "Table") ≡ false
    → (j.kind == lit "Table") ≡ true
    → text_less resource.source_filename unknown.source_filename ≡ true
    → text_less unknown.source_filename table.source_filename ≡ true
    → (less decode resource unknown ≡ true)
      × (less decode unknown table ≡ true)
      × (less decode table resource ≡ true)
unfolding less
less-cyclic decode resource unknown table i j di dn dj gi gj other is first second =
    let back = (less_iff decode table resource j i dj di gj gi).1 (inl (is, other)) in
    (rw (di, dn) first, rw dn second, back)
