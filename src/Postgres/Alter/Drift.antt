-- ===== src/Postgres/Alter/Drift.antt =====
-- No difference of a column is missed.
use schemahero.Base.{
  Bool, true, false, not, ◌&&◌, List, [], ◌∷◌, Option, none, some, ◌≡◌, ◌↔◌, refl, sym, inl, inr,
  arith, any, if◌then◌else◌, Bool-cases, append-eq-nil, cons_not_nil,
}
use schemahero.Base.Text.{Text, ◌==◌}
use schemahero.Base.Text.Equality.{eq_iff}
use schemahero.Types.Columns.{Column, bools_equal}
use schemahero.Postgres.Names.{Pgx}
use schemahero.Postgres.Alter.{
  column_defaults_equal, with_time_zone, null_constraint, postgres_columns_match, is_not_null,
  is_serial, add_not_null_statements, type_changes, default_changes, null_changes, column_changes,
  joined_changes, altered_column_statements,
}

-- The types agree up to the time zone that is the default, both are arrays or none is, the defaults are
-- equal once they are canonical, and both are not null or none is.
abbrev pub IsSame : Column → Column → Type 0
IsSame existing column =
    (with_time_zone existing.data_type ≡ with_time_zone column.data_type)
    × (existing.is_array ≡ column.is_array)
    × (column_defaults_equal existing.column_default column.column_default ≡ true)
    × (is_not_null (null_constraint existing.constraints)
        ≡ is_not_null (null_constraint column.constraints))

bools_equal-is_not_null :
    (a b : Option Bool) → (bools_equal a b ≡ true) ↔ (is_not_null a ≡ is_not_null b)
unfolding bools_equal
bools_equal-is_not_null none none = (λ h. refl, λ h. refl)
bools_equal-is_not_null none (some true) = (λ h. cc, λ h. cc)
bools_equal-is_not_null none (some false) = (λ h. refl, λ h. refl)
bools_equal-is_not_null (some true) none = (λ h. cc, λ h. cc)
bools_equal-is_not_null (some false) none = (λ h. refl, λ h. refl)
bools_equal-is_not_null (some true) (some true) = (λ h. refl, λ h. refl)
bools_equal-is_not_null (some true) (some false) = (λ h. cc, λ h. cc)
bools_equal-is_not_null (some false) (some true) = (λ h. cc, λ h. cc)
bools_equal-is_not_null (some false) (some false) = (λ h. refl, λ h. refl)

same_arrays : (a b : Bool) → ((if a then b else not b) ≡ true) ↔ (a ≡ b)
same_arrays true b = (λ h. sym h, λ h. sym h)
same_arrays false true = (λ h. cc, λ h. cc)
same_arrays false false = (λ h. refl, λ h. refl)

pub match_iff : (a b : Column) → (postgres_columns_match a b ≡ true) ↔ IsSame a b
unfolding postgres_columns_match
match_iff a b = ground (
  arith,
  eq_iff (with_time_zone a.data_type) (with_time_zone b.data_type),
  same_arrays a.is_array b.is_array,
  bools_equal-is_not_null (null_constraint a.constraints) (null_constraint b.constraints),
)

module _ (pgx : Pgx) (table_name : Text) where
  type-same :
      (e c : Column)
      → type_changes pgx table_name e c ≡ []
      → ((e.data_type == c.data_type) ≡ true) × (c.is_array ≡ e.is_array)
  type-same e c h = elim (Bool-cases (e.data_type == c.data_type)) [
    | inl t ↦ elim (Bool-cases (if c.is_array then e.is_array else not e.is_array)) [
      | inl s ↦ (t, (same_arrays c.is_array e.is_array).0 s)
      | inr f ↦ absurd (cons_not_nil (rw (t, f) at h))
    ]
    | inr f ↦ absurd (cons_not_nil (rw f at h))
  ]

  default-same :
      (e : Column) (present declared : Option Text)
      → default_changes pgx table_name e present declared ≡ []
      → column_defaults_equal present declared ≡ true
  unfolding column_defaults_equal
  default-same e none none h = refl
  default-same e (some a) none h = absurd (cons_not_nil h)
  default-same e none (some d) h = absurd (cons_not_nil h)
  default-same e (some a) (some d) h = elim (Bool-cases (column_defaults_equal (some a) (some d))) [
    | inl t ↦ t
    | inr f ↦ absurd (cons_not_nil (rw f at h))
  ]

  null-same :
      (primary_keys : List Text) (e c : Column)
      → any (λ k. c.name == k) primary_keys ≡ false
      → null_changes pgx table_name primary_keys e c ≡ []
      → (is_not_null (null_constraint e.constraints)
          && not (is_not_null (null_constraint c.constraints)))
        ≡ false
  null-same primary_keys e c key h =
      elim (Bool-cases (
        is_not_null (null_constraint e.constraints)
        && not (is_not_null (null_constraint c.constraints)))) [
          | inl t ↦ absurd (cons_not_nil (rw (key, t) at h))
          | inr f ↦ f
        ]

  nil-of_joined : (cs : List Text) → joined_changes pgx table_name cs ≡ [] → cs ≡ []
  nil-of_joined [] h = refl
  nil-of_joined (c ∷ cs) h = absurd (cons_not_nil h)

  add_not_null-not_nil : (e c : Column) → add_not_null_statements pgx table_name e c ≡ [] → ⊥
  unfolding add_not_null_statements
  add_not_null-not_nil e c h = cons_not_nil ((append-eq-nil _ _ h).1)

-- A column that is neither of a serial type nor in the primary key is left alone exactly if it is as it
-- is declared.
pub altered_column_empty_iff :
    (pgx : Pgx) (table_name : Text) (primary_keys : List Text) (existing column : Column)
    → is_serial column.data_type ≡ false
    → any (λ k. column.name == k) primary_keys ≡ false
    → (altered_column_statements pgx table_name primary_keys existing column ≡ [])
      ↔ IsSame existing column
unfolding altered_column_statements column_changes
altered_column_empty_iff pgx table_name primary_keys existing column plain key = (
  λ h. elim (Bool-cases (postgres_columns_match existing column)) [
    | inl t ↦ (match_iff existing column).0 t
    | inr f ↦
        elim (Bool-cases (
          is_not_null (null_constraint column.constraints)
          && not (is_not_null (null_constraint existing.constraints)))) [
            | inl t ↦ absurd (add_not_null-not_nil pgx table_name existing column (rw (f, t) at h))
            | inr g ↦
                let changes = rw plain at (nil-of_joined pgx table_name _ (rw (f, g) at h)) in
                let (front, nulls) = append-eq-nil _ _ changes in
                let (types, defaults) = append-eq-nil _ _ front in
                let (same_type, same_array) = type-same pgx table_name existing column types in
                let kept = null-same pgx table_name primary_keys existing column key nulls in
                (
                  rw ((eq_iff existing.data_type column.data_type).0 same_type) refl,
                  sym same_array,
                  default-same pgx table_name existing existing.column_default column.column_default
                      defaults,
                  ground (arith, g, kept),
                )
          ]
  ],
  λ same. rw ((match_iff existing column).1 same) refl,
)
