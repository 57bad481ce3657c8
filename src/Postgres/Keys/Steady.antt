-- ===== src/Postgres/Keys/Steady.antt =====
-- When the plans for foreign keys and indexes are empty.
use schemahero.Base.{
  Bool, true, ◌||◌, List, [], ◌∷◌, Option, none, some, ◌≡◌, ◌↔◌, inl, inr, refl, arith, any, All,
  if◌then◌else◌, Bool-cases, append-eq-nil, cons_not_nil,
}
use schemahero.Base.Text.{Text, ◌==◌}
use schemahero.Schema.Dialects.{PostgresqlTableForeignKey, PostgresqlTableIndex}
use schemahero.Types.Indexes.{Index, index_equals}
use schemahero.Types.Indexes.Conversions.{postgresql_schema_index_to_index}
use schemahero.Types.ForeignKeys.{ForeignKey, foreign_key_equals}
use schemahero.Types.Names.{Digest}
use schemahero.Mysql.Deploy.Keys.{Search, matched, fell_through}
use schemahero.Mysql.Deploy.Keys.ForeignKeys.{search-matched_iff}
use schemahero.Postgres.Names.{Pgx}
use schemahero.Postgres.Keys.{
  desired_fk_for_compare, IndexSearch, equal, last_named, search_index, foreign_key_round,
  desired_foreign_keys, is_foreign_key_declared, current_foreign_keys, foreign_keys_plan, named,
  is_folded, index_round, desired_indexes, named_indexes, is_index_declared, current_indexes,
  indexes_plan,
}

search-equal_iff :
    (d : Index) (last : Option Index) (currents : List Index)
    → (search_index d last currents ≡ equal) ↔ (any (λ c. index_equals c d) currents ≡ true)
unfolding search_index any
search-equal_iff d last [] = (λ h. cc, λ h. cc)
search-equal_iff d last (c ∷ cs) =
    ground (arith, search-equal_iff d (if c.name == d.name then some c else last) cs)

module _ (sha256 : Digest) (pgx : Pgx) (table_name : Text) where
  -- A current key is equal to the declared one.
  abbrev pub is_foreign_key_present : List ForeignKey → PostgresqlTableForeignKey → Bool
  is_foreign_key_present currents d =
      any (λ c. foreign_key_equals c (desired_fk_for_compare table_name d)) currents

  foreign_key_round-eq-nil :
      (d : PostgresqlTableForeignKey) (s : Search) (rest : List Text × List Text)
      → (foreign_key_round sha256 pgx table_name d s rest).0 ≡ []
      → s ≡ matched
  foreign_key_round-eq-nil d matched rest h = refl
  foreign_key_round-eq-nil d (fell_through none) (rest, dropped) h = absurd (cons_not_nil h)
  foreign_key_round-eq-nil d (fell_through (some fk)) (rest, dropped) h = absurd (cons_not_nil h)

  present-of_nil :
      (currents : List ForeignKey) (ds : List PostgresqlTableForeignKey)
      → (desired_foreign_keys sha256 pgx table_name currents ds).0 ≡ []
      → All (λ d. is_foreign_key_present currents d ≡ true) ds
  unfolding desired_foreign_keys
  present-of_nil currents [] h = tt
  present-of_nil currents (d ∷ ds) h =
      let found = foreign_key_round-eq-nil d _ _ h in
      (
        (search-matched_iff (desired_fk_for_compare table_name d) none currents).0 found,
        present-of_nil currents ds (rw found at h),
      )

  nil-of_present :
      (currents : List ForeignKey) (ds : List PostgresqlTableForeignKey)
      → All (λ d. is_foreign_key_present currents d ≡ true) ds
      → desired_foreign_keys sha256 pgx table_name currents ds ≡ ([], [])
  unfolding desired_foreign_keys
  nil-of_present currents [] h = refl
  nil-of_present currents (d ∷ ds) (h, hs) =
      rw ((search-matched_iff (desired_fk_for_compare table_name d) none currents).1 h)
        (nil-of_present currents ds hs)

  current_foreign_keys-eq-nil_iff :
      (ds : List PostgresqlTableForeignKey) (currents : List ForeignKey)
      → (current_foreign_keys sha256 pgx table_name ds [] currents ≡ [])
        ↔ All (λ c. is_foreign_key_declared sha256 pgx table_name ds c ≡ true) currents
  unfolding current_foreign_keys any
  current_foreign_keys-eq-nil_iff ds [] = (λ h. tt, λ h. refl)
  current_foreign_keys-eq-nil_iff ds (c ∷ cs) =
      elim (Bool-cases (is_foreign_key_declared sha256 pgx table_name ds c)) [
        | inl t ↦ rw t (
          λ h. (refl, (current_foreign_keys-eq-nil_iff ds cs).0 h),
          λ h. (current_foreign_keys-eq-nil_iff ds cs).1 h.1,
        )
        | inr f ↦ rw f (λ h. cc, λ h. cc (h.0))
      ]

  -- An index of a new table that stands in its create statement, or that has an equal current one.
  abbrev pub is_index_met : Bool → List Index → PostgresqlTableIndex → Bool
  is_index_met table_exists currents d =
      is_folded sha256 pgx table_name table_exists d
      || any
          (λ c. index_equals c (postgresql_schema_index_to_index (named sha256 pgx table_name d)))
          currents

  index_round-eq-nil :
      (constraints : List Text) (d : PostgresqlTableIndex) (s : IndexSearch)
      (rest : List Text × List Text)
      → (index_round sha256 pgx table_name constraints d s rest).0 ≡ []
      → s ≡ equal
  index_round-eq-nil constraints d equal rest h = refl
  index_round-eq-nil constraints d (last_named none) (rest, dropped) h = absurd (cons_not_nil h)
  index_round-eq-nil constraints d (last_named (some i)) (rest, dropped) h = absurd (cons_not_nil h)

  module _ (table_exists : Bool) (constraints : List Text) where
    met-of_nil :
        (currents : List Index) (ds : List PostgresqlTableIndex)
        → (desired_indexes sha256 pgx table_name table_exists constraints currents ds).0 ≡ []
        → All (λ d. is_index_met table_exists currents d ≡ true) ds
    unfolding desired_indexes
    met-of_nil currents [] h = tt
    met-of_nil currents (d ∷ ds) h =
        elim (Bool-cases (is_folded sha256 pgx table_name table_exists d)) [
          | inl t ↦ (rw t refl, met-of_nil currents ds (rw t at h))
          | inr f ↦
              let k = rw f at h in
              let found =
                index_round-eq-nil constraints (named sha256 pgx table_name d) _
                  (desired_indexes sha256 pgx table_name table_exists constraints currents ds) k in
              (
                rw f (
                    (search-equal_iff
                        (postgresql_schema_index_to_index (named sha256 pgx table_name d)) none
                        currents).0
                      found),
                met-of_nil currents ds (rw found at k),
              )
        ]

    nil-of_met :
        (currents : List Index) (ds : List PostgresqlTableIndex)
        → All (λ d. is_index_met table_exists currents d ≡ true) ds
        → desired_indexes sha256 pgx table_name table_exists constraints currents ds ≡ ([], [])
    unfolding desired_indexes
    nil-of_met currents [] h = refl
    nil-of_met currents (d ∷ ds) (h, hs) =
        elim (Bool-cases (is_folded sha256 pgx table_name table_exists d)) [
          | inl t ↦ rw t (nil-of_met currents ds hs)
          | inr f ↦
              rw
                (
                  f,
                  (search-equal_iff
                        (postgresql_schema_index_to_index (named sha256 pgx table_name d)) none
                        currents).1
                      (rw f at h),
                )
                (nil-of_met currents ds hs)
        ]

    current_indexes-eq-nil_iff :
        (ds : List PostgresqlTableIndex) (currents : List Index)
        → (current_indexes sha256 pgx table_name constraints ds [] currents ≡ [])
          ↔ All (λ c. is_index_declared sha256 pgx table_name ds c ≡ true) currents
    unfolding current_indexes any
    current_indexes-eq-nil_iff ds [] = (λ h. tt, λ h. refl)
    current_indexes-eq-nil_iff ds (c ∷ cs) =
        elim (Bool-cases (is_index_declared sha256 pgx table_name ds c)) [
          | inl t ↦ rw t (
            λ h. (refl, (current_indexes-eq-nil_iff ds cs).0 h),
            λ h. (current_indexes-eq-nil_iff ds cs).1 h.1,
          )
          | inr f ↦ rw f (λ h. cc, λ h. cc (h.0))
        ]

-- The plan for the foreign keys of a table is empty exactly if each declared key, its bare parent table
-- read in the schema of the table, is equal to a current one, and each current key is equal to a
-- declared one.
pub foreign_keys_plan_empty_iff :
    (sha256 : Digest) (pgx : Pgx) (table_name : Text) (ds : List PostgresqlTableForeignKey)
    (currents : List ForeignKey)
    → (foreign_keys_plan sha256 pgx table_name ds currents ≡ []) ↔ (
        All (λ d. is_foreign_key_present sha256 pgx table_name currents d ≡ true) ds
        × All (λ c. is_foreign_key_declared sha256 pgx table_name ds c ≡ true) currents)
unfolding foreign_keys_plan
foreign_keys_plan_empty_iff sha256 pgx table_name ds currents =
    let declared = current_foreign_keys-eq-nil_iff sha256 pgx table_name ds currents in
    (
      λ h.
          let (none_desired, none_current) = append-eq-nil _ _ h in
          let present = present-of_nil sha256 pgx table_name currents ds none_desired in
          (
            present,
            declared.0
                (rw (nil-of_present sha256 pgx table_name currents ds present) at none_current),
          ),
      λ (present, kept).
          rw (nil-of_present sha256 pgx table_name currents ds present) (declared.1 kept),
    )

-- The plan for the indexes of a table is empty exactly if each declared index, named if it has no name,
-- stands in the create statement of a table that is new or is equal to a current index, and each
-- current index is equal to a declared one with the names that the plan gave.
pub indexes_plan_empty_iff :
    (sha256 : Digest) (pgx : Pgx) (table_name : Text) (table_exists : Bool)
    (constraints : List Text) (ds : List PostgresqlTableIndex) (currents : List Index)
    → (indexes_plan sha256 pgx table_name table_exists constraints ds currents ≡ []) ↔ (
        All (λ d. is_index_met sha256 pgx table_name table_exists currents d ≡ true) ds
        × All
            (λ c.
              is_index_declared sha256 pgx table_name
                (named_indexes sha256 pgx table_name table_exists ds)
                c
              ≡ true)
            currents)
unfolding indexes_plan
indexes_plan_empty_iff sha256 pgx table_name table_exists constraints ds currents =
    let declared =
      current_indexes-eq-nil_iff sha256 pgx table_name table_exists constraints
        (named_indexes sha256 pgx table_name table_exists ds) currents in
    (
      λ h.
          let (none_desired, none_current) = append-eq-nil _ _ h in
          let met =
            met-of_nil sha256 pgx table_name table_exists constraints currents ds none_desired in
          (
            met,
            declared.0 (
                rw (nil-of_met sha256 pgx table_name table_exists constraints currents ds met) at
                  none_current),
          ),
      λ (met, kept).
          rw (nil-of_met sha256 pgx table_name table_exists constraints currents ds met)
            (declared.1 kept),
    )
