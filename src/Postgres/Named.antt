-- ===== src/Postgres/Named.antt =====
-- The two loops by which plugins/postgres/lib plans what is matched by its name: exclusion constraints
-- (exclusionconstraint.go), triggers (trigger.go) and check constraints (checkconstraint.go).
pub mod Converge
pub mod Execute
pub mod Passes
pub mod Settled
use schemahero.Base.{Bool, true, false, List, [], ◌∷◌, ◌++◌, Option, none, some, any, if◌then◌else◌}
use schemahero.Base.Text.{Text, ◌==◌}

-- A statement of the plan: it drops a current object, or creates a declared one.
pub data Change (D C : Type 0) : Type 0 where
  drop : C → Change D C
  create : D → Change D C

module _ {D C : Type 0} (declared_name : D → Text) (current_name : C → Text)
    (same : D → C → Bool) where
  -- The first current object of that name
  unfoldable pub find_named : Text → List C → Option C
  find_named n [] = none
  find_named n (c ∷ cs) = let rest = find_named n cs in if current_name c == n then some c else rest

  -- One round of the loop over the declared objects: the changes and the dropped names
  abbrev pub named_round :
      D → Option C → List (Change D C) × List Text → List (Change D C) × List Text
  named_round d none (rest, dropped) = (create d ∷ rest, dropped)
  named_round d (some m) (rest, dropped) =
      if same d m then (rest, dropped) else (drop m ∷ create d ∷ rest, current_name m ∷ dropped)

  unfoldable pub declared_changes : List C → List D → List (Change D C) × List Text
  unfolding find_named
  declared_changes currents [] = ([], [])
  declared_changes currents (d ∷ ds) =
      named_round d (find_named (declared_name d) currents) (declared_changes currents ds)

  abbrev pub is_named : List D → Text → Bool
  is_named ds n = any (λ d. declared_name d == n) ds

  -- The loop over the current objects
  unfoldable pub current_changes : List D → List Text → List C → List (Change D C)
  unfolding any
  current_changes ds dropped [] = []
  current_changes ds dropped (c ∷ cs) =
      let rest = current_changes ds dropped cs in
      if is_named ds (current_name c)
      then rest
      else if any (λ n. n == current_name c) dropped
      then rest
      else drop c ∷ rest

  unfoldable pub named_changes : List D → List C → List (Change D C)
  unfolding declared_changes current_changes
  named_changes ds currents =
      let (changes, dropped) = declared_changes currents ds in
      changes ++ current_changes ds dropped currents
