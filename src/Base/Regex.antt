-- ===== src/Base/Regex.antt =====
-- FindStringSubmatch of package regexp, for the expressions that the program compiles: a sequence
-- of single bytes and of starred classes, some of these in a group. Go's matcher prefers what a
-- backtracking one finds first: the leftmost place, and there the longest run of each star in turn.
pub mod Sizes
use Prim.Native.Nat.{ℕ}
use mathlib.Core.Bool.{Bool, ◌||◌}
use mathlib.Core.Option.{Option, none, some}
use mathlib.Core.List.{List, [], ◌∷◌, ◌++◌, map, reverse}
use schemahero.Base.Tests.{beq, if◌then◌else◌}
use schemahero.Base.Text.{Text}
use schemahero.Base.Text.Number.{is_digit}

pub data Atom : Type 0 where
  byte : ℕ → Atom
  -- c*
  many : (ℕ → Bool) → Atom
  -- (c*)
  group : (ℕ → Bool) → Atom

abbrev pub or_else {ℓ} : {A : Type ℓ} → Option A → Option A → Option A
or_else (some a) o = some a
or_else none o = o

-- The longest run for which what follows matches; `acc` holds the run, its last byte first.
unfoldable pub run_of :
    (ℕ → Bool) → (Text → Text → Option (List Text)) → Text → Text → Option (List Text)
run_of cls next acc [] = next acc []
run_of cls next acc (c ∷ s) =
    let longer = or_else (run_of cls next (c ∷ acc) s) (next acc (c ∷ s)) in
    if cls c then longer else next acc (c ∷ s)

abbrev capture : Text → Option (List Text) → Option (List Text)
capture w none = none
capture w (some gs) = some (reverse w ∷ gs)

-- The groups of a match that begins here.
unfoldable pub match_here : List Atom → Text → Option (List Text)
match_here [] s = some []
match_here (byte b ∷ r) [] = none
match_here (byte b ∷ r) (c ∷ s) = if beq b c then match_here r s else none
match_here (many cls ∷ r) s = run_of cls (λ w t. match_here r t) [] s
match_here (group cls ∷ r) s = run_of cls (λ w t. capture w (match_here r t)) [] s

-- The groups after group 0; `none` where there is no match.
unfoldable pub find_submatch : List Atom → Text → Option (List Text)
unfolding match_here run_of
find_submatch re [] = match_here re []
find_submatch re (c ∷ s) = or_else (match_here re (c ∷ s)) (find_submatch re s)

-- \s
unfoldable pub is_blank : ℕ → Bool
is_blank c = beq c 32 || beq c 9 || beq c 10 || beq c 12 || beq c 13

abbrev pub bytes : Text → List Atom
bytes = map byte

-- word\s*\((\d*)\)
unfoldable pub one_number : Text → List Atom
one_number word = bytes word ++ many is_blank ∷ byte b'(' ∷ group is_digit ∷ byte b')' ∷ []

-- word\s*\(\s*(\d*)\s*\)
unfoldable pub spaced_number : Text → List Atom
spaced_number word =
    bytes word
    ++ many is_blank ∷ byte b'(' ∷ many is_blank ∷ group is_digit ∷ many is_blank ∷ byte b')' ∷ []

-- word\s*\(\s*(\d*),\s*(\d*)\s*\)
unfoldable pub two_numbers : Text → List Atom
two_numbers word =
    bytes word
    ++ (many is_blank ∷ byte b'(' ∷ many is_blank ∷ group is_digit ∷ byte b',' ∷ [])
    ++ many is_blank ∷ group is_digit ∷ many is_blank ∷ byte b')' ∷ []

unfoldable pub regex : Unit {0}
unfolding find_submatch one_number spaced_number two_numbers is_blank is_digit
regex = tt
