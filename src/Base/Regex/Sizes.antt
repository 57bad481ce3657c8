-- ===== src/Base/Regex/Sizes.antt =====
-- What the pattern of a size finds in a type that is written in the normal form, `word (digits)`.
use mathlib.Core.List.{reverse_aux, reverse-reverse}
use schemahero.Base.{
  ℕ, Bool, true, false, List, [], ◌∷◌, ◌++◌, Option, some, ◌≡◌, refl, ◌∙◌, ap, beq_iff, All,
}
use schemahero.Base.Text.{Text, lit}
use schemahero.Base.Text.Number.{is_digit}
use schemahero.Base.Regex.{
  Atom, byte, many, group, bytes, run_of, match_here, find_submatch, is_blank, one_number,
}

-- The bytes of a word match the word.
match_here-bytes :
    (word : Text) (re : List Atom) (s : Text)
    → match_here (bytes word ++ re) (word ++ s) ≡ match_here re s
unfolding match_here
match_here-bytes [] re s = refl
match_here-bytes (c ∷ word) re s = rw ((beq_iff c c).1 refl) (match_here-bytes word re s)

-- A star takes a run to its end, if what follows matches there.
run_of-whole :
    (cls : ℕ → Bool) (next : Text → Text → Option (List Text)) (run acc : Text) (d : ℕ) (s : Text)
    (found : List Text)
    → All (λ c. cls c ≡ true) run
    → cls d ≡ false
    → next (reverse_aux run acc) (d ∷ s) ≡ some found
    → run_of cls next acc (run ++ d ∷ s) ≡ some found
unfolding run_of
run_of-whole cls next [] acc d s found h stop m = rw (stop) m
run_of-whole cls next (c ∷ run) acc d s found (h, hs) stop m =
    rw (h, run_of-whole cls next run (c ∷ acc) d s found hs stop m) refl

find_submatch-here :
    (re : List Atom) (s : Text) (found : List Text)
    → match_here re s ≡ some found
    → find_submatch re s ≡ some found
unfolding find_submatch
find_submatch-here re [] found m = m
find_submatch-here re (c ∷ s) found m = rw m refl

regroup :
    (word digits : Text)
    → word ++ lit " (" ++ digits ++ lit ")" ≡ word ++ (b' ' ∷ b'(' ∷ (digits ++ b')' ∷ []))
unfolding lit
regroup [] digits = refl
regroup (c ∷ word) digits = ap (λ s. c ∷ s) (regroup word digits)

size_found :
    (digits : Text)
    → All (λ c. is_digit c ≡ true) digits
    → match_here
        (many is_blank ∷ byte b'(' ∷ group is_digit ∷ byte b')' ∷ [])
        (b' ' ∷ b'(' ∷ (digits ++ b')' ∷ []))
      ≡ some (digits ∷ [])
unfolding match_here is_blank is_digit
size_found digits h =
    run_of-whole is_blank _ (b' ' ∷ []) [] b'(' (digits ++ b')' ∷ []) (digits ∷ []) (refl, tt) refl
      (run_of-whole is_digit _ digits [] b')' [] (digits ∷ []) h refl
        (ap (λ w. some (w ∷ [])) (reverse-reverse digits)))

-- In the normal form of a type with a size, the pattern of the type finds the digits.
pub find_submatch-one_number :
    (word digits : Text)
    → All (λ c. is_digit c ≡ true) digits
    → find_submatch (one_number word) (word ++ lit " (" ++ digits ++ lit ")") ≡ some (digits ∷ [])
unfolding one_number lit
find_submatch-one_number word digits h = find_submatch-here (one_number word) _ (digits ∷ []) (
    ap (match_here (one_number word)) (regroup word digits)
    ∙ match_here-bytes word _ (b' ' ∷ b'(' ∷ (digits ++ b')' ∷ []))
    ∙ size_found digits h)
