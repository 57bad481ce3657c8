-- ===== src/Base/Text.antt =====
-- Go strings as lists of bytes, and the functions of the packages strings, strconv and fmt that the
-- program calls. ToUpper, ToLower, TrimSpace and Fields are those of ASCII text: a byte above 127
-- is no letter and no blank.
pub mod Equality
pub mod Number
pub mod Order
pub mod Escape
use Prim.Native.Nat.{ℕ, zero, suc, ◌+◌, ◌-◌}
use Prim.Native.Char.{code}
use Prim.Native.String.{String}
use mathlib.Core.Path.{◌≡◌, refl}
use mathlib.Core.Bool.{Bool, true, false, ◌&&◌, ◌||◌}
use mathlib.Core.Option.{Option, none, some}
use mathlib.Core.List.{List, [], ◌∷◌, ◌++◌, map, reverse}
use schemahero.Base.Tests.{beq, leb, if◌then◌else◌}
use schemahero.Base.Lists.{length, drop}

abbrev pub Text : Type 0
Text = List ℕ

-- A literal of the source.
unfoldable pub lit : String → Text
lit String.[] = []
lit (String.◌∷◌ c s) = code c ∷ lit s

infix 50 ◌==◌
unfoldable pub ◌==◌ : Text → Text → Bool
[] == [] = true
[] == (_ ∷ _) = false
(_ ∷ _) == [] = false
(a ∷ s) == (b ∷ t) = beq a b && s == t

-- s == ""
abbrev pub is_empty : Text → Bool
is_empty [] = true
is_empty (_ ∷ _) = false

-- strings.Join, with the separator first
unfoldable pub join : Text → List Text → Text
join sep [] = []
join sep (x ∷ []) = x
join sep (x ∷ y ∷ r) = x ++ sep ++ join sep (y ∷ r)

unfoldable pub lower : ℕ → ℕ
lower c = if leb b'A' c && leb c b'Z' then c + 32 else c

unfoldable pub upper : ℕ → ℕ
upper c = if leb b'a' c && leb c b'z' then c - 32 else c

-- strings.ToLower, strings.ToUpper
unfoldable pub to_lower : Text → Text
unfolding lower
to_lower = map lower

unfoldable pub to_upper : Text → Text
unfolding upper
to_upper = map upper

-- '\t', '\n', '\v', '\f', '\r' and ' '
unfoldable pub is_space : ℕ → Bool
is_space c = beq c 32 || leb 9 c && leb c 13

unfoldable pub trim_left : Text → Text
unfolding is_space
trim_left [] = []
trim_left (c ∷ s) = if is_space c then trim_left s else c ∷ s

-- strings.TrimSpace
unfoldable pub trim_space : Text → Text
unfolding trim_left
trim_space s = reverse (trim_left (reverse (trim_left s)))

-- strings.HasPrefix(s, p), with the prefix first
unfoldable pub has_prefix : Text → Text → Bool
has_prefix [] s = true
has_prefix (_ ∷ _) [] = false
has_prefix (p ∷ ps) (c ∷ s) = beq p c && has_prefix ps s

-- strings.HasSuffix(s, p), with the suffix first
unfoldable pub has_suffix : Text → Text → Bool
unfolding has_prefix
has_suffix p s = has_prefix (reverse p) (reverse s)

-- strings.Index(s, p), with the text looked for first
unfoldable pub find : Text → Text → Option ℕ
unfolding has_prefix
find p [] = if has_prefix p [] then some 0 else none
find p (c ∷ s) =
    let later = find p s in
    if has_prefix p (c ∷ s) then some 0 else elim later [ none ↦ none | some n ↦ some (suc n) ]

-- strings.Contains(s, p), with the text looked for first
unfoldable pub contains : Text → Text → Bool
unfolding find
contains p s = elim (find p s) [ none ↦ false | some _ ↦ true ]

-- The loop of strings.ReplaceAll for a text `p ∷ ps` that is not empty; the number says how many
-- bytes of an occurrence are still to be skipped.
unfoldable pub replace_from : ℕ → Text → Text → ℕ → Text → Text
replace_from p ps new skip [] = []
replace_from p ps new (suc skip) (c ∷ s) = replace_from p ps new skip s
replace_from p ps new zero (c ∷ s) =
    let found = new ++ replace_from p ps new (length ps) s in
    let missed = c ∷ replace_from p ps new zero s in
    if has_prefix (p ∷ ps) (c ∷ s) then found else missed

-- strings.ReplaceAll; the program never replaces the empty text
unfoldable pub replace_all : Text → Text → Text → Text
unfolding replace_from has_prefix
replace_all [] new s = s
replace_all (p ∷ ps) new s = replace_from p ps new zero s

abbrev pub push_first : ℕ → List Text → List Text
push_first c [] = (c ∷ []) ∷ []
push_first c (x ∷ r) = (c ∷ x) ∷ r

-- strings.Split at one byte: always at least one part
unfoldable pub split : ℕ → Text → List Text
split sep [] = [] ∷ []
split sep (c ∷ s) = let rest = split sep s in if beq c sep then [] ∷ rest else push_first c rest

fields_from : Text → Text → List Text
fields_from [] [] = []
fields_from (w ∷ ws) [] = reverse (w ∷ ws) ∷ []
fields_from [] (c ∷ s) = fields_from (if is_space c then [] else c ∷ []) s
fields_from (w ∷ ws) (c ∷ s) =
    let closed = reverse (w ∷ ws) ∷ fields_from [] s in
    let longer = fields_from (c ∷ w ∷ ws) s in if is_space c then closed else longer

-- strings.Fields; the first argument of the loop is the current word, its last byte first
unfoldable pub fields : Text → List Text
unfolding fields_from is_space
fields = fields_from []
