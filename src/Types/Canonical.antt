-- ===== src/Types/Canonical.antt =====
-- pkg/database/types/canonical.go: the comparison form of an SQL expression. A position in the text
-- is the text that is left there; a function that returns the index behind a token returns the token
-- and what is left.
pub mod Shape
pub mod Fuel
use Prim.Native.Nat.{zero, suc, pred}
use mathlib.Core.List.{reverse}
use schemahero.Base.{
  ℕ, ◌+◌, Bool, true, false, ◌&&◌, ◌||◌, [], ◌∷◌, ◌++◌, beq, leb, ltb, if◌then◌else◌, length, any,
  drop, not, ◌≡◌, refl,
}
use schemahero.Base.Text.{Text, lit, ◌==◌, is_empty, to_lower, trim_space, replace_all, has_prefix}

-- The longest prefix whose bytes pass the test, and the rest.
unfoldable pub span : (ℕ → Bool) → Text → Text × Text
span p [] = ([], [])
span p (c ∷ s) = let (w, r) = span p s in if p c then (c ∷ w, r) else ([], c ∷ s)

abbrev is_digit : ℕ → Bool
is_digit c = leb b'0' c && leb c b'9'

is_word_byte : ℕ → Bool
is_word_byte c = leb b'a' c && leb c b'z' || leb b'A' c && leb c b'Z' || is_digit c || beq c b'_'

abbrev is_space_or_tab : ℕ → Bool
is_space_or_tab c = beq c b' ' || beq c b'\t'

-- consumeWord
consume_word : Text → Text × Text
unfolding span is_word_byte
consume_word = span is_word_byte

-- typeContinuationWords
is_type_continuation_word : Text → Bool
unfolding any
is_type_continuation_word w =
    any (λ k. w == k)
      (lit "varying" ∷ lit "precision" ∷ lit "with" ∷ lit "without" ∷ lit "time" ∷ lit "zone" ∷ [])

-- "::schema.type"
qualified_word : Text → Text × Text
unfolding consume_word
qualified_word [] = ([], [])
qualified_word (c ∷ s) =
    let (w, r) = consume_word s in
    if beq c b'.' then if is_empty w then ([], c ∷ s) else (c ∷ w, r) else ([], c ∷ s)

-- The loop over the words that extend a type; each round takes a byte at least.
continuation_words : ℕ → Text → Text × Text
unfolding is_type_continuation_word consume_word span
continuation_words zero s = ([], s)
continuation_words (suc f) s =
    let (blank, r) = span is_space_or_tab s in
    let (w, r') = consume_word r in
    let (more, last) = continuation_words f r' in
    if is_empty w
    then ([], s)
    else if is_type_continuation_word (to_lower w)
    then (blank ++ w ++ more, last)
    else ([], s)

abbrev depth_after : ℕ → ℕ → ℕ
depth_after depth c = if beq c b'(' then depth + 1 else if beq c b')' then pred depth else depth

-- From an opening bracket, read at depth 0, to the one that closes it or to the end of the text.
balanced : ℕ → Text → Text × Text
balanced depth [] = ([], [])
balanced depth (c ∷ s) =
    let (t, r) = balanced (depth_after depth c) s in
    if beq c b')' && beq depth 1 then (c ∷ [], s) else (c ∷ t, r)

modifier : Text → Text × Text
unfolding balanced
modifier [] = ([], [])
modifier (c ∷ s) = let (t, r) = balanced 0 (c ∷ s) in if beq c b'(' then (t, r) else ([], c ∷ s)

-- "[]" markers; the flag says that a bracket is open
array_markers : Bool → Text → Text × Text
array_markers inside [] = ([], [])
array_markers inside (c ∷ s) =
    let next = if inside then not (beq c b']') else true in
    let (t, r) = array_markers next s in if inside || beq c b'[' then (c ∷ t, r) else ([], c ∷ s)

-- skipTypeToken
skip_type_token : Text → Text × Text
unfolding consume_word qualified_word continuation_words modifier array_markers
skip_type_token s =
    let (word, r) = consume_word s in
    let (qualifier, r') = qualified_word r in
    let (more, r'') = continuation_words (length r') r' in
    let (params, r''') = modifier r'' in
    let (markers, last) = array_markers false r''' in
    (word ++ qualifier ++ more ++ params ++ markers, last)

-- The text before the first opening bracket.
abbrev before_bracket : Text → Text
before_bracket t = (span (λ c. if beq c b'(' then false else true) t).0

-- isNumericCastType
is_numeric_cast_type : Text → Bool
unfolding any span
is_numeric_cast_type t =
    any (λ k. trim_space (before_bracket (trim_space t)) == k)
      (lit "smallint"
        ∷ lit "integer"
        ∷ lit "int"
        ∷ lit "int2"
        ∷ lit "int4"
        ∷ lit "int8"
        ∷ lit "bigint"
        ∷ lit "numeric"
        ∷ lit "decimal"
        ∷ lit "real"
        ∷ lit "double precision"
        ∷ lit "float"
        ∷ lit "float4"
        ∷ lit "float8"
        ∷ [])

-- The loop of isNumericLiteral over the digits and dots seen so far.
numeric_from : ℕ → ℕ → Text → Bool
numeric_from digits dots [] = ltb 0 digits
numeric_from digits dots (c ∷ s) =
    let more =
      numeric_from (if is_digit c then digits + 1 else digits)
        (if is_digit c then dots else dots + 1) s in
    if is_digit c then more else if beq c b'.' then if beq dots 0 then more else false else false

-- isNumericLiteral
is_numeric_literal : Text → Bool
unfolding numeric_from
is_numeric_literal [] = false
is_numeric_literal (c ∷ s) =
    if beq c b'+' || beq c b'-' then numeric_from 0 0 s else numeric_from 0 0 (c ∷ s)

abbrev unquoted : Text → Text → Text → Text
unquoted out content [] = out
unquoted out content (_ ∷ before) =
    if is_numeric_literal (reverse content) then content ++ before else out

-- unquoteTrailingNumericLiteral, on the bytes written so far with the last one first
unquote_trailing_numeric_literal : Text → Text
unfolding is_numeric_literal span
unquote_trailing_numeric_literal [] = []
unquote_trailing_numeric_literal (c ∷ out) =
    let (content, r) = span (λ b. if beq b b'\'' then false else true) out in
    if beq c b'\'' then unquoted (c ∷ out) content r else c ∷ out

-- One round of the loop of stripTypeCasts at a byte: what is written, last byte first, and what is
-- left to read.
strip_round : Text → ℕ → Text → Text × Text
unfolding skip_type_token is_numeric_cast_type unquote_trailing_numeric_literal has_prefix
strip_round out c s =
    let (type, r) = skip_type_token (drop 1 s) in
    let kept = if is_numeric_cast_type type then unquote_trailing_numeric_literal out else out in
    if beq c b':' && has_prefix (lit ":") s then (kept, r) else (c ∷ out, s)

-- Each round reads a byte at least.
pub strip_from : ℕ → Text → Text → Text
strip_from zero out s = reverse out
strip_from (suc f) out [] = reverse out
strip_from (suc f) out (c ∷ s) = let (out', r) = strip_round out c s in strip_from f out' r

-- stripTypeCasts
unfoldable pub strip_type_casts : Text → Text
unfolding strip_from strip_round
strip_type_casts s = strip_from (length s) [] s

abbrev pub is_paren : ℕ → Bool
is_paren c = beq c b'(' || beq c b')'

abbrev pub is_gap : ℕ → Bool
is_gap c = beq c b' ' || beq c b'\t' || beq c b'\n' || beq c b'\r'

-- The loop of CanonicalizeSQLExpr: `started` says that something is written, `pending` that a gap
-- was read since.
unfoldable pub collapse : Bool → Bool → Text → Text
collapse started pending [] = []
collapse started pending (c ∷ s) =
    let plain = not (is_paren c) && not (is_gap c) in
    let rest = collapse (started || plain) (if plain then false else pending || is_gap c) s in
    if plain then if pending && started then b' ' ∷ c ∷ rest else c ∷ rest else rest

-- CanonicalizeSQLExpr
unfoldable pub canonicalize_sql_expr : Text → Text
unfolding strip_type_casts collapse to_lower trim_space replace_all
canonicalize_sql_expr s =
    let out = trim_space (collapse false false (strip_type_casts (to_lower s))) in
    replace_all (lit " ,") (lit ",") (replace_all (lit ", ") (lit ",") out)

canonical_tests :
    (canonicalize_sql_expr (lit "Lower((email)::text)") ≡ lit "loweremail")
    × (canonicalize_sql_expr (lit "x >= '-273'::integer AND y") ≡ lit "x >= -273 and y")
    × (canonicalize_sql_expr (lit "x = ANY (ARRAY['a'::character varying(3), 'b'::text[]])")
        ≡ lit "x = any array['a','b']")
unfolding canonicalize_sql_expr lit ◌==◌
canonical_tests = (refl, refl, refl)
