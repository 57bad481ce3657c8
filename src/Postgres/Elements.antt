-- ===== src/Postgres/Elements.antt =====
-- plugins/postgres/lib/helpers.go: reading the elements of an index off its definition.
use schemahero.Base.{
  ℕ, ◌+◌, ◌-◌, Bool, false, not, ◌&&◌, ◌||◌, List, [], ◌∷◌, map, Option, none, some, if◌then◌else◌,
  any, beq, keep,
}
use schemahero.Base.Text.{
  Text, lit, ◌==◌, is_empty, to_lower, to_upper, trim_space, contains, fields,
}
use schemahero.Types.Indexes.{IndexColumn}

abbrev put_first : ℕ → Option Text → Option Text
put_first c none = none
put_first c (some s) = some (c ∷ s)

-- What stands in front of the bracket that closes the first one; the number counts the open ones
-- besides the first.
unfoldable pub to_closing : ℕ → Text → Option Text
to_closing depth [] = none
to_closing depth (c ∷ s) =
    let opened = put_first c (to_closing (depth + 1) s) in
    let closed = put_first c (to_closing (depth - 1) s) in
    let same = put_first c (to_closing depth s) in
    if beq c b'('
    then opened
    else if beq c b')'
    then if beq depth 0 then some [] else closed
    else same

-- extractIndexElementList
unfoldable pub extract_index_element_list : Text → Text
unfolding to_closing
extract_index_element_list [] = []
extract_index_element_list (c ∷ s) =
    let later = extract_index_element_list s in
    if beq c b'(' then elim (to_closing 0 s) [ some body ↦ body | none ↦ [] ] else later

abbrev extend_first : ℕ → List Text → List Text
extend_first c [] = (c ∷ []) ∷ []
extend_first c (p ∷ ps) = (c ∷ p) ∷ ps

-- A Go `int`, which a bracket that closes none brings below zero: so many more opened than closed, or
-- closed than opened.
pub data Depth : Type 0 where
  above : ℕ → Depth
  below : ℕ → Depth

abbrev pub deeper : Depth → Depth
deeper (above n) = above (n + 1)
deeper (below n) = if beq n 1 then above 0 else below (n - 1)

abbrev pub shallower : Depth → Depth
shallower (above n) = if beq n 0 then below 1 else above (n - 1)
shallower (below n) = below (n + 1)

abbrev pub is_top_level : Depth → Bool
is_top_level (above n) = beq n 0
is_top_level (below n) = false

unfoldable pub split_from : Depth → Text → List Text
split_from depth [] = [] ∷ []
split_from depth (c ∷ s) =
    let opened = extend_first c (split_from (deeper depth) s) in
    let closed = extend_first c (split_from (shallower depth) s) in
    let same = split_from depth s in
    if beq c b'('
    then opened
    else if beq c b')'
    then closed
    else if beq c b',' && is_top_level depth
    then [] ∷ same
    else extend_first c same

-- splitTopLevelCommas
unfoldable pub split_top_level_commas : Text → List Text
unfolding split_from
split_top_level_commas s = split_from (above 0) s

abbrev has_blank : Text → Bool
has_blank e = any (λ c. beq c 32 || beq c 9) e

abbrev is_expression : Text → Bool
is_expression e = contains (lit "(") e

abbrev is_ordering_word : Text → Bool
is_ordering_word w =
    w == lit "asc" || w == lit "desc" || w == lit "nulls" || w == lit "first" || w == lit "last"

-- The first word that does not belong to the ordering
abbrev op_class_of : List Text → Text
op_class_of [] = []
op_class_of (w ∷ ws) = if is_ordering_word (to_lower w) then op_class_of ws else to_lower w

-- parseSortedColumnElement
unfoldable pub parse_sorted_column_element : Text → IndexColumn
unfolding fields to_lower to_upper contains
parse_sorted_column_element element = elim (fields element) [
  | [] ↦ record { column = []; op_class = []; sort = []; nulls = [] }
  | column ∷ words ↦ record {
    column = column;
    op_class = op_class_of words;
    sort =
        if contains (lit " DESC") (to_upper element)
        then lit "DESC"
        else if contains (lit " ASC") (to_upper element)
        then lit "ASC"
        else [];
    nulls =
        if contains (lit "NULLS FIRST") (to_upper element)
        then lit "FIRST"
        else if contains (lit "NULLS LAST") (to_upper element)
        then lit "LAST"
        else [];
  }
]

abbrev is_ordered_column : Text → Bool
is_ordered_column e =
    not (is_expression e)
    && has_blank (to_upper e)
    && (contains (lit " ASC") (to_upper e)
        || contains (lit " DESC") (to_upper e)
        || contains (lit "NULLS") (to_upper e))

-- parseIndexElements on the trimmed elements
unfoldable pub classify_elements : List Text → List IndexColumn × List Text
unfolding any contains keep to_upper parse_sorted_column_element
classify_elements es =
    if not (any (λ e. is_expression e || has_blank e) es)
    then ([], [])
    else if any is_expression es
        && any (λ e. not (is_expression e)) es
        && not (any is_ordered_column es)
    then ([], es)
    else (
      map parse_sorted_column_element (keep (λ e. not (is_expression e)) es),
      keep is_expression es,
    )

-- parseIndexElements
unfoldable pub parse_index_elements : Text → List IndexColumn × List Text
unfolding extract_index_element_list split_top_level_commas trim_space classify_elements
parse_index_elements index_def =
    let body = extract_index_element_list index_def in
    if is_empty body
    then ([], [])
    else classify_elements (map trim_space (split_top_level_commas body))
