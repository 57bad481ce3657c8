-- ===== src/Database/Ddl.antt =====
-- GetStatementsFromDDL of pkg/database/database.go: the text of a migration, split into statements.
pub mod RoundTrip
use schemahero.Base.{ℕ, Bool, true, false, not, ◌&&◌, ◌||◌, List, [], ◌∷◌, ◌++◌, beq, if◌then◌else◌}
use schemahero.Base.Text.{Text, lit, ◌==◌, is_empty, split, trim_space, has_suffix, contains}
use schemahero.Types.Canonical.{span}

-- The variables of the loop; an empty tag says that no dollar quote is open.
pub record Scanner : Type 0 where
  pub function_tag_open : Bool
  pub dollar_quote_tag : Text
  pub statement : Text

abbrev before_dollar : Text → Text × Text
before_dollar = span (λ c. not (beq c b'$'))

tag_until : Text → Text → Text
tag_until name [] = []
tag_until name (_ ∷ after) =
    let tag = lit "$" ++ name ++ lit "$" in if contains tag after then [] else tag

tag_from : Text → Text
unfolding tag_until span
tag_from [] = []
tag_from (_ ∷ s) = let (name, r) = before_dollar s in tag_until name r

-- The tag that a line opens: from the first dollar sign to the next one, unless it stands on the line
-- once more.
unfoldable pub opened_tag : Text → Text
unfolding tag_from span
opened_tag line = tag_from (before_dollar line).1

unfoldable pub next_tag : Text → Text → Text
unfolding opened_tag
next_tag [] line = opened_tag line
next_tag (c ∷ tag) line = if contains (c ∷ tag) line then [] else c ∷ tag

unfoldable pub next_function_tag : Bool → Text → Bool
next_function_tag is_open line =
    if line == lit "-- Function body follows" then not is_open else is_open

-- A line that is not blank: the state behind it, and the statement that it ends. The flag says that
-- it is the last line of all.
unfoldable pub read_text_line : Bool → Scanner → Text → Scanner × List Text
unfolding next_tag next_function_tag
read_text_line last s line =
    let tag = next_tag s.dollar_quote_tag line in
    let is_open = next_function_tag s.function_tag_open line in
    let statement = s.statement ++ lit " " ++ line in
    if not is_open && is_empty tag && (last || has_suffix (lit ";") line)
    then (
      record { function_tag_open = is_open; dollar_quote_tag = tag; statement = [] },
      trim_space statement ∷ [],
    )
    else (record { function_tag_open = is_open; dollar_quote_tag = tag; statement = statement }, [])

-- One round of the loop.
unfoldable pub read_line : Bool → Scanner → Text → Scanner × List Text
unfolding read_text_line
read_line last s line =
    if is_empty (trim_space line) then (s, []) else read_text_line last s (trim_space line)

abbrev is_last : List Text → Bool
is_last [] = true
is_last (_ ∷ _) = false

unfoldable pub read_lines : Scanner → List Text → List Text
unfolding read_line
read_lines s [] = if is_empty s.statement then [] else trim_space s.statement ∷ []
read_lines s (line ∷ lines) =
    let (next, out) = read_line (is_last lines) s line in out ++ read_lines next lines

abbrev pub fresh : Scanner
fresh = record { function_tag_open = false; dollar_quote_tag = []; statement = [] }

-- GetStatementsFromDDL
unfoldable pub get_statements_from_ddl : Text → List Text
unfolding read_lines
get_statements_from_ddl ddl = read_lines fresh (split b'\n' ddl)
