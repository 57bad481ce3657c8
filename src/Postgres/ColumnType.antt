-- ===== src/Postgres/ColumnType.antt =====
-- plugins/postgres/lib/parameterized.go and alias.go: the spelling of column types.
pub mod Tests
use schemahero.Base.{
  ℕ, Bool, true, false, not, ◌||◌, List, [], ◌∷◌, ◌++◌, Option, none, some, if◌then◌else◌, any, beq,
}
use schemahero.Base.Text.{Text, lit, ◌==◌, has_prefix}
use schemahero.Base.Text.Number.{itoa, atoi}
use schemahero.Base.Regex.{
  Atom, byte, many, group, bytes, is_blank, find_submatch, one_number, spaced_number, two_numbers,
}
use schemahero.Base.Result.{Result, ok, err, failed, bad_number, ◌>>=◌}

abbrev pub unparameterized_column_types : List Text
unparameterized_column_types =
    lit "bigint"
    ∷ lit "bigserial"
    ∷ lit "boolean"
    ∷ lit "box"
    ∷ lit "bytea"
    ∷ lit "cidr"
    ∷ lit "circle"
    ∷ lit "citext"
    ∷ lit "date"
    ∷ lit "double precision"
    ∷ lit "inet"
    ∷ lit "integer"
    ∷ lit "json"
    ∷ lit "jsonb"
    ∷ lit "line"
    ∷ lit "lseg"
    ∷ lit "macaddr"
    ∷ lit "money"
    ∷ lit "path"
    ∷ lit "pg_lsn"
    ∷ lit "point"
    ∷ lit "polygon"
    ∷ lit "real"
    ∷ lit "smallint"
    ∷ lit "smallserial"
    ∷ lit "serial"
    ∷ lit "text"
    ∷ lit "tsquery"
    ∷ lit "tsvector"
    ∷ lit "txid_snapshot"
    ∷ lit "uuid"
    ∷ lit "xml"
    ∷ []

unfoldable pub is_unparameterized : Text → Bool
unfolding any
is_unparameterized t = any (λ k. k == t) unparameterized_column_types

-- isParameterizedColumnType
unfoldable pub is_parameterized_column_type : Text → Bool
unfolding is_unparameterized
is_parameterized_column_type requested = not (is_unparameterized requested)

-- The switch of unaliasUnparameterizedColumnType.
abbrev pub unaliased : Text → Option Text
unaliased t =
    if t == lit "int8"
    then some (lit "bigint")
    else if t == lit "serial8"
    then some (lit "bigserial")
    else if t == lit "bool"
    then some (lit "boolean")
    else if t == lit "float8"
    then some (lit "double precision")
    else if t == lit "int" || t == lit "int4"
    then some (lit "integer")
    else if t == lit "float4"
    then some (lit "real")
    else if t == lit "int2"
    then some (lit "smallint")
    else if t == lit "serial2"
    then some (lit "smallserial")
    else if t == lit "serial4"
    then some (lit "serial")
    else none

-- unaliasUnparameterizedColumnType; a result of "" means that the type is no alias
unfoldable pub unalias_unparameterized_column_type : Text → Text
unfolding is_unparameterized
unalias_unparameterized_column_type t = elim (unaliased t) [
  | some u ↦ u
  | none ↦ if is_unparameterized t then t else []
]

-- .
unfoldable pub in_line : ℕ → Bool
in_line c = not (beq c b'\n')

-- word\s*\(\s*(.*)\s*\)rest
unfoldable pub precision_then : Text → List Atom → List Atom
precision_then word rest =
    bytes word
    ++ many is_blank ∷ byte b'(' ∷ many is_blank ∷ group in_line ∷ many is_blank ∷ byte b')' ∷ rest

-- \s*zone
abbrev zone_atoms : Text → List Atom
zone_atoms zone = many is_blank ∷ bytes zone

-- The groups of a match with what stands in front of and behind the first one.
abbrev around : Text → Text → Text → Option (List Text) → Text
around before behind default (some (g ∷ _)) = before ++ lit " (" ++ g ++ lit ")" ++ behind
around before behind default _ = default

abbrev numeric_like : Text → Text → Text → Text
numeric_like word name t = elim (find_submatch (two_numbers word) t) [
  | some (precision ∷ scale ∷ _) ↦ name ++ lit " (" ++ precision ++ lit ", " ++ scale ++ lit ")"
  | _ ↦ around name [] name (find_submatch (spaced_number word) t)
]

-- unaliasParameterizedColumnType
unfoldable pub unalias_parameterized_column_type : Text → Text
unfolding precision_then has_prefix find_submatch
unalias_parameterized_column_type t =
    if has_prefix (lit "varbit") t
    then around (lit "bit varying") [] (lit "bit varying")
        (find_submatch (one_number (lit "varbit")) t)
    else if has_prefix (lit "char ") t
        || has_prefix (lit "char(") t
        || t == lit "character"
        || t == lit "char"
    then around (lit "character") [] (lit "character") (find_submatch (one_number (lit "char")) t)
    else if has_prefix (lit "varchar") t
    then around (lit "character varying") [] (lit "character varying")
        (find_submatch (spaced_number (lit "varchar")) t)
    else if has_prefix (lit "decimal") t
    then numeric_like (lit "decimal") (lit "numeric") t
    else if has_prefix (lit "timetz") t
    then around (lit "time") (lit " with time zone") (lit "time with time zone")
        (find_submatch (precision_then (lit "timetz") []) t)
    else if has_prefix (lit "timestamptz") t
    then around (lit "timestamp") (lit " with time zone") (lit "timestamp with time zone")
        (find_submatch (precision_then (lit "timestamptz") []) t)
    else []

-- One branch for a type with a size, which is 1 where it is missing.
unfoldable pub sized : Text → Text → Result Text
sized word t = elim (find_submatch (one_number word) t) [
  | some (digits ∷ _) ↦ elim (atoi digits) [
    | some n ↦ ok (word ++ lit " (" ++ itoa n ++ lit ")")
    | none ↦ err (bad_number digits)
  ]
  | _ ↦ ok (word ++ lit " (1)")
]

abbrev without_zone : Text
without_zone = lit "without time zone"

abbrev with_zone : Text
with_zone = lit "with time zone"

-- The branch of timestamp.
unfoldable pub timestamp_type : Text → Text
unfolding precision_then
timestamp_type t =
    let word = lit "timestamp" in
    elim (find_submatch (precision_then word (zone_atoms without_zone)) t) [
      | some (p ∷ _) ↦ word ++ lit " (" ++ p ++ lit ") without time zone"
      | _ ↦ elim (find_submatch (bytes word ++ zone_atoms without_zone) t) [
        | some _ ↦ lit "timestamp without time zone"
        | none ↦ elim (find_submatch (precision_then word (zone_atoms with_zone)) t) [
          | some (p ∷ _) ↦ word ++ lit " (" ++ p ++ lit ") with time zone"
          | _ ↦ elim (find_submatch (bytes word ++ zone_atoms with_zone) t) [
            | some _ ↦ lit "timestamp with time zone"
            | none ↦ around word [] word (find_submatch (precision_then word []) t)
          ]
        ]
      ]
    ]

-- The branch of time. The source looks for a precision with a time zone behind `timestamp`, and where
-- it finds one it reads a group that is not there, which stops the program: an error here.
unfoldable pub time_type : Text → Result Text
unfolding precision_then
time_type t =
    let word = lit "time" in
    elim (find_submatch (precision_then word (zone_atoms without_zone)) t) [
      | some (p ∷ _) ↦ ok (word ++ lit " (" ++ p ++ lit ") without time zone")
      | _ ↦ elim (find_submatch (bytes word ++ zone_atoms without_zone) t) [
        | some _ ↦ ok (lit "time without time zone")
        | none ↦ elim (find_submatch (precision_then (lit "timestamp") (zone_atoms with_zone)) t) [
          | some _ ↦ err (failed (lit "index out of range"))
          | none ↦ elim (find_submatch (bytes word ++ zone_atoms with_zone) t) [
            | some _ ↦ ok (lit "time with time zone")
            | none ↦ ok (around word [] word (find_submatch (precision_then word []) t))
          ]
        ]
      ]
    ]

-- maybeParseParameterizedColumnType; a result of "" means that the type is not known
unfoldable pub maybe_parse_parameterized_column_type : Text → Result Text
unfolding sized timestamp_type time_type has_prefix find_submatch
maybe_parse_parameterized_column_type t =
    if has_prefix (lit "bit varying") t
    then sized (lit "bit varying") t
    else if has_prefix (lit "bit") t
    then sized (lit "bit") t
    else if has_prefix (lit "character varying") t
    then sized (lit "character varying") t
    else if has_prefix (lit "character") t
    then sized (lit "character") t
    else if has_prefix (lit "timestamp") t
    then ok (timestamp_type t)
    else if has_prefix (lit "time") t
    then time_type t
    else if has_prefix (lit "numeric") t
    then ok (numeric_like (lit "numeric") (lit "numeric") t)
    else if has_prefix (lit "vector") t
    then ok
        (around (lit "vector") [] (lit "vector") (find_submatch (spaced_number (lit "vector")) t))
    else ok []
