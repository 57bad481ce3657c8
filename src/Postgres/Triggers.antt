-- ===== src/Postgres/Triggers.antt =====
-- plugins/postgres/lib/trigger.go, with the names of functions of helpers.go
use schemahero.Base.{
  ℕ, zero, suc, ◌-◌, Bool, true, false, not, ◌&&◌, ◌||◌, List, [], ◌∷◌, ◌++◌, map, Option, none,
  some, if◌then◌else◌, beq, leb, length, take, drop,
}
use schemahero.Base.Text.{
  Text, lit, ◌==◌, is_empty, to_lower, trim_space, join, has_prefix, has_suffix, fields,
  replace_all,
}
use schemahero.Base.Result.{Result, ok, err, failed, wrap, collect, ◌>>=◌}
use schemahero.Mysql.AlterStatements.{quote}
use schemahero.Schema.Postgresql.{PostgresqlTableTrigger, PostgresqlTableTriggerExecute}
use schemahero.Postgres.Names.{Pgx, sanitize_table_name}
use schemahero.Postgres.Named.{Change, named_changes}
use schemahero.Postgres.Executables.{get_qualified_execute_name, qualified_in_schema}

abbrev temporal : Text → Option Text
temporal event =
    if has_prefix (lit "after") event
    then some (lit "after")
    else if has_prefix (lit "before") event
    then some (lit "before")
    else if has_prefix (lit "instead of") event
    then some (lit "instead of")
    else none

abbrev behind_temporal : Text → List Text
behind_temporal event = elim (temporal event) [
  | some word ↦ drop (length word) event ∷ []
  | none ↦ []
]

unfoldable pub event_parts : List Text → List Text
unfolding has_prefix trim_space to_lower
event_parts [] = []
event_parts (e ∷ es) = behind_temporal (trim_space (to_lower e)) ++ event_parts es

-- triggerEvent
unfoldable pub trigger_event : List Text → Result Text
unfolding has_prefix to_lower event_parts join
trigger_event [] = err (failed (lit "trigger missing events"))
trigger_event (e ∷ es) = elim (temporal (to_lower e)) [
  | none ↦ err (failed (lit "unable to parse trigger"))
  | some word ↦ ok (word ++ join (lit " or") (event_parts (e ∷ es)))
]

abbrev is_true : Option Bool → Bool
is_true none = false
is_true (some b) = b

abbrev condition_clause : Option Text → Text
condition_clause none = []
condition_clause (some c) = lit " when (" ++ c ++ lit ")"

abbrev qualified : PostgresqlTableTriggerExecute → Text
qualified e = get_qualified_execute_name e.name e.schema e.params

-- What the trigger runs
unfoldable pub execute_clause : Option PostgresqlTableTriggerExecute → Text → Result Text
unfolding get_qualified_execute_name
execute_clause none procedure = ok (lit " execute procedure " ++ procedure)
execute_clause (some e) procedure =
    if e.type == lit "Procedure"
    then if not (is_empty e.name)
      then ok (lit " execute procedure " ++ qualified e)
      else if not (is_empty procedure)
      then ok (lit " execute procedure " ++ procedure)
      else err (
          failed
            (lit "when using procedure execute type you have to define a procedure under execute"))
    else if e.type == lit "Function"
    then if is_empty e.name
      then err (
          failed
            (lit "when using function execute type you have to define a function under execute"))
      else ok (lit " execute function " ++ qualified e)
    else ok (lit " execute procedure " ++ procedure)

-- The loop of stripRedundantPublicSchema; the flag says that a boundary stands in front, and the
-- number how many bytes of a qualifier are still to be skipped.
abbrev starts_identifier : Text → Bool
starts_identifier [] = false
starts_identifier (c ∷ s) = leb b'a' c && leb c b'z' || leb b'A' c && leb c b'Z' || beq c b'_'

abbrev is_boundary : ℕ → Bool
is_boundary c = beq c 32 || beq c b'('

unfoldable pub strip_public_from : Bool → ℕ → Text → Text
unfolding has_prefix
strip_public_from boundary skip [] = []
strip_public_from boundary (suc skip) (c ∷ s) = strip_public_from (is_boundary c) skip s
strip_public_from boundary zero (c ∷ s) =
    let skipped = strip_public_from (is_boundary c) 6 s in
    let kept = c ∷ strip_public_from (is_boundary c) zero s in
    if boundary && has_prefix (lit "public.") (c ∷ s) && starts_identifier (drop 7 (c ∷ s))
    then skipped
    else kept

-- stripRedundantPublicSchema
unfoldable pub strip_redundant_public_schema : Text → Text
unfolding strip_public_from
strip_redundant_public_schema s = strip_public_from true zero s

abbrev without_semicolon : Text → Text
without_semicolon s = if has_suffix (lit ";") s then take (length s - 1) s else s

-- normalizeTriggerDefinition
unfoldable pub normalize_trigger_definition : Text → Text
unfolding to_lower replace_all fields join trim_space has_suffix strip_redundant_public_schema
normalize_trigger_definition def = strip_redundant_public_schema (
    replace_all (lit "execute procedure ") (lit "execute function ") (
      without_semicolon
        (trim_space (join (lit " ") (fields (replace_all (lit "\"") [] (to_lower def)))))))

-- pgTrigger
pub record PgTrigger : Type 0 where
  pub name : Text
  pub definition : Text

-- A declared trigger with its create statement
pub record Wanted : Type 0 where
  pub name : Text
  pub statement : Text

abbrev pub same_trigger : Wanted → PgTrigger → Bool
same_trigger w c =
    normalize_trigger_definition w.statement == normalize_trigger_definition c.definition

module _ (pgx : Pgx) where
  -- triggerCreateStatement
  unfoldable pub trigger_create_statement : PostgresqlTableTrigger → Text → Result Text
  unfolding trigger_event execute_clause sanitize_table_name quote
  trigger_create_statement t table_name = do
    event ← wrap (lit "failed to create trigger event syntax") (trigger_event t.events)
    execute ← execute_clause t.execute t.execute_procedure
    ok (
        lit "create "
        ++ (if is_true t.constraint_trigger then lit "constraint trigger" else lit "trigger")
        ++ lit " "
        ++ quote t.name
        ++ lit " "
        ++ event
        ++ lit " on "
        ++ sanitize_table_name pgx table_name
        ++ (if is_true t.for_each_row then lit " for each row" else lit " for each statement")
        ++ condition_clause t.condition
        ++ execute)

  -- dropTriggerStatement
  unfoldable pub drop_trigger_statement : Text → Text → Text
  unfolding sanitize_table_name
  drop_trigger_statement trigger_name table_name =
      lit "drop trigger if exists "
      ++ pgx.sanitize (trigger_name ∷ [])
      ++ lit " on "
      ++ sanitize_table_name pgx table_name

  -- The declared triggers; the deprecated list is taken where it has any.
  abbrev pub declared_triggers :
      List PostgresqlTableTrigger → List PostgresqlTableTrigger → List PostgresqlTableTrigger
  declared_triggers [] triggers = triggers
  declared_triggers (t ∷ ts) triggers = t ∷ ts

  -- What the loop over the declared triggers does with one before it is matched
  abbrev wanted_trigger : Text → PostgresqlTableTrigger → Result (List Wanted)
  wanted_trigger qualified_name t =
      if is_empty t.name
      then err (failed (lit "trigger requires a name to be managed on an existing table"))
      else do
        want ←
            wrap (lit "failed to create trigger statement")
              (trigger_create_statement t qualified_name)
        ok (record { name = t.name; statement = want } ∷ [])

  unfoldable pub wanted_triggers : Text → List PostgresqlTableTrigger → Result (List Wanted)
  unfolding collect trigger_create_statement
  wanted_triggers qualified_name triggers = collect (wanted_trigger qualified_name) triggers

  abbrev trigger_statement : Text → Change Wanted PgTrigger → Text
  trigger_statement table_name (Change.drop c) = drop_trigger_statement c.name table_name
  trigger_statement table_name (Change.create w) = w.statement

  -- What a list of changes is written as
  unfoldable pub trigger_statements : Text → List Wanted → List PgTrigger → List Text
  unfolding named_changes normalize_trigger_definition drop_trigger_statement
  trigger_statements table_name wanted currents =
      map (trigger_statement table_name)
        (named_changes (λ w. w.name) (λ c. c.name) same_trigger wanted currents)

  -- BuildTriggerStatements, over what ListTableTriggers returns
  unfoldable pub build_trigger_statements :
      Text
      → Text
      → List PostgresqlTableTrigger
      → List PostgresqlTableTrigger
      → Result (List PgTrigger)
      → Result (List Text)
  unfolding wanted_triggers trigger_statements qualified_in_schema
  build_trigger_statements table_name schema json_triggers triggers listed = do
    currents ← wrap (lit "failed to list table triggers") listed
    wanted ←
        wanted_triggers (qualified_in_schema schema table_name)
          (declared_triggers json_triggers triggers)
    ok (trigger_statements table_name wanted currents)
