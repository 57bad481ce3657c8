-- ===== src/Postgres/ColumnType/Tests.antt =====
-- Spellings of column types.
use schemahero.Base.{◌≡◌, refl}
use schemahero.Base.Text.{lit, ◌==◌}
use schemahero.Base.Text.Number.{itoa, atoi}
use schemahero.Base.Regex.{regex}
use schemahero.Base.Result.{ok}
use schemahero.Postgres.ColumnType.{
  unalias_unparameterized_column_type, unalias_parameterized_column_type,
  maybe_parse_parameterized_column_type, in_line,
}

alias_int4 : unalias_unparameterized_column_type (lit "int4") ≡ lit "integer"
unfolding unalias_unparameterized_column_type lit ◌==◌
alias_int4 = refl

alias_timetz : unalias_parameterized_column_type (lit "timetz(3)") ≡ lit "time (3) with time zone"
unfolding unalias_parameterized_column_type lit ◌==◌ regex in_line
alias_timetz = refl

-- The zone of a time with a precision is lost.
zone_lost :
    maybe_parse_parameterized_column_type (lit "time (3) with time zone") ≡ ok (lit "time (3)")
unfolding maybe_parse_parameterized_column_type lit regex in_line
zone_lost = refl

zone_kept :
    maybe_parse_parameterized_column_type (lit "timestamp (3) with time zone")
    ≡ ok (lit "timestamp (3) with time zone")
unfolding maybe_parse_parameterized_column_type lit regex in_line
zone_kept = refl

sized_character :
    maybe_parse_parameterized_column_type (lit "character varying (10)")
    ≡ ok (lit "character varying (10)")
unfolding maybe_parse_parameterized_column_type lit regex itoa atoi
sized_character = refl
