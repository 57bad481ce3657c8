-- ===== src/Mysql/ColumnType/Tests.antt =====
-- Spellings from plugins/mysql/lib/parameterized_test.go and alias_test.go.
use schemahero.Base.{◌≡◌, refl, any}
use schemahero.Base.Text.{lit, ◌==◌, has_prefix, contains, replace_all}
use schemahero.Base.Text.Number.{itoa, atoi}
use schemahero.Base.Regex.{regex}
use schemahero.Base.Result.{ok, err, failed}
use schemahero.Mysql.ColumnType.{maybe_parse_parameterized_column_type}
use schemahero.Mysql.ColumnType.Alias.{
  unalias_unparameterized_column_type, unalias_parameterized_column_type,
}

parse_tests :
    (maybe_parse_parameterized_column_type (lit "varchar(255)") ≡ ok (lit "varchar (255)"))
    × (maybe_parse_parameterized_column_type (lit "character (36)") ≡ ok (lit "char (36)"))
    × (maybe_parse_parameterized_column_type (lit "int") ≡ ok (lit "int (11)"))
    × (maybe_parse_parameterized_column_type (lit "float(25)") ≡ ok (lit "double"))
    × (maybe_parse_parameterized_column_type (lit "decimal ( 8,  2 )") ≡ ok (lit "decimal (8, 2)"))
    × (maybe_parse_parameterized_column_type (lit "datetime(7)")
        ≡ err (failed (lit "invalid datetime precision 7")))
unfolding maybe_parse_parameterized_column_type lit has_prefix contains replace_all itoa atoi regex
parse_tests = (refl, refl, refl, refl, refl, refl)

alias_tests :
    (unalias_unparameterized_column_type (lit "bool") ≡ lit "tinyint (1)")
    × (unalias_unparameterized_column_type (lit "blob (65535)") ≡ lit "blob")
    × (unalias_parameterized_column_type (lit "integer (9)") ≡ lit "int (9)")
    × (unalias_parameterized_column_type (lit "dec(7)") ≡ lit "decimal (7, 0)")
unfolding unalias_unparameterized_column_type unalias_parameterized_column_type lit ◌==◌ any
    has_prefix contains replace_all regex
alias_tests = (refl, refl, refl, refl)
