-- ===== src/Types/Names/Bounds.antt =====
-- The generated identifiers fit the servers' limits.
use schemahero.Base.{
  ℕ, ◌+◌, ◌-◌, ◌≤◌, ◌≡◌, ◌++◌, length, length-append, length-take, take, arith, if◌then◌else◌, leb,
}
use schemahero.Base.Text.{Text, lit, join}
use schemahero.Schema.Mysql.{MysqlTableIndex}
use schemahero.Types.Names.{Digest, cap_postgres_identifier, generate_mysql_index_name}

-- Cut to `n` bytes if it is longer.
length-cap : (n : ℕ) (s t : Text) → length t ≤ n → length (if leb (length s) n then s else t) ≤ n
length-cap n s t h = ground arith

-- The first `n - k - 1` bytes, a separator and a suffix of `k`.
length-suffixed :
    (n k : ℕ) (s sep t : Text)
    → length t ≡ k
    → length sep ≡ 1
    → k + 1 ≤ n
    → length (take (n - length t - 1) s ++ sep ++ t) ≤ n
length-suffixed n k s sep t h hs le = omega (
  arith,
  length-append (take (n - length t - 1) s ++ sep) t,
  length-append (take (n - length t - 1) s) sep,
  length-take (n - length t - 1) s,
)

-- Every identifier that the cap for PostgreSQL returns has at most 63 bytes, where a digest has 64.
pub length-cap_postgres_identifier :
    (sha256 : Digest) (name : Text) → length (cap_postgres_identifier sha256 name) ≤ 63
unfolding cap_postgres_identifier lit
length-cap_postgres_identifier sha256 name = length-cap 63 name _ (
    length-suffixed 63 8 name (lit "_") (take 8 (sha256.hex name))
      (omega (arith, length-take 8 (sha256.hex name), sha256.length-hex name)) (omega arith)
      (omega arith))

-- Every generated MySQL index name has at most 64 bytes.
pub length-generate_mysql_index_name :
    (table_name : Text) (index : MysqlTableIndex)
    → length (generate_mysql_index_name table_name index) ≤ 64
unfolding generate_mysql_index_name
length-generate_mysql_index_name table_name index =
    let name = lit "idx_" ++ table_name ++ lit "_" ++ join (lit "_") index.columns in
    length-cap 64 name (take 64 name) (omega (arith, length-take 64 name))
