-- ===== src/Base/Text/Escape.antt =====
-- The user information of an address, as net/url writes it.
use Prim.Native.Nat.{ℕ, ◌+◌, ◌-◌, ◌/◌, ◌%◌}
use mathlib.Core.Bool.{Bool, ◌&&◌, ◌||◌}
use mathlib.Core.List.{[], ◌∷◌, ◌++◌}
use schemahero.Base.Tests.{beq, leb, ltb, if◌then◌else◌}
use schemahero.Base.Text.{Text, lit}

-- The bytes that stand for themselves in a user name or a password.
unfoldable pub is_unescaped : ℕ → Bool
is_unescaped c =
    leb b'a' c && leb c b'z'
    || leb b'A' c && leb c b'Z'
    || leb b'0' c && leb c b'9'
    || beq c b'-'
    || beq c b'_'
    || beq c b'.'
    || beq c b'~'
    || beq c b'$'
    || beq c b'&'
    || beq c b'+'
    || beq c b','
    || beq c b';'
    || beq c b'='

abbrev pub hex_digit : ℕ → ℕ
hex_digit n = if ltb n 10 then b'0' + n else b'A' + (n - 10)

unfoldable pub escape : Text → Text
unfolding is_unescaped
escape [] = []
escape (c ∷ s) =
    let rest = escape s in
    if is_unescaped c then c ∷ rest else b'%' ∷ hex_digit (c / 16) ∷ hex_digit (c % 16) ∷ rest

-- url.UserPassword(user, password).String()
unfoldable pub user_info : Text → Text → Text
unfolding escape
user_info user password = escape user ++ lit ":" ++ escape password
