-- ===== src/Base/Text/Order.antt =====
-- The order of Go strings.
use mathlib.Core.Bool.{Bool, true, false}
use mathlib.Core.List.{[], ◌∷◌}
use schemahero.Base.Tests.{beq, ltb, if◌then◌else◌}
use schemahero.Base.Text.{Text}

-- a < b for strings: byte by byte
unfoldable pub text_less : Text → Text → Bool
text_less [] [] = false
text_less [] (_ ∷ _) = true
text_less (_ ∷ _) [] = false
text_less (a ∷ s) (b ∷ t) =
    let rest = text_less s t in if ltb a b then true else if beq a b then rest else false
