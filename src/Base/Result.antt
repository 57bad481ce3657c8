-- ===== src/Base/Result.antt =====
-- Go's `(value, error)` results. An error keeps the messages that the source writes, and the place
-- where it began.
use mathlib.Core.List.{List, [], ◌∷◌, ◌++◌}
use schemahero.Base.Text.{Text}

pub data Error : Type 0 where
  -- errors.New, errors.Errorf, fmt.Errorf
  failed : Text → Error
  -- errors.Wrap, errors.Wrapf
  wrapped : Text → Error → Error
  -- strconv.Atoi
  bad_number : Text → Error
  -- reported by a database server, by its driver or by the API server
  refused : Text → Error
  not_found : Error
  conflict : Error

pub data Result {ℓ} (A : Type ℓ) : Type ℓ where
  ok : A → Result A
  err : Error → Result A

infixl 5 ◌>>=◌
abbrev pub ◌>>=◌ {ℓ κ} : {A : Type ℓ} {B : Type κ} → Result A → (A → Result B) → Result B
ok a >>= f = f a
err e >>= f = err e

abbrev pub wrap {ℓ} : {A : Type ℓ} → Text → Result A → Result A
wrap msg (ok a) = ok a
wrap msg (err e) = err (wrapped msg e)

-- Runs `f` on each element in order, up to the first failure, and joins the lists that it returns.
unfoldable pub collect {ℓ κ} :
    {A : Type ℓ} {B : Type κ} → (A → Result (List B)) → List A → Result (List B)
collect f [] = ok []
collect f (x ∷ xs) = let later = collect f xs in do bs ← f x; rest ← later; ok (bs ++ rest)
