-- ===== src/Database/Outcome.antt =====
-- What a Go function that may panic gives, for pkg/apis/databases/v1alpha4.
use schemahero.Base.Text.{Text}
use schemahero.Base.Result.{Error, Result, ok, err, wrapped}

-- A Go call with an error result that may also panic.
pub data Outcome {ℓ} (A : Type ℓ) : Type ℓ where
  returned : A → Outcome A
  raised : Error → Outcome A
  panicked : Outcome A

infixl 5 ◌>>=◌
abbrev pub ◌>>=◌ {ℓ κ} : {A : Type ℓ} {B : Type κ} → Outcome A → (A → Outcome B) → Outcome B
returned a >>= f = f a
raised e >>= f = raised e
panicked >>= f = panicked

abbrev pub annotate {ℓ} : {A : Type ℓ} → Text → Outcome A → Outcome A
annotate msg (returned a) = returned a
annotate msg (raised e) = raised (wrapped msg e)
annotate msg panicked = panicked

abbrev pub lift_result {ℓ} : {A : Type ℓ} → Text → Result A → Outcome A
lift_result msg (ok a) = returned a
lift_result msg (err e) = raised (wrapped msg e)

abbrev pub as_outcome {ℓ} : {A : Type ℓ} → Result A → Outcome A
as_outcome (ok a) = returned a
as_outcome (err e) = raised e
