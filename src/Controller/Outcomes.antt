-- ===== src/Controller/Outcomes.antt =====
-- Results of the reconcilers' operations, taken apart.
use schemahero.Base.{Bool, true, false, ◌&&◌, if◌then◌else◌, ◌≡◌, ◌⊎◌, inl, inr, refl}
use schemahero.Base.Text.{Text}
use schemahero.Base.Result.{Error, Result, ok, err, wrap}
use schemahero.Mysql.Deploy.Execute.{Executed, done, stopped, continue}
use schemahero.Controller.Migration.{with_result}

pub Result-cases {ℓ} :
    {A : Type ℓ} (r : Result A) → ((a : A) × (r ≡ ok a)) ⊎ ((e : Error) × (r ≡ err e))
Result-cases (ok a) = inl (a, refl)
Result-cases (err e) = inr (e, refl)

pub with_result-eq-done {ℓ} :
    {S : Type 0} {A : Type ℓ} (r : Result A) (s : S) (next : A → Executed S) {s' : S}
    → with_result r s next ≡ done s'
    → (a : A) × (r ≡ ok a) × (next a ≡ done s')
with_result-eq-done (ok a) s next h = (a, refl, h)
with_result-eq-done (err e) s next h = cc

pub wrap-eq-ok {ℓ} : {A : Type ℓ} (t : Text) (r : Result A) {a : A} → wrap t r ≡ ok a → r ≡ ok a
wrap-eq-ok t (ok a) h = h
wrap-eq-ok t (err e) h = cc

pub done_inj : {S : Type 0} {a b : S} → done a ≡ done b → a ≡ b
done_inj h = cc

pub stopped_not_done : {S : Type 0} {e : Error} {a b : S} → stopped e a ≡ done b → ⊥
stopped_not_done h = cc

pub continue-eq-done :
    {S : Type 0} (o : Executed S) (next : S → Executed S) {s' : S}
    → continue o next ≡ done s'
    → (u : S) × (o ≡ done u) × (next u ≡ done s')
continue-eq-done (done u) next h = (u, refl, h)
continue-eq-done (stopped e u) next h = cc

pub if-eq-ok :
    {A : Type 0} (b : Bool) (x y : A) (e : Error)
    → (if b then ok x else err e) ≡ ok y
    → (b ≡ true) × (x ≡ y)
if-eq-ok true x y e h = (refl, cc)
if-eq-ok false x y e h = cc

pub both : (a b : Bool) → (a && b) ≡ true → (a ≡ true) × (b ≡ true)
both true b h = (refl, h)
both false b h = cc
