-- ===== src/Mysql/Deploy/Execute.antt =====
-- executeStatements and DeployMysqlStatements of plugins/mysql/lib/deploy.go. The server's part is a
-- step function on its state: a statement is executed, or refused with an error.
use schemahero.Base.{List, [], ◌∷◌, ◌++◌, ◌≡◌, ◌≢◌, refl, ◌∙◌, ap, ◌⊎◌, inl, inr}
use schemahero.Base.Text.{Text}
use schemahero.Base.Result.{Error, Result, ok, err}

pub data Executed {ℓ} (S : Type ℓ) : Type ℓ where
  done : S → Executed S
  stopped : Error → S → Executed S

module _ {ℓ} {S : Type ℓ} where
  -- A failed statement ends the run; what was executed before stays executed.
  abbrev pub continue : Executed S → (S → Executed S) → Executed S
  continue (done s) next = next s
  continue (stopped e s) next = stopped e s

  -- executeStatements; the driver's `exec` refuses a statement or goes on in the server's next state
  unfoldable pub execute_statements : (Text → S → Executed S) → List Text → S → Executed S
  execute_statements exec [] s = done s
  execute_statements exec ([] ∷ r) s = execute_statements exec r s
  execute_statements exec ((c ∷ t) ∷ r) s = continue (exec (c ∷ t) s) (execute_statements exec r)

  -- DeployMysqlStatements; `connect` gives the server's state or an error
  unfoldable pub deploy_mysql_statements :
      (Text → S → Executed S) → Result S → List Text → Result (Executed S)
  deploy_mysql_statements exec (err e) statements = err e
  deploy_mysql_statements exec (ok s) statements = ok (execute_statements exec statements s)

  Executed-cases :
      (o : Executed S) → ((s : S) × (o ≡ done s)) ⊎ ((e : Error) × (s : S) × (o ≡ stopped e s))
  Executed-cases (done s) = inl (s, refl)
  Executed-cases (stopped e s) = inr (e, s, refl)

  continue_assoc :
      (o : Executed S) (f g h : S → Executed S)
      → ((s : S) → h s ≡ continue (f s) g)
      → continue o h ≡ continue (continue o f) g
  continue_assoc (done s) f g h e = e s
  continue_assoc (stopped e s) f g h k = refl

  -- Executing the concatenation of two plans is executing the first and then, where it did not stop,
  -- the second in the state that the first leaves.
  execute_statements-append :
      (exec : Text → S → Executed S) (a b : List Text) (s : S)
      → execute_statements exec (a ++ b) s
        ≡ continue (execute_statements exec a s) (execute_statements exec b)
  unfolding execute_statements
  execute_statements-append exec [] b s = refl
  execute_statements-append exec ([] ∷ a) b s = execute_statements-append exec a b s
  execute_statements-append exec ((c ∷ t) ∷ a) b s =
      continue_assoc (exec (c ∷ t) s) _ _ _ (execute_statements-append exec a b)

  continue-done :
      (o : Executed S) (next : S → Executed S) {t : S}
      → continue o next ≡ done t
      → (u : S) × (o ≡ done u) × (next u ≡ done t)
  continue-done (done u) next h = (u, refl, h)
  continue-done (stopped e u) next h = cc

  -- Where a plan in two parts is executed, both parts are.
  pub execute_statements-append_done :
      (exec : Text → S → Executed S) (a b : List Text) (s t : S)
      → execute_statements exec (a ++ b) s ≡ done t
      → (u : S) × (execute_statements exec a s ≡ done u) × (execute_statements exec b u ≡ done t)
  execute_statements-append_done exec a b s t h =
      continue-done (execute_statements exec a s) (execute_statements exec b)
        (rw (execute_statements-append exec a b s) at h)

  -- Where a plan is executed that begins with a statement, that statement is.
  pub execute_statements-cons_done :
      (exec : Text → S → Executed S) (statement : Text) (r : List Text) (s t : S)
      → statement ≢ []
      → execute_statements exec (statement ∷ r) s ≡ done t
      → (u : S) × (exec statement s ≡ done u) × (execute_statements exec r u ≡ done t)
  unfolding execute_statements
  execute_statements-cons_done exec [] r s t some_text h = absurd (some_text refl)
  execute_statements-cons_done exec (c ∷ x) r s t some_text h =
      continue-done (exec (c ∷ x) s) (execute_statements exec r) h

  -- A run that stops was stopped by one statement of the plan: those before it were all executed, it
  -- is not the empty statement, the server refused it with the error that is returned, and the state
  -- is the one which the server left it in.
  pub execute_statements-stopped :
      (exec : Text → S → Executed S) (statements : List Text) (s : S) (e : Error) (t : S)
      → execute_statements exec statements s ≡ stopped e t
      → (before : List Text) × (statement : Text) × (after : List Text) × (u : S) × (statements
          ≡ before ++ statement ∷ after)
        × (execute_statements exec before s ≡ done u)
        × (statement ≢ [])
        × (exec statement u ≡ stopped e t)
  unfolding execute_statements
  execute_statements-stopped exec [] s e t h = cc
  execute_statements-stopped exec ([] ∷ r) s e t h =
      let (before, c, after, u, split, run, said, refused) =
        execute_statements-stopped exec r s e t h in
      ([] ∷ before, c, after, u, ap (λ l. [] ∷ l) split, run, said, refused)
  execute_statements-stopped exec ((c ∷ x) ∷ r) s e t h = elim (Executed-cases (exec (c ∷ x) s)) [
    | inl (u, is) ↦
        (let (before, d, after, v, split, run, said, refused) =
            execute_statements-stopped exec r u e t (rw is at h) in
          ((c ∷ x) ∷ before, d, after, v, ap (λ l. (c ∷ x) ∷ l) split, rw is run, said, refused))
    | inr (f, u, is) ↦ ([], c ∷ x, r, s, refl, refl, (λ q. cc), is ∙ rw is at h)
  ]
