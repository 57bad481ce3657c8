-- ===== src/Postgres/Named/Execute.antt =====
-- What is there once the plan was executed. The server shows of a created object what `shown` says.
use schemahero.Base.{
  Bool, true, false, not, List, [], ◌∷◌, ◌++◌, Option, none, some, ◌≡◌, refl, ap, ◌∙◌, inl, inr,
  arith, All, keep, if◌then◌else◌, Bool-cases,
}
use schemahero.Base.Text.{Text, ◌==◌}
use schemahero.Base.Text.Equality.{eq_iff, eq_refl}
use schemahero.Postgres.Named.{Change, find_named, named_round, declared_changes}
use schemahero.Postgres.Named.Converge.{IsMet}

pub All-mono :
    {A : Type 0} (P Q : A → Type 0) (xs : List A) → ((x : A) → P x → Q x) → All P xs → All Q xs
All-mono P Q [] f h = tt
All-mono P Q (x ∷ xs) f (h, hs) = (f x h, All-mono P Q xs f hs)

pub All-append :
    {A : Type 0} (P : A → Type 0) (xs : List A) (y : A) → All P xs → P y → All P (xs ++ y ∷ [])
All-append P [] y h p = (p, tt)
All-append P (x ∷ xs) y (h, hs) p = (h, All-append P xs y hs p)

-- What is kept has passed the test.
pub All-keep :
    {A : Type 0} (P : A → Type 0) (p : A → Bool) (xs : List A)
    → All P xs
    → All (λ x. P x × (p x ≡ true)) (keep p xs)
unfolding keep
All-keep P p [] h = tt
All-keep P p (x ∷ xs) (h, hs) = elim (Bool-cases (p x)) [
  | inl t ↦ let rest = All-keep P p xs hs in let passed : p x ≡ true = t in rw t ((h, passed), rest)
  | inr f ↦ rw f (All-keep P p xs hs)
]

module _ {D C : Type 0} (declared_name : D → Text) (current_name : C → Text) (same : D → C → Bool)
    (shown : D → C) where
  abbrev pub execute : Change D C → List C → List C
  execute (Change.drop c) cs = keep (λ k. not (current_name k == current_name c)) cs
  execute (Change.create d) cs = cs ++ shown d ∷ []

  unfoldable pub execute_all : List (Change D C) → List C → List C
  unfolding keep
  execute_all [] cs = cs
  execute_all (x ∷ xs) cs = execute_all xs (execute x cs)

  abbrev pub found : Text → List C → Option C
  found n cs = find_named declared_name current_name same n cs

  pub found-drop_other :
      (n dropped : Text) (cs : List C)
      → (dropped == n) ≡ false
      → found n (keep (λ k. not (current_name k == dropped)) cs) ≡ found n cs
  unfolding find_named keep
  found-drop_other n dropped [] h = refl
  found-drop_other n dropped (c ∷ cs) h = ground (
    arith,
    found-drop_other n dropped cs h,
    eq_iff (current_name c) dropped,
    eq_iff (current_name c) n,
    eq_iff dropped n,
  )

  found-drop_self :
      (dropped : Text) (cs : List C)
      → found dropped (keep (λ k. not (current_name k == dropped)) cs) ≡ none
  unfolding find_named keep
  found-drop_self dropped [] = refl
  found-drop_self dropped (c ∷ cs) = elim (Bool-cases (current_name c == dropped)) [
    | inl t ↦ rw t (found-drop_self dropped cs)
    | inr f ↦ rw f (rw f (found-drop_self dropped cs))
  ]

  found-create_other :
      (n : Text) (x : C) (cs : List C)
      → (current_name x == n) ≡ false
      → found n (cs ++ x ∷ []) ≡ found n cs
  unfolding find_named
  found-create_other n x [] h = rw h refl
  found-create_other n x (c ∷ cs) h = ground (arith, found-create_other n x cs h)

  found-create_self :
      (x : C) (cs : List C)
      → found (current_name x) cs ≡ none
      → found (current_name x) (cs ++ x ∷ []) ≡ some x
  unfolding find_named
  found-create_self x [] h = rw (eq_refl (current_name x)) refl
  found-create_self x (c ∷ cs) h = ground (arith, found-create_self x cs)

  pub name_of_found : (n : Text) (cs : List C) (m : C) → found n cs ≡ some m → current_name m ≡ n
  unfolding find_named
  name_of_found n [] m h = cc
  name_of_found n (c ∷ cs) m h = ground (arith, name_of_found n cs m, eq_iff (current_name c) n)

  -- The changes of one round
  abbrev pub round : D → Option C → List (Change D C)
  round d none = Change.create d ∷ []
  round d (some m) = if same d m then [] else Change.drop m ∷ Change.create d ∷ []

  pub execute_all-round :
      (d : D) (o : Option C) (rest : List (Change D C) × List Text) (x : List C)
      → execute_all (named_round declared_name current_name same d o rest).0 x
        ≡ execute_all rest.0 (execute_all (round d o) x)
  unfolding execute_all
  execute_all-round d none (rest, dropped) x = refl
  execute_all-round d (some m) (rest, dropped) x = elim (Bool-cases (same d m)) [
    | inl t ↦ rw t refl
    | inr f ↦ rw f refl
  ]

  -- Each name is declared once.
  abbrev pub HasDistinctNames : List D → Type 0
  HasDistinctNames [] = Unit
  HasDistinctNames (d ∷ ds) =
      All (λ e. (declared_name d == declared_name e) ≡ false) ds × HasDistinctNames ds

  module _ (name-shown : (d : D) → current_name (shown d) ≡ declared_name d)
      (same-shown : (d : D) → same d (shown d) ≡ true) (currents : List C) where
    abbrev pub round_of : D → List (Change D C)
    round_of d = round d (found (declared_name d) currents)

    abbrev pub first_pass : List D → List (Change D C)
    first_pass ds = (declared_changes declared_name current_name same currents ds).0

    pub found-round :
        (n : Text) (d : D) (o : Option C) (x : List C)
        → (declared_name d == n) ≡ false
        → found (declared_name d) currents ≡ o
        → found n (execute_all (round d o) x) ≡ found n x
    unfolding execute_all
    found-round n d none x apart e = found-create_other n (shown d) x (rw (name-shown d) apart)
    found-round n d (some m) x apart e = elim (Bool-cases (same d m)) [
      | inl t ↦ rw t refl
      | inr f ↦ rw f (
          found-create_other n (shown d) _ (rw (name-shown d) apart)
          ∙ found-drop_other n (current_name m) x
              (rw (name_of_found (declared_name d) currents m e) apart))
    ]

    -- The first pass leaves other names alone.
    pub found-first_pass :
        (n : Text) (ds : List D) (x : List C)
        → All (λ d. (declared_name d == n) ≡ false) ds
        → found n (execute_all (first_pass ds) x) ≡ found n x
    unfolding declared_changes execute_all
    found-first_pass n [] x h = refl
    found-first_pass n (d ∷ ds) x (h, hs) =
        ap (found n) (
          execute_all-round d (found (declared_name d) currents)
            (declared_changes declared_name current_name same currents ds) x)
        ∙ found-first_pass n ds (execute_all (round_of d) x) hs
        ∙ found-round n d (found (declared_name d) currents) x h refl

    pub IsMet-round :
        (d : D) (o : Option C) (x : List C)
        → found (declared_name d) currents ≡ o
        → found (declared_name d) x ≡ o
        → IsMet declared_name current_name same (execute_all (round d o) x) d
    unfolding execute_all
    IsMet-round d none x e there = (
      shown d,
      rw (← name-shown d) (found-create_self (shown d) x (rw (name-shown d) there)),
      same-shown d,
    )
    IsMet-round d (some m) x e there = elim (Bool-cases (same d m)) [
      | inl t ↦ rw t (m, there, t)
      | inr f ↦
          let gone = found-drop_self (current_name m) x in
          let named = name_of_found (declared_name d) currents m e in
          rw f (
            shown d,
            rw (← name-shown d) (found-create_self (shown d) _ (rw (name-shown d, ← named) gone)),
            same-shown d,
          )
    ]
