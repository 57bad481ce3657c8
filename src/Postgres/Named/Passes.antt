-- ===== src/Postgres/Named/Passes.antt =====
-- What each of the two passes leaves behind.
use schemahero.Base.{
  Bool, true, false, not, List, [], ◌∷◌, ◌++◌, Option, none, some, ◌≡◌, ◌⊎◌, refl, ◌∙◌, inl, inr,
  arith, any, All, keep, Bool-cases, Option-cases,
}
use schemahero.Base.Text.{Text, ◌==◌}
use schemahero.Base.Text.Equality.{eq_iff, eq_refl, eq_comm}
use schemahero.Postgres.Named.{Change, find_named, declared_changes, is_named, current_changes}
use schemahero.Postgres.Named.Execute.{
  All-mono, All-append, All-keep, execute, execute_all, found, found-drop_other, name_of_found,
  round,
}

false_not_true : false ≡ true → ⊥
false_not_true h = cc

module _ {D C : Type 0} (declared_name : D → Text) (current_name : C → Text) (same : D → C → Bool)
    (shown : D → C) where
  abbrev pub run : List (Change D C) → List C → List C
  run changes cs = execute_all declared_name current_name same shown changes cs

  abbrev pub named : List D → Text → Bool
  named ds n = is_named declared_name current_name same ds n

  abbrev pub at_name : Text → List C → Option C
  at_name n cs = found declared_name current_name same shown n cs

  pub run-append : (a b : List (Change D C)) (x : List C) → run (a ++ b) x ≡ run b (run a x)
  unfolding execute_all
  run-append [] b x = refl
  run-append (c ∷ a) b x = run-append a b (execute declared_name current_name same shown c x)

  -- Each declared object has a declared name.
  pub named_self : (ds : List D) → All (λ d. named ds (declared_name d) ≡ true) ds
  unfolding any
  named_self [] = tt
  named_self (d ∷ ds) = (
    rw (eq_refl (declared_name d)) refl,
    All-mono (λ e. named ds (declared_name e) ≡ true) (λ e. named (d ∷ ds) (declared_name e) ≡ true)
        ds (λ e h. ground (arith, h)) (named_self ds),
  )

  pub current_self :
      (cs : List C) → All (λ c. any (λ k. current_name k == current_name c) cs ≡ true) cs
  unfolding any
  current_self [] = tt
  current_self (c ∷ cs) = (
    rw (eq_refl (current_name c)) refl,
    All-mono (λ e. any (λ k. current_name k == current_name e) cs ≡ true)
        (λ e. any (λ k. current_name k == current_name e) (c ∷ cs) ≡ true) cs
        (λ e h. ground (arith, h)) (current_self cs),
  )

  -- The second pass leaves declared names alone.
  pub apart_of_unnamed :
      (ds : List D) (n m : Text) → named ds m ≡ false → named ds n ≡ true → (m == n) ≡ false
  apart_of_unnamed ds n m f t = elim (Bool-cases (m == n)) [
    | inl e ↦ let same_name = (eq_iff m n).0 e in cc
    | inr g ↦ g
  ]

  pub at_name-second_pass :
      (n : Text) (ds : List D) (dropped : List Text) (cs x : List C)
      → named ds n ≡ true
      → at_name n (run (current_changes declared_name current_name same ds dropped cs) x)
        ≡ at_name n x
  unfolding current_changes execute_all
  at_name-second_pass n ds dropped [] x h = refl
  at_name-second_pass n ds dropped (c ∷ cs) x h = elim (Bool-cases (named ds (current_name c))) [
    | inl t ↦ rw t (at_name-second_pass n ds dropped cs x h)
    | inr f ↦ elim (Bool-cases (any (λ m. m == current_name c) dropped)) [
      | inl t ↦ rw (f, t) (at_name-second_pass n ds dropped cs x h)
      | inr g ↦
          rw (f, g)
            (at_name-second_pass n ds dropped cs
                (keep (λ k. not (current_name k == current_name c)) x) h
              ∙ found-drop_other declared_name current_name same shown n (current_name c) x
                  (apart_of_unnamed ds n (current_name c) f h))
    ]
  ]

  pub dropped_apart : {P : Type 0} (n m : Text) → (n == m) ≡ true → not (m == n) ≡ true → P
  dropped_apart n m t h = absurd (false_not_true (rw (eq_comm m n, t) at h))

  pub named_of_dropped :
      (currents : List C) (ds : List D) (t : Text)
      → any (λ n. n == t) (declared_changes declared_name current_name same currents ds).1 ≡ true
      → named ds t ≡ true
  unfolding declared_changes any
  named_of_dropped currents [] t h = cc
  named_of_dropped currents (d ∷ ds) t h =
      elim (Option-cases (find_named declared_name current_name same (declared_name d) currents)) [
        | inl missing ↦ ground (arith, named_of_dropped currents ds t, missing)
        | inr (m, is) ↦
            let name =
              name_of_found declared_name current_name same shown (declared_name d) currents m is in
            elim (Bool-cases (same d m)) [
              | inl alike ↦ ground (arith, named_of_dropped currents ds t, is, alike)
              | inr other ↦ ground (arith, named_of_dropped currents ds t, is, other, name)
            ]
      ]

  -- An object that has not the name of the first one is another one.
  pub among_rest :
      (ds : List D) (c e : C) (cs : List C)
      → (named ds (current_name e) ≡ true)
        ⊎ (any (λ k. current_name k == current_name e) (c ∷ cs) ≡ true)
      → ((current_name c == current_name e) ≡ true → named ds (current_name e) ≡ true)
      → (named ds (current_name e) ≡ true) ⊎ (any (λ k. current_name k == current_name e) cs ≡ true)
  unfolding any
  among_rest ds c e cs (inl t) h = inl t
  among_rest ds c e cs (inr m) h = elim (Bool-cases (current_name c == current_name e)) [
    | inl t ↦ inl (h t)
    | inr f ↦ inr (rw f at m)
  ]

  -- Behind the second pass only declared names are left, if in front of it each other name was one of
  -- those that it drops.
  pub named-second_pass :
      (ds : List D) (dropped : List Text) (cs x : List C)
      → ((t : Text) → any (λ n. n == t) dropped ≡ true → named ds t ≡ true)
      → All
          (λ e.
            (named ds (current_name e) ≡ true)
            ⊎ (any (λ k. current_name k == current_name e) cs ≡ true))
          x
      → All
          (λ e. named ds (current_name e) ≡ true)
          (run (current_changes declared_name current_name same ds dropped cs) x)
  unfolding current_changes execute_all any
  named-second_pass ds dropped [] x sound h =
      All-mono (λ e. (named ds (current_name e) ≡ true) ⊎ (false ≡ true))
        (λ e. named ds (current_name e) ≡ true) x (λ e k. elim k [ inl t ↦ t | inr f ↦ cc ]) h
  named-second_pass ds dropped (c ∷ cs) x sound h = elim (Bool-cases (named ds (current_name c))) [
    | inl t ↦ rw t (
        named-second_pass ds dropped cs x sound (
          All-mono _
            (λ e.
              (named ds (current_name e) ≡ true)
              ⊎ (any (λ k. current_name k == current_name e) cs ≡ true))
            x
            (λ e k.
              among_rest ds c e cs k (λ q. rw (← (eq_iff (current_name c) (current_name e)).0 q) t))
            h))
    | inr f ↦ elim (Bool-cases (any (λ m. m == current_name c) dropped)) [
      | inl t ↦ cc (sound (current_name c) t)
      | inr g ↦
          rw (f, g)
            (named-second_pass ds dropped cs (keep (λ k. not (current_name k == current_name c)) x)
              sound
              (All-mono _
                (λ e.
                  (named ds (current_name e) ≡ true)
                  ⊎ (any (λ k. current_name k == current_name e) cs ≡ true))
                (keep (λ k. not (current_name k == current_name c)) x)
                (λ e k.
                  among_rest ds c e cs k.0
                    (λ q. dropped_apart (current_name c) (current_name e) q k.1))
                (All-keep _ (λ k. not (current_name k == current_name c)) x h)))
    ]
  ]

  pub known-round :
      (P : C → Type 0) (d : D) (o : Option C) (x : List C)
      → P (shown d)
      → All P x
      → All P (run (round declared_name current_name same shown d o) x)
  unfolding execute_all
  known-round P d none x k h = All-append P x (shown d) h k
  known-round P d (some m) x k h = elim (Bool-cases (same d m)) [
    | inl t ↦ rw t h
    | inr f ↦ rw f (
        All-append P _ (shown d)
          (All-mono _ P (keep (λ c. not (current_name c == current_name m)) x) (λ c q. q.0)
            (All-keep P (λ c. not (current_name c == current_name m)) x h))
          k)
  ]
