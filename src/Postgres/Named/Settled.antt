-- ===== src/Postgres/Named/Settled.antt =====
-- The plan brings the objects to what is declared.
use schemahero.Base.{Bool, true, false, List, [], ◌∷◌, ◌≡◌, ◌⊎◌, refl, sym, ◌∙◌, inl, inr, any, All}
use mathlib.Core.Path.{subst}
use schemahero.Base.Text.{Text, ◌==◌}
use schemahero.Base.Text.Equality.{eq_comm}
use schemahero.Postgres.Named.{Change, declared_changes, current_changes, named_changes}
use schemahero.Postgres.Named.Converge.{IsMet, named_changes-eq-nil_iff}
use schemahero.Postgres.Named.Execute.{
  All-mono, execute_all, execute_all-round, HasDistinctNames, round_of, first_pass, found-round,
  found-first_pass, IsMet-round,
}
use schemahero.Postgres.Named.Passes.{
  run, named, at_name, run-append, named_self, current_self, at_name-second_pass, named_of_dropped,
  named-second_pass, known-round,
}

module _ {D C : Type 0} (declared_name : D → Text) (current_name : C → Text) (same : D → C → Bool)
    (shown : D → C) (name-shown : (d : D) → current_name (shown d) ≡ declared_name d)
    (same-shown : (d : D) → same d (shown d) ≡ true) (currents : List C) where
  abbrev pass : List D → List (Change D C)
  pass ds = first_pass declared_name current_name same shown name-shown same-shown currents ds

  abbrev one : D → List (Change D C)
  one d = round_of declared_name current_name same shown name-shown same-shown currents d

  abbrev Met : List C → D → Type 0
  Met cs d = IsMet declared_name current_name same cs d

  both :
      (ds : List D) (x y : List C)
      → All
          (λ e.
            at_name declared_name current_name same shown (declared_name e) y
            ≡ at_name declared_name current_name same shown (declared_name e) x)
          ds
      → All
          (λ e.
            at_name declared_name current_name same shown (declared_name e) x
            ≡ at_name declared_name current_name same shown (declared_name e) currents)
          ds
      → All
          (λ e.
            at_name declared_name current_name same shown (declared_name e) y
            ≡ at_name declared_name current_name same shown (declared_name e) currents)
          ds
  both [] x y h k = tt
  both (d ∷ ds) x y (h, hs) (k, ks) = (h ∙ k, both ds x y hs ks)

  -- Where the first pass starts from what is there, each declared object is met behind it.
  IsMet-first_pass :
      (ds : List D) (x : List C)
      → HasDistinctNames declared_name current_name same shown ds
      → All
          (λ d.
            at_name declared_name current_name same shown (declared_name d) x
            ≡ at_name declared_name current_name same shown (declared_name d) currents)
          ds
      → All (Met (run declared_name current_name same shown (pass ds) x)) ds
  unfolding declared_changes execute_all
  IsMet-first_pass [] x distinct h = tt
  IsMet-first_pass (d ∷ ds) x (apart, distinct) (h, hs) =
      let y = run declared_name current_name same shown (one d) x in
      let step =
        execute_all-round declared_name current_name same shown d
          (at_name declared_name current_name same shown (declared_name d) currents)
          (declared_changes declared_name current_name same currents ds) x in
      let (m, there, alike) =
        IsMet-round declared_name current_name same shown name-shown same-shown currents d
          (at_name declared_name current_name same shown (declared_name d) currents) x refl h in
      let moved : run declared_name current_name same shown (pass (d ∷ ds)) x
          ≡ run declared_name current_name same shown (pass ds) y =
        step in
      subst (λ z. All (Met z) (d ∷ ds)) (sym moved)
        (
          (
            m,
            found-first_pass declared_name current_name same shown name-shown same-shown currents
                  (declared_name d) ds y
                  (All-mono (λ e. (declared_name d == declared_name e) ≡ false)
                    (λ e. (declared_name e == declared_name d) ≡ false) ds
                    (λ e k. eq_comm (declared_name e) (declared_name d) ∙ k) apart)
                ∙ there,
            alike,
          ),
          IsMet-first_pass ds y distinct (
              both ds x y
                (All-mono (λ e. (declared_name d == declared_name e) ≡ false)
                  (λ e.
                    at_name declared_name current_name same shown (declared_name e) y
                    ≡ at_name declared_name current_name same shown (declared_name e) x)
                  ds
                  (λ e k.
                    found-round declared_name current_name same shown name-shown same-shown currents
                      (declared_name e) d
                      (at_name declared_name current_name same shown (declared_name d) currents) x k
                      refl)
                  apart)
                hs),
        )

  -- Behind the first pass there is what was there and what is declared.
  known-first_pass :
      (P : C → Type 0) (ds : List D) (x : List C)
      → All (λ d. P (shown d)) ds
      → All P x
      → All P (run declared_name current_name same shown (pass ds) x)
  unfolding declared_changes execute_all
  known-first_pass P [] x k h = h
  known-first_pass P (d ∷ ds) x (k, ks) h =
      let step =
        execute_all-round declared_name current_name same shown d
          (at_name declared_name current_name same shown (declared_name d) currents)
          (declared_changes declared_name current_name same currents ds) x in
      let moved : run declared_name current_name same shown (pass (d ∷ ds)) x
          ≡ run declared_name current_name same shown (pass ds)
              (run declared_name current_name same shown (one d) x) =
        step in
      subst (λ z. All P z) (sym moved)
        (known-first_pass P ds (run declared_name current_name same shown (one d) x) ks (
          known-round declared_name current_name same shown P d
            (at_name declared_name current_name same shown (declared_name d) currents) x k h))

  agrees :
      (ds : List D)
      → All
          (λ d.
            at_name declared_name current_name same shown (declared_name d) currents
            ≡ at_name declared_name current_name same shown (declared_name d) currents)
          ds
  agrees [] = tt
  agrees (d ∷ ds) = (refl, agrees ds)

  shown_named :
      (ds : List D)
      → All (λ d. named declared_name current_name same shown ds (current_name (shown d)) ≡ true) ds
  shown_named ds =
      All-mono (λ d. named declared_name current_name same shown ds (declared_name d) ≡ true)
        (λ d. named declared_name current_name same shown ds (current_name (shown d)) ≡ true) ds
        (λ d h. rw (name-shown d) h) (named_self declared_name current_name same shown ds)

  -- What the second pass leaves alone of what the first one met
  IsMet-second_pass :
      (all ds : List D) (dropped : List Text) (x : List C)
      → All (λ d. named declared_name current_name same shown all (declared_name d) ≡ true) ds
      → All (Met x) ds
      → All
          (Met (
            run declared_name current_name same shown
              (current_changes declared_name current_name same all dropped currents)
              x))
          ds
  IsMet-second_pass all [] dropped x k h = tt
  IsMet-second_pass all (d ∷ ds) dropped x (k, ks) ((m, there, alike), hs) = (
    (
      m,
      at_name-second_pass declared_name current_name same shown (declared_name d) all dropped
            currents x k
          ∙ there,
      alike,
    ),
    IsMet-second_pass all ds dropped x ks hs,
  )

  settled :
      (ds : List D)
      → HasDistinctNames declared_name current_name same shown ds
      → named_changes declared_name current_name same ds (
          run declared_name current_name same shown
            (named_changes declared_name current_name same ds currents)
            currents)
        ≡ []
  unfolding named_changes
  settled ds distinct =
      let dropped = (declared_changes declared_name current_name same currents ds).1 in
      let x = run declared_name current_name same shown (pass ds) currents in
      let met = IsMet-first_pass ds currents distinct (agrees ds) in
      let known =
        known-first_pass
          (λ e.
            (named declared_name current_name same shown ds (current_name e) ≡ true)
            ⊎ (any (λ k. current_name k == current_name e) currents ≡ true))
          ds currents
          (All-mono
            (λ d. named declared_name current_name same shown ds (current_name (shown d)) ≡ true) _
            ds (λ d h. inl h) (shown_named ds))
          (All-mono (λ e. any (λ k. current_name k == current_name e) currents ≡ true) _ currents
            (λ e h. inr h) (current_self declared_name current_name same shown currents)) in
      let z =
        run declared_name current_name same shown
          (current_changes declared_name current_name same ds dropped currents) x in
      let moved : run declared_name current_name same shown
            (named_changes declared_name current_name same ds currents) currents
          ≡ z =
        run-append declared_name current_name same shown (pass ds)
          (current_changes declared_name current_name same ds dropped currents) currents in
      subst (λ w. named_changes declared_name current_name same ds w ≡ []) (sym moved)
        ((named_changes-eq-nil_iff declared_name current_name same ds z).1 (
          IsMet-second_pass ds ds dropped x (named_self declared_name current_name same shown ds)
              met,
          named-second_pass declared_name current_name same shown ds dropped currents x
              (λ t. named_of_dropped declared_name current_name same shown currents ds t) known,
        ))

-- Where each name is declared once, and the server shows each created object under its declared name
-- and as it was declared, a plan that is executed from any state leaves nothing to plan.
pub named_changes_converge :
    {D C : Type 0} (declared_name : D → Text) (current_name : C → Text) (same : D → C → Bool)
    (shown : D → C) (ds : List D) (currents : List C)
    → ((d : D) → current_name (shown d) ≡ declared_name d)
    → ((d : D) → same d (shown d) ≡ true)
    → HasDistinctNames declared_name current_name same shown ds
    → named_changes declared_name current_name same ds (
        execute_all declared_name current_name same shown
          (named_changes declared_name current_name same ds currents)
          currents)
      ≡ []
named_changes_converge declared_name current_name same shown ds currents name-shown same-shown =
    settled declared_name current_name same shown name-shown same-shown currents ds
