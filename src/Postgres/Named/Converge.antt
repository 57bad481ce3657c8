-- ===== src/Postgres/Named/Converge.antt =====
-- When the plan of what is matched by its name is empty, and what is there once it was executed.
use schemahero.Base.{
  Bool, true, false, List, [], ◌∷◌, some, ◌≡◌, ◌↔◌, refl, sym, ap, ◌∙◌, inl, inr, any, All,
  Bool-cases, Option-cases, append-eq-nil, cons_not_nil,
}
use schemahero.Base.Text.{Text}
use schemahero.Postgres.Named.{
  Change, find_named, named_round, declared_changes, is_named, current_changes, named_changes,
}

module _ {D C : Type 0} (declared_name : D → Text) (current_name : C → Text)
    (same : D → C → Bool) where
  -- The first current object of that name is as it is declared.
  abbrev pub IsMet : List C → D → Type 0
  IsMet currents d =
      (m : C) × (find_named declared_name current_name same (declared_name d) currents ≡ some m)
      × (same d m ≡ true)

  round-met :
      (d : D) (m : C) (rest : List (Change D C) × List Text)
      → same d m ≡ true
      → named_round declared_name current_name same d (some m) rest ≡ rest
  round-met d m (rest, dropped) h = rw h refl

  round-unmet :
      (d : D) (m : C) (rest : List (Change D C) × List Text)
      → same d m ≡ false
      → (named_round declared_name current_name same d (some m) rest).0 ≡ []
      → ⊥
  round-unmet d m (rest, dropped) h k = cons_not_nil (rw h at k)

  declared-met :
      (currents : List C) (ds : List D)
      → All (IsMet currents) ds
      → declared_changes declared_name current_name same currents ds ≡ ([], [])
  unfolding declared_changes
  declared-met currents [] h = refl
  declared-met currents (d ∷ ds) ((m, found, alike), hs) =
      rw found (round-met d m _ alike ∙ declared-met currents ds hs)

  IsMet-of_nil :
      (currents : List C) (ds : List D)
      → (declared_changes declared_name current_name same currents ds).0 ≡ []
      → All (IsMet currents) ds
  unfolding declared_changes
  IsMet-of_nil currents [] h = tt
  IsMet-of_nil currents (d ∷ ds) h =
      elim (Option-cases (find_named declared_name current_name same (declared_name d) currents)) [
        | inl missing ↦ absurd (cons_not_nil (rw missing at h))
        | inr (m, found) ↦ elim (Bool-cases (same d m)) [
          | inl alike ↦ (
            (m, found, alike),
            IsMet-of_nil currents ds (ap (λ p. p.0) (sym (round-met d m _ alike)) ∙ rw found at h),
          )
          | inr other ↦ absurd (round-unmet d m _ other (rw found at h))
        ]
      ]

  current-eq-nil_iff :
      (ds : List D) (currents : List C)
      → (current_changes declared_name current_name same ds [] currents ≡ [])
        ↔ All (λ c. is_named declared_name current_name same ds (current_name c) ≡ true) currents
  unfolding current_changes any
  current-eq-nil_iff ds [] = (λ h. tt, λ h. refl)
  current-eq-nil_iff ds (c ∷ cs) =
      elim (Bool-cases (is_named declared_name current_name same ds (current_name c))) [
        | inl t ↦
            rw t
              (λ h. (refl, (current-eq-nil_iff ds cs).0 h), λ h. (current-eq-nil_iff ds cs).1 h.1)
        | inr f ↦ rw f (λ h. cc, λ h. cc (h.0))
      ]

  -- The plan is empty exactly if each declared object is met and each current one has the name of a
  -- declared one.
  pub named_changes-eq-nil_iff :
      (ds : List D) (currents : List C)
      → (named_changes declared_name current_name same ds currents ≡ []) ↔ (
          All (IsMet currents) ds
          × All (λ c. is_named declared_name current_name same ds (current_name c) ≡ true) currents)
  unfolding named_changes
  named_changes-eq-nil_iff ds currents =
      let kept = current-eq-nil_iff ds currents in
      (
        λ h.
            let (none_declared, none_current) = append-eq-nil _ _ h in
            let met = IsMet-of_nil currents ds none_declared in
            (met, kept.0 (rw (declared-met currents ds met) at none_current)),
        λ (met, named). rw (declared-met currents ds met) (kept.1 named),
      )
