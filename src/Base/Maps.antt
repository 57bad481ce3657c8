-- ===== src/Base/Maps.antt =====
-- Go maps with texts as keys, as lists of entries in which a key stands once.
use mathlib.Core.Path.{◌≡◌, refl, sym, ◌∙◌}
use mathlib.Core.Bool.{false}
use mathlib.Core.Logic.{inl, inr}
use mathlib.Core.Option.{Option, none, some}
use mathlib.Core.List.{List, [], ◌∷◌, Memᴰ}
use mathlib.Core.List.Memᴰ
use schemahero.Base.Tests.{if◌then◌else◌, Bool-cases}
use schemahero.Base.Lists.{All}
use schemahero.Base.Text.{Text, ◌==◌}
use schemahero.Base.Text.Equality.{eq_iff, eq_refl, eq_comm}

abbrev pub TextMap {ℓ} : Type ℓ → Type ℓ
TextMap A = List (Text × A)

some_inj {ℓ} : {A : Type ℓ} {a b : A} → some a ≡ some b → a ≡ b
some_inj h = cc

none_not_some {ℓ} : {A : Type ℓ} {a : A} → none ≡ some a → ⊥
none_not_some h = cc

module _ {ℓ} {A : Type ℓ} where
  unfoldable pub find : Text → TextMap A → Option A
  find k [] = none
  find k ((j, a) ∷ m) = let rest = find k m in if j == k then some a else rest

  -- m[k] = a
  unfoldable pub put : Text → A → TextMap A → TextMap A
  put k a [] = (k, a) ∷ []
  put k a ((j, b) ∷ m) = let rest = put k a m in if j == k then (k, a) ∷ m else (j, b) ∷ rest

  -- The values in the order of the entries.
  unfoldable pub values : TextMap A → List A
  values [] = []
  values ((j, a) ∷ m) = a ∷ values m

  abbrev pub IsAbsent : Text → TextMap A → Type 0
  IsAbsent k m = All (λ e. (e.0 == k) ≡ false) m

  -- Each key stands once.
  abbrev pub HasDistinctKeys : TextMap A → Type 0
  HasDistinctKeys [] = Unit
  HasDistinctKeys ((j, a) ∷ m) = IsAbsent j m × HasDistinctKeys m

  -- A key that was written is read back, and the others are as they were.
  pub find-put : (k : Text) (a : A) (m : TextMap A) → find k (put k a m) ≡ some a
  unfolding find put
  find-put k a [] = rw (eq_refl k) refl
  find-put k a ((j, b) ∷ m) = elim (Bool-cases (j == k)) [
    | inl t ↦ rw (t, eq_refl k) refl
    | inr f ↦ rw (f, f) (find-put k a m)
  ]

  pub find-put_other :
      (k i : Text) (a : A) (m : TextMap A) → (k == i) ≡ false → find i (put k a m) ≡ find i m
  unfolding find put
  find-put_other k i a [] h = rw h refl
  find-put_other k i a ((j, b) ∷ m) h = elim (Bool-cases (j == k)) [
    | inl t ↦ rw (t, h, (eq_iff j k).0 t, h) refl
    | inr f ↦ rw f (rw (find-put_other k i a m h) refl)
  ]

  find_absent : (k : Text) (m : TextMap A) → IsAbsent k m → find k m ≡ none
  unfolding find
  find_absent k [] h = refl
  find_absent k ((j, a) ∷ m) (h, hs) = rw h (find_absent k m hs)

  put-IsAbsent :
      (k i : Text) (a : A) (m : TextMap A)
      → (k == i) ≡ false
      → IsAbsent i m
      → IsAbsent i (put k a m)
  unfolding put
  put-IsAbsent k i a [] h hs = (h, tt)
  put-IsAbsent k i a ((j, b) ∷ m) h (g, gs) = elim (Bool-cases (j == k)) [
    | inl t ↦ rw t (h, gs)
    | inr f ↦ rw f (g, put-IsAbsent k i a m h gs)
  ]

  pub put-HasDistinctKeys :
      (k : Text) (a : A) (m : TextMap A) → HasDistinctKeys m → HasDistinctKeys (put k a m)
  unfolding put
  put-HasDistinctKeys k a [] h = (tt, tt)
  put-HasDistinctKeys k a ((j, b) ∷ m) (h, hs) = elim (Bool-cases (j == k)) [
    | inl t ↦ rw t (rw ((eq_iff j k).0 t) at h, hs)
    | inr f ↦ rw f (put-IsAbsent k j a m (eq_comm k j ∙ f) h, put-HasDistinctKeys k a m hs)
  ]

  pub mem_of_find : (k : Text) {a : A} (m : TextMap A) → find k m ≡ some a → Memᴰ a (values m)
  unfolding find values
  mem_of_find k [] h = cc
  mem_of_find k ((j, b) ∷ m) h = elim (Bool-cases (j == k)) [
    | inl t ↦ Memᴰ.head (some_inj (rw t at (sym h)))
    | inr f ↦ Memᴰ.tail (mem_of_find k m (rw f at h))
  ]

  pub find_of_mem :
      {a : A} (m : TextMap A)
      → HasDistinctKeys m
      → Memᴰ a (values m)
      → (k : Text) × (find k m ≡ some a)
  unfolding find values
  find_of_mem [] h m = absurd (Memᴰ.not-nil m)
  find_of_mem {a} ((j, b) ∷ m) (h, hs) e = elim (Memᴰ.cases_cons e) [
    | inl s ↦ (j, rw (eq_refl j, s) refl)
    | inr later ↦
        let (k, found) = find_of_mem m hs later in
        elim (Bool-cases (j == k)) [
          | inl t ↦
              absurd (none_not_some {a = a} (sym (find_absent j m h) ∙ rw ((eq_iff j k).0 t) found))
          | inr f ↦ (k, rw f found)
        ]
  ]
