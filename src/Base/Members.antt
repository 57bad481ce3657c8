-- ===== src/Base/Members.antt =====
-- Members of a list against the Boolean tests on it.
use mathlib.Core.List.{Memᴰ}
use mathlib.Core.List.Memᴰ
use schemahero.Base.Tests.{Bool-cases}
use schemahero.Base.Lists.{any, keep, All}
use mathlib.Core.Path.{◌≡◌, refl}
use mathlib.Core.Bool.{Bool, true, false}
use mathlib.Core.Logic.{inl, inr}
use mathlib.Core.List.{List, [], ◌∷◌}

module _ {ℓ} {A : Type ℓ} where
  pub any-of_mem : (p : A → Bool) {x : A} {xs : List A} → Memᴰ x xs → p x ≡ true → any p xs ≡ true
  unfolding any
  any-of_mem p (Memᴰ.head e) h = rw (← e, h) refl
  any-of_mem p (Memᴰ.tail {x = y} m) h = elim (Bool-cases (p y)) [
    | inl t ↦ rw t refl
    | inr f ↦ rw f (any-of_mem p m h)
  ]

  pub mem_of_any :
      (p : A → Bool) (xs : List A) → any p xs ≡ true → (x : A) × Memᴰ x xs × (p x ≡ true)
  unfolding any
  mem_of_any p [] h = cc
  mem_of_any p (x ∷ xs) h = elim (Bool-cases (p x)) [
    | inl t ↦ (x, Memᴰ.head refl, t)
    | inr f ↦ let (y, m, q) = mem_of_any p xs (rw f at h) in (y, Memᴰ.tail m, q)
  ]

  pub mem-keep : (p : A → Bool) {x : A} {xs : List A} → Memᴰ x xs → p x ≡ true → Memᴰ x (keep p xs)
  unfolding keep
  mem-keep p {xs = y ∷ ys} (Memᴰ.head e) h = rw (← e) (rw h (Memᴰ.head refl))
  mem-keep p (Memᴰ.tail {x = y} m) h = elim (Bool-cases (p y)) [
    | inl t ↦ rw t (Memᴰ.tail (mem-keep p m h))
    | inr f ↦ rw f (mem-keep p m h)
  ]

  pub mem_of_keep :
      (p : A → Bool) {x : A} (xs : List A) → Memᴰ x (keep p xs) → Memᴰ x xs × (p x ≡ true)
  unfolding keep
  mem_of_keep p [] m = absurd (Memᴰ.not-nil m)
  mem_of_keep p (y ∷ ys) m = elim (Bool-cases (p y)) [
    | inl t ↦ elim (Memᴰ.cases_cons (rw t at m)) [
      | inl e ↦ (Memᴰ.head e, rw e t)
      | inr m' ↦ let (a, b) = mem_of_keep p ys m' in (Memᴰ.tail a, b)
    ]
    | inr f ↦ let (a, b) = mem_of_keep p ys (rw f at m) in (Memᴰ.tail a, b)
  ]

  pub All-of_mem {κ} : (P : A → Type κ) (xs : List A) → ((x : A) → Memᴰ x xs → P x) → All P xs
  All-of_mem P [] h = tt
  All-of_mem P (x ∷ xs) h = (h x (Memᴰ.head refl), All-of_mem P xs (λ y m. h y (Memᴰ.tail m)))

  -- A test that no element passes keeps nothing.
  pub keep-eq-nil : (p : A → Bool) (xs : List A) → All (λ x. p x ≡ false) xs → keep p xs ≡ []
  unfolding keep
  keep-eq-nil p [] h = refl
  keep-eq-nil p (x ∷ xs) (h, hs) = rw h (keep-eq-nil p xs hs)
