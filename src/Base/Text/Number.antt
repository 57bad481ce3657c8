-- ===== src/Base/Text/Number.antt =====
-- strconv.Itoa, and strconv.Atoi on text that holds no sign.
use Prim.Native.Nat.{ℕ, zero, suc, ◌+◌, ◌-◌, ◌*◌, ◌/◌, ◌%◌, ◌^◌, ◌<◌, ◌≤◌}
use mathlib.Core.Path.{◌≡◌, refl}
use mathlib.Core.Logic.{◌≢◌, inl, inr}
use mathlib.Core.Bool.{Bool, true, ◌&&◌}
use mathlib.Core.Option.{Option, none, some}
use mathlib.Core.List.{[], ◌∷◌}
use native.Mathlib.Omega.{arith}
use schemahero.Base.Lists.{All}
use schemahero.Base.Tests.{leb, ltb, if◌then◌else◌, Bool-cases, Option-cases}
use schemahero.Base.Text.{Text}

unfoldable pub is_digit : ℕ → Bool
is_digit c = leb b'0' c && leb c b'9'

-- The digits of a number in front of `acc`; more fuel than the number is enough.
digits : ℕ → ℕ → Text → Text
digits zero n acc = acc
digits (suc f) n acc =
    let rest = digits f (n / 10) ((n % 10 + 48) ∷ acc) in if ltb n 10 then (n + 48) ∷ acc else rest

unfoldable pub itoa : ℕ → Text
unfolding digits
itoa n = digits (n + 1) n []

-- A Go `int`; `negsuc n` is -(n + 1).
pub data ℤ : Type 0 where
  pos negsuc : ℕ → ℤ

unfoldable pub itoa_int : ℤ → Text
unfolding itoa
itoa_int (pos n) = itoa n
itoa_int (negsuc n) = b'-' ∷ itoa (n + 1)

-- math.MaxInt64
abbrev pub max_int : ℕ
max_int = 2 ^ 63 - 1

value_of : ℕ → Text → Option ℕ
unfolding is_digit
value_of n [] = some n
value_of n (c ∷ s) = let rest = value_of (n * 10 + (c - 48)) s in if is_digit c then rest else none

-- strconv.Atoi; a failed syntax or range test is `none`
unfoldable pub atoi : Text → Option ℕ
unfolding value_of
atoi [] = none
atoi (c ∷ s) = elim (value_of 0 (c ∷ s)) [
  | none ↦ none
  | some n ↦ if leb n max_int then some n else none
]

digits_value : (f n : ℕ) (acc : Text) → n < f → value_of 0 (digits f n acc) ≡ value_of n acc
unfolding value_of digits is_digit
digits_value zero n acc h = absurd (omega arith)
digits_value (suc f) n acc h = elim (Bool-cases (ltb n 10)) [
  | inl small ↦ ground arith
  | inr large ↦
      let rest = digits_value f (n / 10) ((n % 10 + 48) ∷ acc) (ground arith) in
      ground (arith, rest)
]

digits-digits :
    (f n : ℕ) (acc : Text)
    → All (λ c. is_digit c ≡ true) acc
    → All (λ c. is_digit c ≡ true) (digits f n acc)
unfolding digits is_digit
digits-digits zero n acc h = h
digits-digits (suc f) n acc h = elim (Bool-cases (ltb n 10)) [
  | inl small ↦ rw small (ground arith, h)
  | inr large ↦ rw large (digits-digits f (n / 10) ((n % 10 + 48) ∷ acc) (ground arith, h))
]

-- The digits that are printed are digits.
pub itoa-digits : (n : ℕ) → All (λ c. is_digit c ≡ true) (itoa n)
unfolding itoa
itoa-digits n = digits-digits (n + 1) n [] tt

atoi-of_value : (s : Text) (n : ℕ) → value_of 0 s ≡ some n → n ≤ max_int → s ≢ [] → atoi s ≡ some n
unfolding atoi
atoi-of_value [] n h le said = absurd (said refl)
atoi-of_value (c ∷ s) n h le said = rw (h, atoi) (ground arith)

cons_said : (c : ℕ) (s : Text) → c ∷ s ≢ []
cons_said c s h = cc

digits_said : (f n : ℕ) (acc : Text) → acc ≢ [] → digits f n acc ≢ []
unfolding digits
digits_said zero n acc h = h
digits_said (suc f) n acc h = elim (Bool-cases (ltb n 10)) [
  | inl small ↦ rw small (cons_said _ acc)
  | inr large ↦ rw large (digits_said f (n / 10) ((n % 10 + 48) ∷ acc) (cons_said _ acc))
]

itoa_said : (f n : ℕ) → 0 < f → digits f n [] ≢ []
unfolding digits
itoa_said zero n h = absurd (omega arith)
itoa_said (suc f) n h = elim (Bool-cases (ltb n 10)) [
  | inl small ↦ rw small (cons_said _ [])
  | inr large ↦ rw large (digits_said f (n / 10) ((n % 10 + 48) ∷ []) (cons_said _ []))
]

-- Reading what is printed gives the number back, if it is an `int`.
pub atoi-itoa : (n : ℕ) → n ≤ max_int → atoi (itoa n) ≡ some n
unfolding itoa value_of
atoi-itoa n le =
    atoi-of_value (itoa n) n (digits_value (n + 1) n [] (omega arith)) le
      (itoa_said (n + 1) n (omega arith))

none_not_some : {n : ℕ} → none ≡ some n → ⊥
none_not_some h = cc

leb_le : (n m k : ℕ) → (if leb n m then some n else none) ≡ some k → k ≤ m
leb_le n m k h = ground arith

-- A number that is read is an `int`.
pub atoi-le : (s : Text) (n : ℕ) → atoi s ≡ some n → n ≤ max_int
unfolding atoi
atoi-le [] n h = cc
atoi-le (c ∷ s) n h = elim (Option-cases (value_of 0 (c ∷ s))) [
  | inl missing ↦ absurd (none_not_some (rw (missing, atoi) at h))
  | inr (k, is) ↦ leb_le k max_int n (rw (is, atoi) at h)
]
