-- ===== src/Types/Canonical/Shape.antt =====
-- What a canonical expression is made of.
use mathlib.Core.List.{reverse, reverse-cons}
use schemahero.Base.{
  ℕ, zero, suc, Bool, true, false, not, ◌&&◌, ◌||◌, [], ◌∷◌, ◌++◌, ◌≡◌, inl, inr, refl, arith, beq,
  length, All, Bool-cases,
}
use schemahero.Base.Text.{
  Text, lit, is_space, has_prefix, replace_from, replace_all, trim_left, trim_space, to_lower,
}
use schemahero.Types.Canonical.{is_paren, is_gap, collapse, strip_type_casts, canonicalize_sql_expr}

-- A byte that is kept, or a blank: no bracket, no tab and no line break.
abbrev pub is_kept : ℕ → Bool
is_kept c = not (is_paren c) && (beq c b' ' || not (is_gap c))

module _ (p : ℕ → Bool) where
  abbrev pub Each : Text → Type 0
  Each = All (λ c. p c ≡ true)

  Each-append : (s t : Text) → Each s → Each t → Each (s ++ t)
  Each-append [] t h k = k
  Each-append (c ∷ s) t (h, hs) k = (h, Each-append s t hs k)

  pub Each-reverse : (s : Text) → Each s → Each (reverse s)
  Each-reverse [] h = tt
  Each-reverse (c ∷ s) (h, hs) =
      rw (reverse-cons c s) (Each-append (reverse s) (c ∷ []) (Each-reverse s hs) (h, tt))

  Each-trim_left : (s : Text) → Each s → Each (trim_left s)
  unfolding trim_left
  Each-trim_left [] h = tt
  Each-trim_left (c ∷ s) (h, hs) = elim (Bool-cases (is_space c)) [
    | inl t ↦ rw t (Each-trim_left s hs)
    | inr f ↦ rw f (h, hs)
  ]

  Each-trim_space : (s : Text) → Each s → Each (trim_space s)
  unfolding trim_space
  Each-trim_space s h = Each-reverse _ (Each-trim_left _ (Each-reverse _ (Each-trim_left s h)))

  Each-replace_from :
      (q : ℕ) (qs new : Text) (skip : ℕ) (s : Text)
      → Each new
      → Each s
      → Each (replace_from q qs new skip s)
  unfolding replace_from
  Each-replace_from q qs new skip [] k h = tt
  Each-replace_from q qs new (suc skip) (c ∷ s) k (h, hs) = Each-replace_from q qs new skip s k hs
  Each-replace_from q qs new zero (c ∷ s) k (h, hs) =
      elim (Bool-cases (has_prefix (q ∷ qs) (c ∷ s))) [
        | inl t ↦ rw t (Each-append new _ k (Each-replace_from q qs new (length qs) s k hs))
        | inr f ↦ rw f (h, Each-replace_from q qs new zero s k hs)
      ]

  Each-replace_all : (old new s : Text) → Each new → Each s → Each (replace_all old new s)
  unfolding replace_all
  Each-replace_all [] new s k h = h
  Each-replace_all (q ∷ qs) new s k h = Each-replace_from q qs new zero s k h

plain_kept : (c : ℕ) → (not (is_paren c) && not (is_gap c)) ≡ true → is_kept c ≡ true
plain_kept c h = ground arith

collapse-kept : (started pending : Bool) (s : Text) → Each is_kept (collapse started pending s)
unfolding collapse
collapse-kept started pending [] = tt
collapse-kept started pending (c ∷ s) = elim (Bool-cases (not (is_paren c) && not (is_gap c))) [
  | inr f ↦ rw f (collapse-kept (started || false) (pending || is_gap c) s)
  | inl t ↦ elim (Bool-cases (pending && started)) [
    | inl g ↦ rw (t, g) (refl, (plain_kept c t, collapse-kept (started || true) false s))
    | inr g ↦ rw (t, g) (plain_kept c t, collapse-kept (started || true) false s)
  ]
]

-- A canonical expression has no bracket, no tab and no line break.
pub canonicalize_sql_expr-kept : (s : Text) → All (λ c. is_kept c ≡ true) (canonicalize_sql_expr s)
unfolding canonicalize_sql_expr lit
canonicalize_sql_expr-kept s =
    Each-replace_all is_kept (lit " ,") (lit ",") _ (refl, tt)
      (Each-replace_all is_kept (lit ", ") (lit ",") _ (refl, tt)
        (Each-trim_space is_kept _ (collapse-kept false false (strip_type_casts (to_lower s)))))
