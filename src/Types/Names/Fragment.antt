-- ===== src/Types/Names/Fragment.antt =====
-- What a sanitized fragment of a name is made of.
use schemahero.Base.{
  ℕ, Bool, true, false, ◌&&◌, ◌||◌, [], ◌∷◌, ◌≡◌, inl, inr, refl, arith, beq, leb, if◌then◌else◌,
  All, Bool-cases,
}
use schemahero.Base.Text.{Text, to_lower}
use schemahero.Types.Canonical.Shape.{Each, Each-reverse}
use schemahero.Types.Names.{sanitize_from, trim_underscores, sanitize_ident_fragment}

-- A lower-case letter, a digit or an underscore.
abbrev pub is_fragment_byte : ℕ → Bool
is_fragment_byte c = leb b'a' c && leb c b'z' || leb b'0' c && leb c b'9' || beq c b'_'

fragment_byte :
    (c : ℕ)
    → (leb b'a' c && leb c b'z' || leb b'0' c && leb c b'9') ≡ true
    → is_fragment_byte c ≡ true
fragment_byte c h = ground arith

if-Each :
    (b : Bool) (s t : Text)
    → Each is_fragment_byte s
    → Each is_fragment_byte t
    → Each is_fragment_byte (if b then s else t)
if-Each true s t h k = h
if-Each false s t h k = k

sanitize_from-Each : (prev : Bool) (s : Text) → Each is_fragment_byte (sanitize_from prev s)
unfolding sanitize_from
sanitize_from-Each prev [] = tt
sanitize_from-Each prev (c ∷ s) =
    elim (Bool-cases (leb b'a' c && leb c b'z' || leb b'0' c && leb c b'9')) [
      | inl t ↦ rw t (fragment_byte c t, sanitize_from-Each false s)
      | inr f ↦
          rw f (if-Each prev _ _ (sanitize_from-Each true s) (refl, sanitize_from-Each true s))
    ]

trim_underscores-Each :
    (s : Text) → Each is_fragment_byte s → Each is_fragment_byte (trim_underscores s)
unfolding trim_underscores
trim_underscores-Each [] h = tt
trim_underscores-Each (c ∷ s) (h, hs) = elim (Bool-cases (beq c b'_')) [
  | inl t ↦ rw t (trim_underscores-Each s hs)
  | inr f ↦ rw f (h, hs)
]

-- A sanitized fragment is made of lower-case letters, digits and underscores.
pub sanitize_ident_fragment-fragment :
    (s : Text) → All (λ c. is_fragment_byte c ≡ true) (sanitize_ident_fragment s)
unfolding sanitize_ident_fragment
sanitize_ident_fragment-fragment s = Each-reverse _ _ (
    trim_underscores-Each _
      (Each-reverse _ _ (trim_underscores-Each _ (sanitize_from-Each false (to_lower s)))))
