-- ===== src/Types/Canonical/Fuel.antt =====
-- The two loops that run on fuel end: the length of the text is enough fuel, and more changes nothing.
use schemahero.Base.{
  ℕ, zero, suc, ◌+◌, ◌≤◌, ◌<◌, Bool, true, false, ◌&&◌, ◌||◌, [], ◌∷◌, ◌≡◌, inl, inr, refl, sym,
  ◌∙◌, arith, beq, length, drop, not, if◌then◌else◌, Bool-cases,
}
use schemahero.Base.Text.{Text, lit, is_empty, to_lower, has_prefix}
use schemahero.Types.Canonical.{
  span, is_space_or_tab, consume_word, qualified_word, is_type_continuation_word,
  continuation_words, balanced, depth_after, modifier, array_markers, skip_type_token, strip_round,
  strip_from, strip_type_casts,
}

-- A choice of two ends that are both within a bound.
if_within :
    (b : Bool) (x y : Text × Text) (n : ℕ)
    → length x.1 ≤ n
    → length y.1 ≤ n
    → length (if b then x else y).1 ≤ n
if_within true x y n h k = h
if_within false x y n h k = k

span-length : (p : ℕ → Bool) (s : Text) → length (span p s).0 + length (span p s).1 ≡ length s
unfolding span
span-length p [] = omega arith
span-length p (c ∷ s) = elim (Bool-cases (p c)) [
  | inl t ↦ rw t (omega (arith, span-length p s))
  | inr f ↦ rw f (omega arith)
]

span_rest : (p : ℕ → Bool) (s : Text) → length (span p s).1 ≤ length s
span_rest p s = omega (arith, span-length p s)

consume_word-length : (s : Text) → length (consume_word s).0 + length (consume_word s).1 ≡ length s
unfolding consume_word
consume_word-length s = span-length _ s

qualified_word_rest : (s : Text) → length (qualified_word s).1 ≤ length s
unfolding qualified_word
qualified_word_rest [] = omega arith
qualified_word_rest (c ∷ s) =
    if_within (beq c b'.') _ _ (length (c ∷ s))
      (if_within (is_empty (consume_word s).0) ([], c ∷ s)
        (c ∷ (consume_word s).0, (consume_word s).1) (length (c ∷ s)) (omega arith)
        (omega (arith, consume_word-length s)))
      (omega arith)

nonempty_length : (w : Text) → is_empty w ≡ false → 0 < length w
nonempty_length [] h = cc
nonempty_length (c ∷ w) h = omega arith

continuation_words_rest : (f : ℕ) (s : Text) → length (continuation_words f s).1 ≤ length s
unfolding continuation_words
continuation_words_rest zero s = omega arith
continuation_words_rest (suc f) s =
    let r = (span is_space_or_tab s).1 in
    let r' = (consume_word r).1 in
    if_within (is_empty (consume_word r).0) ([], s) _ (length s) (omega arith)
      (if_within (is_type_continuation_word (to_lower (consume_word r).0)) _ ([], s) (length s)
        (omega
          (arith, continuation_words_rest f r', consume_word-length r, span_rest is_space_or_tab s))
        (omega arith))

balanced_rest : (depth : ℕ) (s : Text) → length (balanced depth s).1 ≤ length s
unfolding balanced
balanced_rest depth [] = omega arith
balanced_rest depth (c ∷ s) =
    if_within (beq c b')' && beq depth 1) (c ∷ [], s) _ (length (c ∷ s)) (omega arith)
      (omega (arith, balanced_rest (depth_after depth c) s))

modifier_rest : (s : Text) → length (modifier s).1 ≤ length s
unfolding modifier
modifier_rest [] = omega arith
modifier_rest (c ∷ s) =
    if_within (beq c b'(') _ ([], c ∷ s) (length (c ∷ s)) (balanced_rest 0 (c ∷ s)) (omega arith)

array_markers_rest : (inside : Bool) (s : Text) → length (array_markers inside s).1 ≤ length s
unfolding array_markers
array_markers_rest inside [] = omega arith
array_markers_rest inside (c ∷ s) =
    if_within (inside || beq c b'[') _ ([], c ∷ s) (length (c ∷ s))
      (omega (arith, array_markers_rest (if inside then not (beq c b']') else true) s))
      (omega arith)

skip_type_token_rest : (s : Text) → length (skip_type_token s).1 ≤ length s
unfolding skip_type_token
skip_type_token_rest s =
    let r = (consume_word s).1 in
    let r' = (qualified_word r).1 in
    let r'' = (continuation_words (length r') r').1 in
    let r''' = (modifier r'').1 in
    omega (
      arith,
      consume_word-length s,
      qualified_word_rest r,
      continuation_words_rest (length r') r',
      modifier_rest r'',
      array_markers_rest false r''',
    )

drop_rest : (s : Text) → length (drop 1 s) ≤ length s
drop_rest [] = omega arith
drop_rest (c ∷ s) = omega arith

strip_round_rest : (out : Text) (c : ℕ) (s : Text) → length (strip_round out c s).1 ≤ length s
unfolding strip_round
strip_round_rest out c s =
    if_within (beq c b':' && has_prefix (lit ":") s) _ (c ∷ out, s) (length s)
      (omega (arith, skip_type_token_rest (drop 1 s), drop_rest s)) (omega arith)

-- Each round of the loop leaves less to read, so that any two amounts of fuel that are not below the
-- length of the text give the same.
strip_from-fuels :
    (f g : ℕ) (out s : Text) → length s ≤ f → length s ≤ g → strip_from f out s ≡ strip_from g out s
unfolding strip_from
strip_from-fuels zero zero out s h k = refl
strip_from-fuels zero (suc g) out [] h k = refl
strip_from-fuels zero (suc g) out (c ∷ s) h k = absurd (omega arith)
strip_from-fuels (suc f) zero out [] h k = refl
strip_from-fuels (suc f) zero out (c ∷ s) h k = absurd (omega arith)
strip_from-fuels (suc f) (suc g) out [] h k = refl
strip_from-fuels (suc f) (suc g) out (c ∷ s) h k =
    let (out', r) = strip_round out c s in
    strip_from-fuels f g out' r (omega (arith, strip_round_rest out c s))
      (omega (arith, strip_round_rest out c s))

-- The loop of stripTypeCasts ends: with any fuel from the length of the text on it returns the same,
-- which is what `strip_type_casts` returns.
pub strip_from-strip_type_casts :
    (fuel : ℕ) (s : Text) → length s ≤ fuel → strip_from fuel [] s ≡ strip_type_casts s
unfolding strip_type_casts
strip_from-strip_type_casts fuel s h = strip_from-fuels fuel (length s) [] s h (omega arith)

continuation_words_round :
    (f g : ℕ) (s : Text)
    → ((r : Text) → length r < length s → continuation_words f r ≡ continuation_words g r)
    → continuation_words (suc f) s ≡ continuation_words (suc g) s
unfolding continuation_words
continuation_words_round f g s same =
    let r = (span is_space_or_tab s).1 in
    let (w, r') = consume_word r in
    elim (Bool-cases (is_empty w)) [
      | inl t ↦ rw t refl
      | inr word ↦
          let shorter : length r' < length s =
            omega
              (arith, nonempty_length w word, consume_word-length r, span_rest is_space_or_tab s) in
          rw (same r' shorter) refl
    ]

-- Without text there is no word.
continuation_words_end : (f : ℕ) → continuation_words f [] ≡ ([], [])
unfolding continuation_words consume_word span
continuation_words_end zero = refl
continuation_words_end (suc f) = refl

-- The loop over the words that extend a type ends: any two amounts of fuel that are not below the
-- length of the text give the same.
continuation_words-fuels :
    (f g : ℕ) (s : Text)
    → length s ≤ f
    → length s ≤ g
    → continuation_words f s ≡ continuation_words g s
continuation_words-fuels zero g [] h k =
    continuation_words_end zero ∙ sym (continuation_words_end g)
continuation_words-fuels zero g (c ∷ s) h k = absurd (omega arith)
continuation_words-fuels (suc f) zero [] h k =
    continuation_words_end (suc f) ∙ sym (continuation_words_end zero)
continuation_words-fuels (suc f) zero (c ∷ s) h k = absurd (omega arith)
continuation_words-fuels (suc f) (suc g) s h k =
    continuation_words_round f g s
      (λ r shorter. continuation_words-fuels f g r (omega arith) (omega arith))
