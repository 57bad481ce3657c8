-- ===== src/Database/Ddl/RoundTrip.antt =====
-- The statements that a planner joins are those that the migration controller executes.
use mathlib.Core.List.{reverse, reverse-append, reverse-reverse}
use schemahero.Base.{
  ℕ, Bool, true, false, not, ◌||◌, List, [], ◌∷◌, ◌++◌, ◌≡◌, refl, sym, ap, ◌∙◌, beq, All,
  Bool-cases, inl, inr,
}
use schemahero.Base.Text.{
  Text, lit, ◌==◌, is_empty, is_space, split, join, trim_left, trim_space, has_suffix, has_prefix,
}
use schemahero.Base.Text.Equality.{eq_iff}
use schemahero.Types.Canonical.{span}
use schemahero.Database.Ddl.{
  fresh, opened_tag, next_tag, next_function_tag, read_text_line, read_line, read_lines,
  get_statements_from_ddl,
}

-- Each of the joined statements but the last ends in the separator.
abbrev pub terminated : List Text → List Text
terminated [] = []
terminated (s ∷ []) = s ∷ []
terminated (s ∷ t ∷ r) = (s ++ lit ";") ∷ terminated (t ∷ r)

-- A statement of one line, without a dollar sign, that begins and ends in a byte which is not blank
-- and that is not the marker of a function body.
pub record IsLine (s : Text) : Type 0 where
  pub no_newline : All (λ c. beq c b'\n' ≡ false) s
  pub no_dollar : All (λ c. beq c b'$' ≡ false) s
  pub first : ℕ
  pub behind : Text
  pub starts : s ≡ first ∷ behind
  pub first_plain : is_space first ≡ false
  pub last : ℕ
  pub before : Text
  pub ends : s ≡ before ++ last ∷ []
  pub last_plain : is_space last ≡ false
  pub no_marker : s == lit "-- Function body follows" ≡ false

-- Splitting takes a joined text apart, behind the semicolon.
split-terminated :
    (s rest : Text)
    → All (λ c. beq c b'\n' ≡ false) s
    → split b'\n' (s ++ lit ";\n" ++ rest) ≡ (s ++ lit ";") ∷ split b'\n' rest
unfolding split lit
split-terminated [] rest h = refl
split-terminated (c ∷ s) rest (h, hs) = rw (h, split-terminated s rest hs) refl

split-last : (line : Text) → All (λ c. beq c b'\n' ≡ false) line → split b'\n' line ≡ line ∷ []
unfolding split
split-last [] h = refl
split-last (c ∷ line) (h, hs) = rw (h, split-last line hs) refl

-- Trimming leaves a text alone that begins and ends in a byte which is not blank.
trim_left-plain : (c : ℕ) (s : Text) → is_space c ≡ false → trim_left (c ∷ s) ≡ c ∷ s
unfolding trim_left
trim_left-plain c s h = rw h refl

trim_space-plain :
    (first : ℕ) (behind before : Text) (last : ℕ) (s : Text)
    → s ≡ first ∷ behind
    → s ≡ before ++ last ∷ []
    → is_space first ≡ false
    → is_space last ≡ false
    → trim_space s ≡ s
unfolding trim_space
trim_space-plain first behind before last s e e' h h' =
    let left : trim_left s ≡ s = rw e (trim_left-plain first behind h) in
    let turned : reverse s ≡ last ∷ reverse before =
      ap reverse e' ∙ reverse-append before (last ∷ []) in
    ap (λ t. reverse (trim_left (reverse t))) left
    ∙ ap (λ t. reverse (trim_left t)) turned
    ∙ ap reverse (trim_left-plain last (reverse before) h')
    ∙ ap reverse (sym turned)
    ∙ reverse-reverse s

trim_space-gap : (s : Text) → trim_space (lit " " ++ s) ≡ trim_space s
unfolding trim_space trim_left lit is_space
trim_space-gap s = refl

-- A statement behind which the separator stands.
ends_in_semicolon : (s : Text) → has_suffix (lit ";") (s ++ lit ";") ≡ true
unfolding has_suffix has_prefix lit
ends_in_semicolon s = rw (reverse-append s (b';' ∷ [])) refl

not_marker_terminated : (s : Text) → (s ++ lit ";") == lit "-- Function body follows" ≡ false
unfolding lit
not_marker_terminated s = elim (Bool-cases ((s ++ lit ";") == lit "-- Function body follows")) [
  | inl t ↦
      let e = ap reverse ((eq_iff (s ++ lit ";") (lit "-- Function body follows")).0 t) in
      absurd (heads (sym (reverse-append s (b';' ∷ [])) ∙ e))
  | inr f ↦ f
]
  where
    heads : {x y : Text} → b';' ∷ x ≡ b's' ∷ y → ⊥
    heads h = cc

-- A text without a dollar sign opens no dollar quote.
span-eq_self :
    (s : Text) → All (λ c. beq c b'$' ≡ false) s → span (λ c. not (beq c b'$')) s ≡ (s, [])
unfolding span
span-eq_self [] h = refl
span-eq_self (c ∷ s) (h, hs) = rw (h, span-eq_self s hs) refl

opened_tag-eq-nil : (s : Text) → All (λ c. beq c b'$' ≡ false) s → opened_tag s ≡ []
unfolding opened_tag
opened_tag-eq-nil s h = rw (span-eq_self s h) refl

or_true : (b c : Bool) → c ≡ true → (b || c) ≡ true
or_true true c h = refl
or_true false c h = h

not_empty : (c : ℕ) (s t : Text) → s ≡ c ∷ t → is_empty s ≡ false
not_empty c s t e = rw e refl

-- A line that is trimmed, that opens no quote and that ends a statement is passed on.
read_line-flushed :
    (last : Bool) (line : Text)
    → trim_space line ≡ line
    → is_empty line ≡ false
    → opened_tag line ≡ []
    → line == lit "-- Function body follows" ≡ false
    → (last || has_suffix (lit ";") line) ≡ true
    → read_line last fresh line ≡ (fresh, line ∷ [])
unfolding read_line read_text_line next_tag next_function_tag
read_line-flushed last line trimmed said no_tag no_marker ends =
    rw (trimmed, said, no_tag, no_marker, ends, trim_space-gap line, trimmed) refl

All-append : (p : ℕ → Type 0) (s t : Text) → All p s → All p t → All p (s ++ t)
All-append p [] t h k = k
All-append p (c ∷ s) t (h, hs) k = (h, All-append p s t hs k)

last_line : (s : Text) → IsLine s → read_line true fresh s ≡ (fresh, s ∷ [])
last_line s h =
    read_line-flushed true s
      (trim_space-plain h.first h.behind h.before h.last s h.starts h.ends h.first_plain
        h.last_plain)
      (not_empty h.first s h.behind h.starts) (opened_tag-eq-nil s h.no_dollar) h.no_marker refl

terminated_line :
    (last : Bool) (s : Text)
    → IsLine s
    → read_line last fresh (s ++ lit ";") ≡ (fresh, (s ++ lit ";") ∷ [])
unfolding lit is_space
terminated_line last s h =
    let starts : s ++ lit ";" ≡ h.first ∷ (h.behind ++ lit ";") = ap (λ t. t ++ lit ";") h.starts in
    read_line-flushed last (s ++ lit ";")
      (trim_space-plain h.first (h.behind ++ lit ";") s b';' (s ++ lit ";") starts refl
        h.first_plain refl)
      (not_empty h.first _ _ starts)
      (opened_tag-eq-nil _ (All-append _ s (lit ";") h.no_dollar (refl, tt)))
      (not_marker_terminated s) (or_true last _ (ends_in_semicolon s))

read_lines-join :
    (ss : List Text)
    → All IsLine ss
    → read_lines fresh (split b'\n' (join (lit ";\n") ss)) ≡ terminated ss
unfolding read_lines read_line join lit split trim_space
read_lines-join [] h = refl
read_lines-join (s ∷ []) (h, _) = rw (split-last s h.no_newline, last_line s h) refl
read_lines-join (s ∷ t ∷ r) (h, hs) =
    rw
      (
        split-terminated s (join (lit ";\n") (t ∷ r)) h.no_newline,
        terminated_line _ s h,
        read_lines-join (t ∷ r) hs,
      )
      refl

-- The statements of a plan, joined by a semicolon and a line break as the controllers join them, are
-- split into the same statements in the same order, each but the last with its semicolon, if each of
-- them is a single line as `IsLine` says.
pub get_statements_from_ddl-join :
    (statements : List Text)
    → All IsLine statements
    → get_statements_from_ddl (join (lit ";\n") statements) ≡ terminated statements
unfolding get_statements_from_ddl
get_statements_from_ddl-join statements h = read_lines-join statements h
