-- ===== src/ContextYear/Answers.antt =====
-- Answers with a property: the choices among scanned years, and optional answers with their source.
use talaria_v.Base.{
  ◌<◌, ◌^◌, ◌≡◌, refl, inl, inr, Bool, true, false, ◌&&◌, List, [], ◌∷◌, Option, none, some, ℤ,
  ltb_ℤ, leb_ℤ, add_i32, half_i32, wrap32, arith, Bool-cases, All, pos_part, neg_part,
  if◌then◌else◌,
}
use talaria_v.Text.{Text}
use talaria_v.ContextYear.{
  heading_years, first_within, only_year, paragraph_year, heading_guess, with_source, or_else,
}
use talaria_v.ContextYear.Bounds.{Within}

-- An answer, if there is one, has the property.
abbrev pub Answers : (ℤ → Type 0) → Option ℤ → Type 0
Answers P none = Unit
Answers P (some y) = P y

-- Years far from the limits of `i32`, so that no sum of two wraps around.
abbrev pub IsYear : ℤ → Type 0
IsYear y = (pos_part y < 2 ^ 24) × (neg_part y < 2 ^ 24)

abbrev pub IsWide : ℤ → Type 0
IsWide y = (pos_part y < 2 ^ 25) × (neg_part y < 2 ^ 25)

pub half_sum-Within :
    (a b low high : ℤ)
    → IsWide a
    → IsWide b
    → Within low high a
    → Within low high b
    → Within low high (half_i32 (add_i32 a b))
unfolding half_i32 add_i32 wrap32
half_sum-Within a b low high ha hb ia ib = ground arith

module _ (low high : ℤ) where
  pub heading_years-Within :
      (ys : List ℤ)
      → All IsWide ys
      → All (Within low high) ys
      → Answers (Within low high) (heading_guess (heading_years ys))
  heading_years-Within [] hy h = tt
  heading_years-Within (y ∷ []) hy h = h.0
  heading_years-Within (y ∷ z ∷ []) hy h = elim (Bool-cases (ltb_ℤ y z)) [
    | inl before ↦ rw before (half_sum-Within y z low high hy.0 hy.1.0 h.0 h.1.0)
    | inr after ↦ rw after h.0
  ]
  heading_years-Within (y ∷ z ∷ x ∷ ys) hy h = h.0

  pub first_within-Within : (ys : List ℤ) → Answers (Within low high) (first_within low high ys)
  unfolding first_within
  first_within-Within [] = tt
  first_within-Within (y ∷ ys) = elim (Bool-cases (leb_ℤ low y && leb_ℤ y high)) [
    | inl inside ↦ rw inside (ground arith, ground arith)
    | inr outside ↦ rw outside (first_within-Within ys)
  ]

  pub only_year-Within :
      (ys : List ℤ) → All (Within low high) ys → Answers (Within low high) (only_year ys)
  only_year-Within [] h = tt
  only_year-Within (y ∷ []) h = h.0
  only_year-Within (y ∷ z ∷ ys) h = tt

  pub paragraph_year-Within :
      (ys : List ℤ)
      → All (Within low high) ys
      → Answers (Within low high) (paragraph_year low high ys)
  paragraph_year-Within [] h = tt
  paragraph_year-Within (y ∷ []) h = h.0
  paragraph_year-Within (y ∷ z ∷ ys) h = first_within-Within (y ∷ z ∷ ys)

pub Within-IsWide : (low high y : ℤ) → IsWide low → IsWide high → Within low high y → IsWide y
Within-IsWide low high y hl hh h = (ground arith, ground arith)

-- An answer with its source.
abbrev pub Sourced : (ℤ → Type 0) → Option (ℤ × Text) → Type 0
Sourced P none = Unit
Sourced P (some (y, source)) = P y

pub with_source-Sourced :
    (P : ℤ → Type 0) (o : Option ℤ) (source : Text) → Answers P o → Sourced P (with_source o source)
with_source-Sourced P none source h = tt
with_source-Sourced P (some y) source h = h

pub or_else-Sourced :
    (P : ℤ → Type 0) (o other : Option (ℤ × Text))
    → Sourced P o
    → Sourced P other
    → Sourced P (or_else o other)
or_else-Sourced P none other h k = k
or_else-Sourced P (some (y, source)) other h k = h

pub if-Sourced :
    (P : ℤ → Type 0) (b : Bool) (o : Option (ℤ × Text))
    → (b ≡ true → Sourced P o)
    → Sourced P (if b then o else none)
if-Sourced P true o h = h refl
if-Sourced P false o h = tt

pub Answers-mono :
    (P Q : ℤ → Type 0) (o : Option ℤ) → ((y : ℤ) → P y → Q y) → Answers P o → Answers Q o
Answers-mono P Q none f h = tt
Answers-mono P Q (some y) f h = f y h
