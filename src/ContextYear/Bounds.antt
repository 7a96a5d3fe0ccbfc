-- ===== src/ContextYear/Bounds.antt =====
-- The years that the scan finds and that the inference answers stay within the subject's bounds.
use talaria_v.Base.{
  ◌≡◌, inl, inr, true, not, ◌&&◌, List, [], ◌∷◌, Option, none, some, ℤ, ltb_ℤ, leb_ℤ, eqb_ℤ, ◌≤ℤ◌,
  arith, Bool-cases, All, All-mono, if◌then◌else◌,
}
use talaria_v.Base.Sort.{IsSorted, sort_by-All, sort_by-IsSorted}
use talaria_v.Text.{Text, split, is_ascii_digit}
use talaria_v.ContextYear.{dedup, word_year, years_of_words, scan_years_in_range}

-- The year is one of those from `low` to `high`.
abbrev pub Within : ℤ → ℤ → ℤ → Type 0
Within low high y = (low ≤ℤ y) × (y ≤ℤ high)

-- Each year is before every later one.
abbrev pub IsAscending : List ℤ → Type 0
IsAscending = IsSorted ltb_ℤ

dedup-All : (P : ℤ → Type 0) (ys : List ℤ) → All P ys → All P (dedup ys)
unfolding dedup
dedup-All P [] h = tt
dedup-All P (y ∷ []) h = h
dedup-All P (y ∷ z ∷ ys) h = elim (Bool-cases (eqb_ℤ y z)) [
  | inl same ↦ rw same (dedup-All P (z ∷ ys) h.1)
  | inr apart ↦ rw apart (h.0, dedup-All P (z ∷ ys) h.1)
]

dedup-IsAscending : (ys : List ℤ) → IsSorted leb_ℤ ys → IsAscending (dedup ys)
unfolding dedup
dedup-IsAscending [] h = tt
dedup-IsAscending (y ∷ []) h = (tt, tt)
dedup-IsAscending (y ∷ z ∷ ys) h = elim (Bool-cases (eqb_ℤ y z)) [
  | inl same ↦ rw same (dedup-IsAscending (z ∷ ys) h.1)
  | inr apart ↦
      let before : ltb_ℤ y z ≡ true = ground (arith, h.0.0) in
      let later : All (λ w. ltb_ℤ y w ≡ true) (z ∷ ys) =
        (before, All-mono ys (λ w le. ground (arith, before, le)) h.1.0) in
      rw apart (dedup-All _ (z ∷ ys) later, dedup-IsAscending (z ∷ ys) h.1)
]

year-Within :
    (low high : ℤ) (found : Option ℤ) (ys : List ℤ)
    → All (Within low high) ys
    → All
        (Within low high)
        (elim found [ none ↦ ys | some y ↦ if leb_ℤ low y && leb_ℤ y high then y ∷ ys else ys ])
year-Within low high none ys h = h
year-Within low high (some y) ys h = elim (Bool-cases (leb_ℤ low y && leb_ℤ y high)) [
  | inl inside ↦ rw inside ((ground arith, ground arith), h)
  | inr outside ↦ rw outside h
]

years_of_words-Within :
    (low high : ℤ) (ws : List Text) → All (Within low high) (years_of_words low high ws)
unfolding years_of_words
years_of_words-Within low high [] = tt
years_of_words-Within low high (w ∷ ws) =
    year-Within low high (word_year w) _ (years_of_words-Within low high ws)

-- The scanned years are in strictly ascending order, and each lies within the bounds.
pub scan_years_in_range-IsAscending :
    (text : Text) (low high : ℤ)
    → IsAscending (scan_years_in_range text low high)
      × All (Within low high) (scan_years_in_range text low high)
unfolding scan_years_in_range
scan_years_in_range-IsAscending text low high =
    let words = split (λ c. not (is_ascii_digit c)) text in
    (
      dedup-IsAscending _ (
          sort_by-IsSorted leb_ℤ (λ x y h. ground arith) (λ x y z h k. ground arith)
            (years_of_words low high words)),
      dedup-All (Within low high) _
          (sort_by-All leb_ℤ (Within low high) _ (years_of_words-Within low high words)),
    )
