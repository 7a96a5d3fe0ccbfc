-- ===== src/ContextYear/Inference.antt =====
-- The inferred year of an undated event stays within the subject's bounds.
use talaria_v.Base.{
  ◌≡◌, inl, inr, true, List, Option, none, some, ℤ, pos, ltb_ℤ, ◌≤ℤ◌, ◌<ℤ◌, add_i32, half_i32,
  wrap32, arith, Bool-cases, All, All-mono, unwrap_or, subst, sym,
}
use talaria_v.Text.{Text, codes, is}
use talaria_v.ContextYear.{
  scan_years_in_range, years_from_section_heading, year_from_nearby_context, only_year,
  paragraph_year, min_ℤ, year_from_lifespan_midpoint, from_heading, from_paragraph, latest,
  infer_approximate_year, is_approx_eligible_type,
}
use talaria_v.Text.Equality.{is_iff}
use talaria_v.ContextYear.Answers.{
  Answers, IsYear, IsWide, half_sum-Within, heading_years-Within, only_year-Within,
  paragraph_year-Within, Within-IsWide, Sourced, with_source-Sourced, or_else-Sourced, if-Sourced,
  Answers-mono,
}
use talaria_v.ContextYear.Bounds.{Within, scan_years_in_range-IsAscending}

-- The earliest year that the inference may answer, and the last one of the life.
abbrev pub earliest : Option ℤ → ℤ
earliest birth_year = unwrap_or birth_year (pos 1000)

abbrev pub life_end : Option ℤ → ℤ
life_end death_year = unwrap_or death_year (pos 2100)

from_heading-Within :
    (heading : Option Text) (low high : ℤ)
    → IsWide low
    → IsWide high
    → Answers (Within low high) (from_heading heading low high)
unfolding from_heading years_from_section_heading
from_heading-Within none low high hl hh = tt
from_heading-Within (some heading) low high hl hh =
    let years = scan_years_in_range heading low high in
    let inside = (scan_years_in_range-IsAscending heading low high).1 in
    heading_years-Within low high years
      (All-mono years (λ y. Within-IsWide low high y hl hh) inside) inside

choice-Within :
    (low high : ℤ) (found : Option ℤ) (ys : List ℤ)
    → Answers (Within low high) found
    → All (Within low high) ys
    → Answers (Within low high) (elim found [ some y ↦ some y | none ↦ paragraph_year low high ys ])
choice-Within low high none ys h k = paragraph_year-Within low high ys k
choice-Within low high (some y) ys h k = h

from_paragraph-Within :
    (clause_text : Text) (para : Option Text) (birth_year death_year : Option ℤ)
    → Answers
        (Within (earliest birth_year) (life_end death_year))
        (from_paragraph clause_text para birth_year death_year)
unfolding from_paragraph year_from_nearby_context
from_paragraph-Within clause_text none birth_year death_year = tt
from_paragraph-Within clause_text (some para) birth_year death_year =
    let low = earliest birth_year in
    let high = life_end death_year in
    let clause_years = scan_years_in_range clause_text low high in
    let para_years = scan_years_in_range para low high in
    choice-Within low high (only_year clause_years) para_years
      (only_year-Within low high clause_years
        (scan_years_in_range-IsAscending clause_text low high).1)
      (scan_years_in_range-IsAscending para low high).1

module _ (b d : ℤ) (hb : IsYear b) (hd : IsYear d) (before : b <ℤ d) where
  -- Nothing wraps around in the years of education.
  add_6 : Within b (add_i32 d (pos 5)) (add_i32 b (pos 6)) × IsWide (add_i32 b (pos 6))
  unfolding add_i32 wrap32
  add_6 = ground arith

  min_25 :
      Within b (add_i32 d (pos 5)) (min_ℤ (add_i32 b (pos 25)) d)
      × IsWide (min_ℤ (add_i32 b (pos 25)) d)
  unfolding add_i32 wrap32
  min_25 = ground arith

  midpoint-Within :
      Within b
        (add_i32 d (pos 5))
        (half_i32 (add_i32 (add_i32 b (pos 6)) (min_ℤ (add_i32 b (pos 25)) d)))
  midpoint-Within = half_sum-Within _ _ b (add_i32 d (pos 5)) add_6.1 min_25.1 add_6.0 min_25.0

education-Within :
    (birth_year death_year : Option ℤ)
    → IsYear (earliest birth_year)
    → IsYear (life_end death_year)
    → Answers
        (Within (earliest birth_year) (latest death_year))
        (year_from_lifespan_midpoint (codes "education") birth_year death_year)
unfolding year_from_lifespan_midpoint codes
education-Within none death_year hb hd = tt
education-Within (some b) none hb hd = tt
education-Within (some b) (some d) hb hd = elim (Bool-cases (ltb_ℤ b d)) [
  | inl before ↦ rw before (midpoint-Within b d hb hd (ground (arith, before)))
  | inr after ↦ rw after tt
]

IsYear-IsWide : (y : ℤ) → IsYear y → IsWide y
IsYear-IsWide y h = ground arith

latest-IsWide : (death_year : Option ℤ) → IsYear (life_end death_year) → IsWide (latest death_year)
unfolding add_i32 wrap32
latest-IsWide none h = (omega arith, omega arith)
latest-IsWide (some d) h = ground arith

life_end-latest :
    (death_year : Option ℤ)
    → IsYear (life_end death_year)
    → life_end death_year ≤ℤ latest death_year
unfolding add_i32 wrap32
life_end-latest none h = omega arith
life_end-latest (some d) h = ground arith

death-Within :
    (birth_year death_year : Option ℤ)
    → IsYear (life_end death_year)
    → earliest birth_year ≤ℤ life_end death_year
    → Answers (Within (earliest birth_year) (latest death_year)) death_year
death-Within birth_year none hd order = tt
death-Within birth_year (some d) hd order = (order, life_end-latest (some d) hd)

module _ (birth_year death_year : Option ℤ) (hb : IsYear (earliest birth_year))
    (hd : IsYear (life_end death_year)) (order : earliest birth_year ≤ℤ life_end death_year) where
  abbrev InLife : ℤ → Type 0
  InLife = Within (earliest birth_year) (latest death_year)

  education-InLife :
      (event_type : Text)
      → is event_type "education" ≡ true
      → Answers InLife (year_from_lifespan_midpoint event_type birth_year death_year)
  education-InLife event_type e =
      subst (λ t. Answers InLife (year_from_lifespan_midpoint t birth_year death_year))
        (sym ((is_iff event_type "education").0 e)) (education-Within birth_year death_year hb hd)

  death-InLife : Answers InLife death_year
  death-InLife = death-Within birth_year death_year hd order

  paragraph-InLife :
      (clause_text : Text) (para : Option Text)
      → Answers InLife (from_paragraph clause_text para birth_year death_year)
  paragraph-InLife clause_text para =
      let within = life_end-latest death_year hd in
      Answers-mono _ InLife (from_paragraph clause_text para birth_year death_year)
        (λ y h. (h.0, omega (arith, h.1, within)))
        (from_paragraph-Within clause_text para birth_year death_year)

  infer-Sourced :
      (event_type clause_text : Text) (para heading : Option Text)
      → Sourced InLife
          (infer_approximate_year event_type clause_text para heading birth_year death_year)
  unfolding infer_approximate_year codes
  infer-Sourced event_type clause_text para heading =
      elim (Bool-cases (is_approx_eligible_type event_type)) [
        | inr other ↦ rw other tt
        | inl eligible ↦ rw eligible (
            or_else-Sourced InLife _ _
              (with_source-Sourced InLife _ _ (
                from_heading-Within heading _ _ (IsYear-IsWide _ hb) (latest-IsWide death_year hd)))
              (or_else-Sourced InLife _ _
                (with_source-Sourced InLife _ _ (paragraph-InLife clause_text para))
                (or_else-Sourced InLife _ _
                  (if-Sourced InLife (is event_type "burial") _
                    (λ e. with_source-Sourced InLife _ _ death-InLife))
                  (if-Sourced InLife (is event_type "education") _
                    (λ e. with_source-Sourced InLife _ _ (education-InLife event_type e))))))
      ]

  -- Where the known birth (or 1000) is not after the known death (or 2100), and both are below 2^24 in
  -- absolute value, an inferred year is not before that birth and at most five years after the known
  -- death (or at most 2100), whichever context it comes from.
  pub infer_approximate_year-Within :
      (event_type clause_text : Text) (para heading : Option Text) (y : ℤ) (source : Text)
      → infer_approximate_year event_type clause_text para heading birth_year death_year
        ≡ some (y, source)
      → Within (earliest birth_year) (latest death_year) y
  infer_approximate_year-Within event_type clause_text para heading y source e =
      subst (Sourced InLife) e (infer-Sourced event_type clause_text para heading)
