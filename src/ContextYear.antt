-- ===== src/ContextYear.antt =====
-- Approximate years for undated anecdotes: crates/talaria-quality/src/context_year.rs.
pub mod Window
pub mod Bounds
pub mod Answers
pub mod Inference
mod Tests
use talaria_v.Base.{
  ℕ, zero, suc, ◌+◌, ◌-◌, ltb, leb, Bool, true, false, not, ◌&&◌, ◌||◌, List, [], ◌∷◌, ◌++◌, Option,
  none, some, ℤ, pos, ◌==◌, ltb_ℤ, leb_ℤ, eqb_ℤ, add_i32, sub_i32, half_i32, if◌then◌else◌,
  is_empty, unwrap_or, keep,
}
use talaria_v.Base.Sort.{sort_by}
use talaria_v.Text.{
  Text, codes, is, is_one_of, is_ascii_digit, split, trim, byte_len, utf8_width, starts_with,
}
use talaria_v.Text.Decimal.{parse_i32, show_int}
use talaria_v.Time.{TypedTime, approx}

-- `APPROX_ELIGIBLE_TYPES.contains`
unfoldable pub is_approx_eligible_type : Text → Bool
unfolding is_one_of
is_approx_eligible_type event_type = is_one_of event_type (
    "meeting" ∷ "trial" ∷ "legal_event" ∷ "health_event" ∷ "education" ∷ "burial"
    ∷ "political_event" ∷ "financial_event" ∷ "scandal" ∷ "censorship" ∷ "residence" ∷ "arrival"
    ∷ "departure" ∷ "travel" ∷ "exile" ∷ "battle" ∷ "siege" ∷ "work" ∷ "imprisonment" ∷ [])

-- `years.dedup()`: one of each run of equal years.
unfoldable pub dedup : List ℤ → List ℤ
dedup [] = []
dedup (y ∷ []) = y ∷ []
dedup (y ∷ z ∷ ys) = let rest = dedup (z ∷ ys) in if eqb_ℤ y z then rest else y ∷ rest

-- The year that a word of four bytes spells.
unfoldable pub word_year : Text → Option ℤ
unfolding byte_len parse_i32
word_year w = if byte_len w == 4 then parse_i32 w else none

-- The years of the words within the bounds, in the order of the text.
unfoldable pub years_of_words : ℤ → ℤ → List Text → List ℤ
unfolding word_year
years_of_words min_year max_year [] = []
years_of_words min_year max_year (w ∷ ws) =
    let rest = years_of_words min_year max_year ws in
    elim (word_year w) [
      | none ↦ rest
      | some y ↦ if leb_ℤ min_year y && leb_ℤ y max_year then y ∷ rest else rest
    ]

unfoldable pub scan_years_in_range : Text → ℤ → ℤ → List ℤ
unfolding years_of_words sort_by dedup split is_ascii_digit
scan_years_in_range text min_year max_year =
    dedup
      (sort_by leb_ℤ (years_of_words min_year max_year (split (λ c. not (is_ascii_digit c)) text)))

abbrev heading_years : List ℤ → Option (ℤ × Option ℤ)
heading_years [] = none
heading_years (single ∷ []) = some (single, none)
heading_years (start ∷ end ∷ []) =
    if ltb_ℤ start end then some (start, some end) else some (start, none)
heading_years (start ∷ _ ∷ _ ∷ _) = some (start, none)

unfoldable pub years_from_section_heading : Text → ℤ → ℤ → Option (ℤ × Option ℤ)
unfolding scan_years_in_range
years_from_section_heading heading min_year max_year =
    heading_years (scan_years_in_range heading min_year max_year)

-- The first year within the bounds.
unfoldable pub first_within : ℤ → ℤ → List ℤ → Option ℤ
first_within min_year max_year [] = none
first_within min_year max_year (y ∷ ys) =
    let rest = first_within min_year max_year ys in
    if leb_ℤ min_year y && leb_ℤ y max_year then some y else rest

abbrev only_year : List ℤ → Option ℤ
only_year [] = none
only_year (y ∷ []) = some y
only_year (y ∷ z ∷ ys) = none

-- The choice from the years of the paragraph.
abbrev paragraph_year : ℤ → ℤ → List ℤ → Option ℤ
paragraph_year min_year max_year [] = none
paragraph_year min_year max_year (y ∷ []) = some y
paragraph_year min_year max_year (y ∷ z ∷ ys) = first_within min_year max_year (y ∷ z ∷ ys)

unfoldable pub year_from_nearby_context : Text → Text → Option ℤ → Option ℤ → Option ℤ
unfolding scan_years_in_range first_within
year_from_nearby_context clause_text full_paragraph birth_year death_year =
    let min_year = unwrap_or birth_year (pos 1000) in
    let max_year = unwrap_or death_year (pos 2100) in
    elim (only_year (scan_years_in_range clause_text min_year max_year)) [
      | some y ↦ some y
      | none ↦
          paragraph_year min_year max_year (scan_years_in_range full_paragraph min_year max_year)
    ]

-- `a.min(b)`
abbrev min_ℤ : ℤ → ℤ → ℤ
min_ℤ a b = if leb_ℤ a b then a else b

abbrev midpoint : Text → ℤ → ℤ → Option ℤ
midpoint event_type birth death =
    if is event_type "burial"
    then some death
    else if is event_type "education"
    then some (half_i32 (add_i32 (add_i32 birth (pos 6)) (min_ℤ (add_i32 birth (pos 25)) death)))
    else if leb_ℤ (sub_i32 death birth) (pos 20)
    then some (half_i32 (add_i32 birth death))
    else none

unfoldable pub year_from_lifespan_midpoint : Text → Option ℤ → Option ℤ → Option ℤ
unfolding is half_i32 add_i32 sub_i32
year_from_lifespan_midpoint event_type none death_year = none
year_from_lifespan_midpoint event_type (some birth) none = none
year_from_lifespan_midpoint event_type (some birth) (some death) =
    if ltb_ℤ birth death then midpoint event_type birth death else none

abbrev heading_guess : Option (ℤ × Option ℤ) → Option ℤ
heading_guess none = none
heading_guess (some (start, none)) = some start
heading_guess (some (start, some end)) = some (half_i32 (add_i32 start end))

-- The source of an inferred year.
abbrev with_source : Option ℤ → Text → Option (ℤ × Text)
with_source none source = none
with_source (some y) source = some (y, source)

-- The first answer that there is.
abbrev or_else {ℓ} : {A : Type ℓ} → Option A → Option A → Option A
or_else none other = other
or_else (some a) other = some a

unfoldable pub from_heading : Option Text → ℤ → ℤ → Option ℤ
unfolding years_from_section_heading half_i32 add_i32
from_heading none min_year max_year = none
from_heading (some heading) min_year max_year =
    heading_guess (years_from_section_heading heading min_year max_year)

unfoldable pub from_paragraph : Text → Option Text → Option ℤ → Option ℤ → Option ℤ
unfolding year_from_nearby_context
from_paragraph clause_text none birth_year death_year = none
from_paragraph clause_text (some para) birth_year death_year =
    year_from_nearby_context clause_text para birth_year death_year

-- The last year that a heading may name.
abbrev pub latest : Option ℤ → ℤ
latest none = pos 2100
latest (some d) = add_i32 d (pos 5)

unfoldable pub infer_approximate_year :
    Text → Text → Option Text → Option Text → Option ℤ → Option ℤ → Option (ℤ × Text)
unfolding is_approx_eligible_type from_heading from_paragraph is codes year_from_lifespan_midpoint
    add_i32
infer_approximate_year event_type clause_text paragraph_context section_heading birth_year
      death_year =
    if not (is_approx_eligible_type event_type)
    then none
    else or_else
        (with_source
          (from_heading section_heading (unwrap_or birth_year (pos 1000)) (latest death_year))
          (codes "section_heading"))
        (or_else
          (with_source (from_paragraph clause_text paragraph_context birth_year death_year)
            (codes "paragraph_context"))
          (or_else
            (if is event_type "burial"
              then with_source death_year (codes "death_year_for_burial")
              else none)
            (if is event_type "education"
              then with_source (year_from_lifespan_midpoint event_type birth_year death_year)
                  (codes "lifespan_education")
              else none)))

unfoldable pub approx_typed_time : ℤ → Text → TypedTime
unfolding codes show_int
approx_typed_time year inference_source =
    approx year (
      some
        (b'~' ∷ (show_int year ++ (codes " (inferred from " ++ (inference_source ++ b')' ∷ [])))))
