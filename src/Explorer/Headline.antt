-- ===== src/Explorer/Headline.antt =====
-- Summaries and headlines of the explorer.
use talaria_v.Base.{
  ℕ, ◌+◌, ◌≢◌, ◌≤◌, refl, ℤ, Bool, List, [], ◌∷◌, ◌++◌, Option, none, some, ltb, ◌==◌,
  if◌then◌else◌, length, take, map, arith, unwrap_or, Bool-cases, inl, inr, length-append,
  length-take,
}
use talaria_v.Text.{Text, codes, is, trim, trim_end_matches, is_whitespace, join}
use talaria_v.Text.Find.{text_before}
use talaria_v.Text.Decimal.{show_int}
use talaria_v.Explorer.{is_statement_blob, is_human_place_label, is_occurrence_prose, trimmed}

-- `a.or_else(b)`
abbrev or_else : Option Text → Option Text → Option Text
or_else none other = other
or_else (some s) other = some s

unfoldable pub first_sentence : Text → ℕ → Text
unfolding trim text_before trim_end_matches is_whitespace codes
first_sentence text max_chars =
    let trimmed = trim text in
    let cut =
      unwrap_or (or_else (text_before (codes ". ") trimmed) (text_before (codes "。") trimmed))
        trimmed in
    let sentence = trim_end_matches (λ c. c == b'.') (trim cut) in
    if ltb max_chars (length sentence)
    then trim_end_matches is_whitespace (take max_chars sentence) ++ codes "…"
    else sentence

abbrev from_quote : Option Text → Option Text
from_quote none = none
from_quote (some text) = if is_occurrence_prose text then some (first_sentence text 160) else none

abbrev from_summary : Option Text → Option Text → Option Text
from_summary none other = other
from_summary (some text) other =
    if is_statement_blob text then other else some (first_sentence text 160)

unfoldable pub explorer_summary : Option Text → Option Text → Option Text
unfolding trimmed
explorer_summary quote summary = from_summary (trimmed summary) (from_quote (trimmed quote))

-- `place.filter(|p| is_human_place_label(p))`
abbrev named_place : Option Text → Option Text
named_place none = none
named_place (some p) = if is_human_place_label p then some p else none

-- `format!("{verb} in {place} ({year})")`, without a place `format!("{verb} in {year}")`.
abbrev life_line : Text → ℤ → Option Text → Text
life_line verb year none = verb ++ (codes " in " ++ show_int year)
life_line verb year (some place) =
    verb ++ (codes " in " ++ (place ++ (codes " (" ++ (show_int year ++ codes ")"))))

abbrev option_part : Option Text → List Text
option_part none = []
option_part (some s) = s ∷ []

abbrev year_text : Option ℤ → Option Text
year_text none = none
year_text (some y) = some (show_int y)

abbrev parts_line : Text → List Text → Text
parts_line person [] = []
parts_line person (p ∷ []) = person ++ (codes " · " ++ p)
parts_line person (p ∷ q ∷ ps) = join (p ∷ q ∷ ps) (codes " · ")

-- The headline without prose: the type, the year and the place.
unfoldable pub plain_headline : Text → Text → Option ℤ → Option Text → Text
unfolding codes join show_int
plain_headline person event_type year place = parts_line person (
    map (λ c. if c == b'_' then b' ' else c) event_type ∷ option_part (year_text year)
    ++ option_part (named_place place))

unfoldable pub life_headline : Text → Text → Option ℤ → Option Text → Text
unfolding plain_headline is codes
life_headline person event_type none place = plain_headline person event_type none place
life_headline person event_type (some year) place =
    if is event_type "birth"
    then life_line (codes "Born") year (named_place place)
    else if is event_type "death"
    then life_line (codes "Died") year (named_place place)
    else plain_headline person event_type (some year) place

abbrev or_prose : Option Text → Text → Text
or_prose none other = other
or_prose (some prose) other = first_sentence prose 140

unfoldable pub explorer_headline :
    Text → Text → Option ℤ → Option Text → Option Text → Option Text → Text
unfolding explorer_summary life_headline
explorer_headline person event_type year place quote summary =
    or_prose (explorer_summary quote summary) (life_headline person event_type year place)

length-trim_end : (p : ℕ → Bool) (s : Text) → length (trim_end_matches p s) ≤ length s
unfolding trim_end_matches
length-trim_end p [] = omega arith
length-trim_end p (c ∷ s) = ground (arith, length-trim_end p s)

shortened-length :
    (n : ℕ) (s : Text)
    → length
        (if ltb n (length s) then trim_end_matches is_whitespace (take n s) ++ 8230 ∷ [] else s)
      ≤ n + 1
shortened-length n s = elim (Bool-cases (ltb n (length s))) [
  | inl long ↦ rw long (
      omega (
        arith,
        length-append (trim_end_matches is_whitespace (take n s)) (8230 ∷ []),
        length-trim_end is_whitespace (take n s),
        length-take n s,
      ))
  | inr short ↦ rw short (ground arith)
]

-- A first sentence has at most one character more than it may, the ellipsis.
first_sentence-length : (text : Text) (n : ℕ) → length (first_sentence text n) ≤ n + 1
unfolding first_sentence codes
first_sentence-length text n = shortened-length n _

abbrev Short : ℕ → Option Text → Type 0
Short n none = Unit
Short n (some s) = length s ≤ n

from_quote-Short : (quote : Option Text) → Short 161 (from_quote quote)
from_quote-Short none = tt
from_quote-Short (some text) = elim (Bool-cases (is_occurrence_prose text)) [
  | inl prose ↦ rw prose (first_sentence-length text 160)
  | inr other ↦ rw other tt
]

from_summary-Short :
    (summary other : Option Text) → Short 161 other → Short 161 (from_summary summary other)
from_summary-Short none other h = h
from_summary-Short (some text) other h = elim (Bool-cases (is_statement_blob text)) [
  | inl blob ↦ rw blob h
  | inr text_of ↦ rw text_of (first_sentence-length text 160)
]

or_prose-length : (s : Option Text) (other : Text) → s ≢ none → length (or_prose s other) ≤ 141
or_prose-length none other h = absurd (h refl)
or_prose-length (some prose) other h = first_sentence-length prose 140

-- A summary of the explorer has at most 161 characters, and a headline made of it at most 141.
pub explorer_summary-Short :
    (person event_type : Text) (year : Option ℤ) (place quote summary : Option Text)
    → Short 161 (explorer_summary quote summary)
      × ((explorer_summary quote summary ≢ none)
          → length (explorer_headline person event_type year place quote summary) ≤ 141)
unfolding explorer_summary explorer_headline
explorer_summary-Short person event_type year place quote summary = (
  from_summary-Short (trimmed summary) _ (from_quote-Short (trimmed quote)),
  or_prose-length (explorer_summary quote summary) _,
)
