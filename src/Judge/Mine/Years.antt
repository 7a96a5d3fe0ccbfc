-- ===== src/Judge/Mine/Years.antt =====
-- The years that a sentence names: `extract_years` and `find_year_in_window`.
use talaria_v.Base.{
  Bool, ◌&&◌, ◌||◌, List, [], ◌∷◌, ◌++◌, Option, none, some, ltb, ◌==◌, if◌then◌else◌, length, ℤ,
  pos, leb_ℤ, sub_i32,
}
use talaria_v.Text.{Text, codes, starts_with, trim_start_matches, is_whitespace, is_ascii_digit}
use talaria_v.Text.Decimal.{parse_i32, show_int}

pub record FoundYear : Type 0 where
  pub year : ℤ
  pub surface : Text

unfoldable pub begins_with_bc : Text → Bool
unfolding starts_with codes
begins_with_bc rest =
    starts_with rest (codes "bc")
    || starts_with rest (codes "b.c")
    || starts_with rest (codes "bce")
    || starts_with rest (codes "b.c.e")

-- What a run of digits denotes, by what stands behind it. Four digits from 1000 on are printed as they
-- are by `{:04}`.
abbrev denoted : Text → Text → Option ℤ → List FoundYear
denoted digits behind none = []
denoted digits behind (some abs_year) =
    if begins_with_bc (trim_start_matches is_whitespace behind)
    then (if leb_ℤ (pos 1) abs_year && leb_ℤ abs_year (pos 4000)
        then record { year = sub_i32 (pos 0) abs_year; surface = show_int abs_year ++ codes " BC" }
          ∷ []
        else [])
    else if length digits == 4 && leb_ℤ (pos 1000) abs_year && leb_ℤ abs_year (pos 2100)
    then record { year = abs_year; surface = show_int abs_year } ∷ []
    else []

unfoldable pub year_at : Text → Text → List FoundYear
unfolding begins_with_bc trim_start_matches is_whitespace parse_i32 show_int sub_i32 codes
year_at [] behind = []
year_at (d ∷ digits) behind =
    if ltb 4 (length (d ∷ digits)) then [] else denoted (d ∷ digits) behind (parse_i32 (d ∷ digits))

-- The loop over the text, with the digits read so far.
unfoldable pub years_from : Text → Text → List FoundYear
unfolding is_ascii_digit year_at
years_from digits [] = year_at digits []
years_from digits (c ∷ s) =
    let longer = years_from (digits ++ c ∷ []) s in
    let ended = year_at digits (c ∷ s) ++ years_from [] s in
    if is_ascii_digit c then longer else ended

unfoldable pub extract_years : Text → List FoundYear
unfolding years_from
extract_years lower = years_from [] lower

-- The last year within the window.
unfoldable pub last_within : ℤ → ℤ → Option FoundYear → List FoundYear → Option FoundYear
last_within min_year max_year last [] = last
last_within min_year max_year last (found ∷ more) =
    last_within min_year max_year
      (if leb_ℤ min_year found.year && leb_ℤ found.year max_year then some found else last) more

unfoldable pub find_year_in_window : Text → ℤ → ℤ → Option FoundYear
unfolding extract_years last_within
find_year_in_window lower min_year max_year =
    last_within min_year max_year none (extract_years lower)
