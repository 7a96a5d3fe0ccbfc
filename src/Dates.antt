-- ===== src/Dates.antt =====
-- Dates read from their surfaces: `parse_typed_time` of crates/talaria-quality/src/time_typed.rs and
-- `parse_time_surface` of crates/talaria-judge/src/time.rs. The date at midnight that the crate chrono
-- makes of 15 June of a year is the parameter `june_15`. The search for a month is a recursion on the
-- text, with the characters before it.
pub mod InRange
pub mod Typed
mod Tests
use talaria_v.Base.{
  ℕ, zero, suc, leb, Bool, true, false, not, ◌&&◌, ◌||◌, List, [], ◌∷◌, ◌++◌, Option, none, some, ℤ,
  pos, negsuc, ◌==◌, leb_ℤ, ltb, ◌-◌, sub_i32, add_i32, if◌then◌else◌, is_empty, keep, length, take,
  drop, first, String, ◌>>=◌,
}
use talaria_v.Text.{
  Text, codes, is_ascii_digit, is_ascii_alphabetic, is_whitespace, contains, starts_with, split,
  trim, trim_start_matches, trim_end_matches, to_ascii_lowercase, byte_len,
}
use talaria_v.Text.Bytes.{char_at, take_bytes, drop_bytes}
use talaria_v.Text.Decimal.{parse_i32, parse_u32, show_nat, show_int}
use talaria_v.Text.Unicode.{Unicode}
use talaria_v.Time.{TypedTime, exact, unknown}

-- `MONTHS`
unfoldable pub months : List (Text × ℕ)
unfolding codes
months =
    (codes "january", 1)
    ∷ (codes "february", 2)
    ∷ (codes "march", 3)
    ∷ (codes "april", 4)
    ∷ (codes "may", 5)
    ∷ (codes "june", 6)
    ∷ (codes "july", 7)
    ∷ (codes "august", 8)
    ∷ (codes "september", 9)
    ∷ (codes "october", 10)
    ∷ (codes "november", 11)
    ∷ (codes "december", 12)
    ∷ (codes "jan", 1)
    ∷ (codes "feb", 2)
    ∷ (codes "mar", 3)
    ∷ (codes "apr", 4)
    ∷ (codes "jun", 6)
    ∷ (codes "jul", 7)
    ∷ (codes "aug", 8)
    ∷ (codes "sep", 9)
    ∷ (codes "sept", 9)
    ∷ (codes "oct", 10)
    ∷ (codes "nov", 11)
    ∷ (codes "dec", 12)
    ∷ []

-- `(low..=high).contains(&x).then_some(x)`
abbrev pub in_years : ℕ → ℕ → ℤ → Option ℤ
in_years low high y = if leb_ℤ (pos low) y && leb_ℤ y (pos high) then some y else none

abbrev pub in_numbers : ℕ → ℕ → ℕ → Option ℕ
in_numbers low high n = if leb low n && leb n high then some n else none

unfoldable pub leading_year : Text → Option ℤ
unfolding is_ascii_digit parse_i32
leading_year s =
    let digits = keep is_ascii_digit (take 4 s) in
    if not (length digits == 4) then none else parse_i32 digits >>= in_years 1000 2100

-- `rsplit(…).find(|s| !s.is_empty())`
abbrev last_run : Option Text → List Text → Option Text
last_run found [] = found
last_run found (w ∷ ws) = last_run (if is_empty w then found else some w) ws

unfoldable pub trailing_day : Text → Option ℕ
unfolding split is_ascii_digit parse_u32
trailing_day before = last_run none (split (λ c. not (is_ascii_digit c)) before) >>= λ tok.
    parse_u32 tok >>= in_numbers 1 31

abbrev no_letter : Option ℕ → Bool
no_letter none = true
no_letter (some c) = not (is_ascii_alphabetic c)

abbrev last_char : Option ℕ → Text → Option ℕ
last_char found [] = found
last_char found (c ∷ s) = last_char (some c) s

-- `month_boundaries`, of the texts before and behind the name.
unfoldable pub month_boundaries : Text → Text → Bool
unfolding is_ascii_alphabetic
month_boundaries before behind = no_letter (last_char none before) && no_letter (first behind)

abbrev comma_or_space : ℕ → Bool
comma_or_space c = c == b',' || c == b' '

-- The year and the day around the name of a month.
unfoldable pub day_and_year : Text → Text → Option (ℤ × ℕ)
unfolding month_boundaries leading_year trailing_day trim_start_matches trim_end_matches
    is_whitespace
day_and_year before behind =
    if not (month_boundaries before behind)
    then none
    else leading_year (trim_start_matches comma_or_space behind) >>= λ year.
        trailing_day (trim_end_matches is_whitespace before) >>= λ day. some (year, day)

-- The occurrences of the name from left to right, none of which overlaps the one before it: `skip`
-- characters are still of that one.
unfoldable pub search_month : Text → ℕ → Text → Text → Option (ℤ × ℕ)
unfolding day_and_year starts_with
search_month name skip before [] = none
search_month name (suc skip) before (c ∷ s) = search_month name skip (before ++ c ∷ []) s
search_month name zero before (c ∷ s) =
    let miss = search_month name zero (before ++ c ∷ []) s in
    let behind = search_month name (length name - 1) (before ++ c ∷ []) s in
    if starts_with (c ∷ s) name
    then elim (day_and_year before (drop (length name) (c ∷ s))) [
      | none ↦ behind
      | some found ↦ some found
    ]
    else miss

-- The first month of the table around which a day and a year stand.
unfoldable pub first_month : Text → List (Text × ℕ) → Option (ℤ × ℕ × ℕ × Text)
unfolding search_month show_nat show_int
first_month lower [] = none
first_month lower ((name, month) ∷ rest) =
    let later = first_month lower rest in
    elim (search_month name 0 [] lower) [
      | none ↦ later
      | some (year, day) ↦
          some (year, month, day, show_nat day ++ b' ' ∷ (name ++ b' ' ∷ show_int year))
    ]

-- A year, a month and a day within their ranges.
abbrev in_ranges : ℤ → ℕ → ℕ → Option (ℤ × ℕ × ℕ)
in_ranges year month day = in_years 1000 2100 year >>= λ y.
    in_numbers 1 12 month >>= λ m. in_numbers 1 31 day >>= λ d. some (y, m, d)

abbrev is_dash : Option ℕ → Bool
is_dash none = false
is_dash (some c) = c == b'-'

unfoldable pub parse_iso_ymd : Text → Option (ℤ × ℕ × ℕ)
unfolding byte_len char_at take_bytes drop_bytes parse_i32 parse_u32
parse_iso_ymd s =
    if not (byte_len s == 10) || not (is_dash (char_at s 4)) || not (is_dash (char_at s 7))
    then none
    else parse_i32 (take_bytes 4 s) >>= λ year.
        parse_u32 (take_bytes 2 (drop_bytes 5 s)) >>= λ month.
        parse_u32 (take_bytes 2 (drop_bytes 8 s)) >>= λ day. in_ranges year month day

abbrev trim_dots : Text → Text
trim_dots s = trim_end_matches (λ c. c == b'.') (trim s)

module _ (u : Unicode) where
  unfoldable pub parse_day_month_year : Text → Option (ℤ × ℕ × ℕ × Text)
  unfolding first_month months
  parse_day_month_year text = first_month (u.to_lowercase text) months

  abbrev dated : Text → Option (ℤ × ℕ × ℕ) → Option (ℤ × ℕ × ℕ × Text) → Option TypedTime
  dated s (some (year, month, day)) other = some (exact year (some month) (some day) (some s))
  dated s none (some (year, month, day, span)) = some (exact year (some month) (some day) (some s))
  dated s none none = none

  unfoldable pub parse_calendar_date : Text → Option TypedTime
  unfolding parse_iso_ymd parse_day_month_year trim trim_end_matches
  parse_calendar_date raw =
      let trimmed = trim_dots raw in
      dated trimmed (parse_iso_ymd trimmed) (parse_day_month_year trimmed)

module _ {Date : Type 0} (june_15 : ℤ → Option Date) where
  pub record ParsedTime : Type 0 where
    pub surface : Text
    pub precision : Text
    pub year : ℤ
    pub start : Date

  -- The parsed year with the date that stands for it, if there is one.
  abbrev parsed : Text → ℤ → ℤ → Option ParsedTime
  parsed surface year chrono_year = june_15 chrono_year >>= λ start.
      some record { surface = surface; precision = codes "year"; year = year; start = start }

  -- What the digits of a surface denote, before or after Christ.
  abbrev year_of : Text → Bool → Text → ℤ → Option ParsedTime
  year_of surface is_bc digits y =
      if is_bc
      then (if leb_ℤ (pos 1) y && leb_ℤ y (pos 4000)
          then parsed surface (sub_i32 (pos 0) y) (add_i32 (sub_i32 (pos 0) y) (pos 1))
          else none)
      else if length digits == 4 && leb_ℤ (pos 1000) y && leb_ℤ y (pos 2100)
      then parsed surface y y
      else none

  unfoldable pub parse_time_surface : Text → Option ParsedTime
  unfolding trim trim_end_matches to_ascii_lowercase contains codes is_ascii_digit parse_i32 sub_i32
      add_i32
  parse_time_surface surface =
      let trimmed = trim_dots surface in
      let lower = to_ascii_lowercase trimmed in
      let digits = keep is_ascii_digit trimmed in
      if is_empty digits || ltb 4 (length digits)
      then none
      else parse_i32 digits >>= λ abs_year.
          year_of trimmed (contains lower (codes "bc") || contains lower (codes "b.c")) digits
            abs_year

  module _ (u : Unicode) where
    abbrev typed : Text → Option TypedTime → Option ParsedTime → TypedTime
    typed raw (some t) other = t
    typed raw none (some p) = exact p.year none none (some p.surface)
    typed raw none none = unknown (some raw)

    unfoldable pub parse_typed_time : Option Text → TypedTime
    unfolding trim parse_calendar_date parse_time_surface
    parse_typed_time none = unknown none
    parse_typed_time (some surface) =
        let raw = trim surface in
        if is_empty raw
        then unknown none
        else typed raw (parse_calendar_date u raw) (parse_time_surface raw)
