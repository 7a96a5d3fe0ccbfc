-- ===== src/Dates/Typed.antt =====
-- What a typed time that is read from a surface can be.
use talaria_v.Base.{
  ℕ, ◌⊎◌, inl, inr, Bool, true, false, Option, none, some, ℤ, pos, negsuc, ◌≤ℤ◌, arith, All, ◌>>=◌,
  sub_i32, add_i32, wrap32, length, is_empty, keep, ltb, ◌==◌, ◌||◌, Bool-cases, leb_ℤ, ◌&&◌,
}
use talaria_v.Text.{Text, codes, contains, is_ascii_digit, to_ascii_lowercase, trim}
use talaria_v.Text.Decimal.{parse_i32}
use talaria_v.Text.Unicode.{Unicode}
use talaria_v.Time.{TypedTime, exact, unknown}
use talaria_v.Dates.{
  months, parse_iso_ymd, parse_day_month_year, parse_calendar_date, dated, trim_dots, ParsedTime,
  parsed, year_of, parse_time_surface, parse_typed_time, typed,
}
use talaria_v.Dates.InRange.{
  Holds, GoodDate, GoodSpan, IsRecent, InNumbers, bind-Holds, always, unless-Holds,
  first_month-Holds, parse_iso_ymd-Holds,
}

-- A year of 4000 BC to 1 BC.
abbrev pub IsAncient : ℤ → Type 0
IsAncient y = (negsuc 3999 ≤ℤ y) × (y ≤ℤ negsuc 0)

-- A calendar date of the years 1000 to 2100, such a year alone, a year before Christ alone, or unknown.
abbrev pub IsReadable : TypedTime → Type 0
IsReadable (exact y none none s) = IsRecent y ⊎ IsAncient y
IsReadable (exact y (some m) (some d) s) = IsRecent y × InNumbers 1 12 m × InNumbers 1 31 d
IsReadable (unknown s) = Unit
IsReadable _ = ⊥

dated-Holds :
    (u : Unicode) (s : Text) (iso : Option (ℤ × ℕ × ℕ)) (other : Option (ℤ × ℕ × ℕ × Text))
    → Holds GoodDate iso
    → Holds GoodSpan other
    → Holds IsReadable (dated u s iso other)
dated-Holds u s (some (year, month, day)) other h k = h
dated-Holds u s none (some (year, month, day, span)) h k = k
dated-Holds u s none none h k = tt

months_in_range : All (λ entry. InNumbers 1 12 entry.1) months
unfolding months
months_in_range = ground arith

parse_day_month_year-Holds :
    (u : Unicode) (text : Text) → Holds GoodSpan (parse_day_month_year u text)
unfolding parse_day_month_year
parse_day_month_year-Holds u text = first_month-Holds (u.to_lowercase text) months months_in_range

parse_calendar_date-Holds :
    (u : Unicode) (raw : Text) → Holds IsReadable (parse_calendar_date u raw)
unfolding parse_calendar_date
parse_calendar_date-Holds u raw =
    let s = trim_dots raw in
    dated-Holds u s (parse_iso_ymd s) (parse_day_month_year u s) (parse_iso_ymd-Holds s)
      (parse_day_month_year-Holds u s)

module _ {Date : Type 0} (june_15 : ℤ → Option Date) where
  abbrev GoodParsed : ParsedTime june_15 → Type 0
  GoodParsed p = IsRecent p.year ⊎ IsAncient p.year

  parsed-Holds :
      (surface : Text) (year chrono_year : ℤ)
      → IsRecent year ⊎ IsAncient year
      → Holds GoodParsed (parsed june_15 surface year chrono_year)
  parsed-Holds surface year chrono_year h =
      bind-Holds (λ d. Unit) GoodParsed (june_15 chrono_year) _ (always (june_15 chrono_year))
        (λ d k. h)

  before_christ : (y : ℤ) → pos 1 ≤ℤ y → y ≤ℤ pos 4000 → IsAncient (sub_i32 (pos 0) y)
  unfolding sub_i32 wrap32
  before_christ y h k = ground arith

  year_of-Holds :
      (surface : Text) (is_bc : Bool) (digits : Text) (y : ℤ)
      → Holds GoodParsed (year_of june_15 surface is_bc digits y)
  year_of-Holds surface true digits y = elim (Bool-cases (leb_ℤ (pos 1) y && leb_ℤ y (pos 4000))) [
    | inl inside ↦ rw inside (
        parsed-Holds surface (sub_i32 (pos 0) y) (add_i32 (sub_i32 (pos 0) y) (pos 1))
          (inr (before_christ y (ground arith) (ground arith))))
    | inr outside ↦ rw outside tt
  ]
  year_of-Holds surface false digits y =
      elim (Bool-cases (length digits == 4 && leb_ℤ (pos 1000) y && leb_ℤ y (pos 2100))) [
        | inl inside ↦ rw inside (parsed-Holds surface y y (inl (ground arith, ground arith)))
        | inr outside ↦ rw outside tt
      ]

  parse_time_surface-Holds :
      (surface : Text) → Holds GoodParsed (parse_time_surface june_15 surface)
  unfolding parse_time_surface codes
  parse_time_surface-Holds surface =
      let trimmed = trim_dots surface in
      let lower = to_ascii_lowercase trimmed in
      let digits = keep is_ascii_digit trimmed in
      let is_bc = contains lower (codes "bc") || contains lower (codes "b.c") in
      unless-Holds GoodParsed (is_empty digits || ltb 4 (length digits))
        (parse_i32 digits >>= λ y. year_of june_15 trimmed is_bc digits y)
        (bind-Holds (λ y. Unit) GoodParsed (parse_i32 digits) _ (always (parse_i32 digits))
          (λ y h. year_of-Holds trimmed is_bc digits y))

  typed-IsReadable :
      (u : Unicode) (raw : Text) (date : Option TypedTime) (time : Option (ParsedTime june_15))
      → Holds IsReadable date
      → Holds GoodParsed time
      → IsReadable (typed june_15 u raw date time)
  typed-IsReadable u raw (some t) time h k = h
  typed-IsReadable u raw none (some p) h k = k
  typed-IsReadable u raw none none h k = tt

  -- Whatever the surface, a typed time read from it is unknown, or a day of a month within 1 to 12 and
  -- 1 to 31 in a year from 1000 to 2100, or such a year alone, or a year of 4000 BC to 1 BC alone; never
  -- a month without a day, a range or an approximation.
  pub parse_typed_time-IsReadable :
      (u : Unicode) (surface : Option Text) → IsReadable (parse_typed_time june_15 u surface)
  unfolding parse_typed_time
  parse_typed_time-IsReadable u none = tt
  parse_typed_time-IsReadable u (some surface) = elim (Bool-cases (is_empty (trim surface))) [
    | inl blank ↦ rw blank tt
    | inr given ↦ rw given (
        typed-IsReadable u (trim surface) (parse_calendar_date u (trim surface))
          (parse_time_surface june_15 (trim surface)) (parse_calendar_date-Holds u (trim surface))
          (parse_time_surface-Holds (trim surface)))
  ]
