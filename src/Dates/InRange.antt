-- ===== src/Dates/InRange.antt =====
-- The parts of a date that the parsers of calendar dates answer are in range.
use talaria_v.Base.{
  ℕ, zero, suc, ◌≤◌, inl, inr, Bool, true, false, List, [], ◌∷◌, ◌++◌, Option, none, some, ℤ, pos,
  ◌≤ℤ◌, arith, Bool-cases, All, ◌>>=◌, if◌then◌else◌, length, drop, ◌-◌, not, leb_ℤ, leb, ◌&&◌,
  ◌||◌, keep, take, ◌==◌,
}
use talaria_v.Text.{
  Text, starts_with, is_ascii_digit, split, trim_start_matches, trim_end_matches, is_whitespace,
  byte_len,
}
use talaria_v.Text.Bytes.{take_bytes, drop_bytes, char_at}
use talaria_v.Text.Decimal.{parse_i32, parse_u32, show_nat, show_int}
use talaria_v.Dates.{
  in_years, in_numbers, leading_year, trailing_day, month_boundaries, day_and_year, search_month,
  first_month, parse_iso_ymd, in_ranges, last_run, comma_or_space, is_dash,
}

-- An answer, if there is one, has the property.
abbrev pub Holds : {A : Type 0} → (A → Type 0) → Option A → Type 0
Holds P none = Unit
Holds P (some a) = P a

pub bind-Holds :
    {A B : Type 0} (P : A → Type 0) (Q : B → Type 0) (o : Option A) (f : A → Option B)
    → Holds P o
    → ((a : A) → P a → Holds Q (f a))
    → Holds Q (o >>= f)
bind-Holds P Q none f h k = tt
bind-Holds P Q (some a) f h k = k a h

pub always : {A : Type 0} (o : Option A) → Holds (λ a. Unit) o
always none = tt
always (some a) = tt

pub unless-Holds :
    {A : Type 0} (P : A → Type 0) (b : Bool) (o : Option A)
    → Holds P o
    → Holds P (if b then none else o)
unless-Holds P true o h = tt
unless-Holds P false o h = h

-- The years of a calendar date, and the numbers of months and days.
abbrev pub IsRecent : ℤ → Type 0
IsRecent y = (pos 1000 ≤ℤ y) × (y ≤ℤ pos 2100)

abbrev pub InNumbers : ℕ → ℕ → ℕ → Type 0
InNumbers low high n = (low ≤ n) × (n ≤ high)

in_years-Holds :
    (low high : ℕ) (y : ℤ) → Holds (λ z. (pos low ≤ℤ z) × (z ≤ℤ pos high)) (in_years low high y)
in_years-Holds low high y = elim (Bool-cases (leb_ℤ (pos low) y && leb_ℤ y (pos high))) [
  | inl inside ↦ rw inside (ground arith, ground arith)
  | inr outside ↦ rw outside tt
]

in_numbers-Holds : (low high n : ℕ) → Holds (InNumbers low high) (in_numbers low high n)
in_numbers-Holds low high n = elim (Bool-cases (leb low n && leb n high)) [
  | inl inside ↦ rw inside (ground arith, ground arith)
  | inr outside ↦ rw outside tt
]

-- A year is read and checked, or a number is.
read_year-Holds : (o : Option ℤ) → Holds IsRecent (o >>= in_years 1000 2100)
read_year-Holds none = tt
read_year-Holds (some y) = in_years-Holds 1000 2100 y

read_number-Holds :
    {A : Type 0} (low high : ℕ) (o : Option A) (f : A → Option ℕ)
    → Holds (InNumbers low high) (o >>= λ a. f a >>= in_numbers low high)
read_number-Holds low high none f = tt
read_number-Holds low high (some a) f =
    bind-Holds (λ n. Unit) (InNumbers low high) (f a) (in_numbers low high) (always (f a))
      (λ n h. in_numbers-Holds low high n)

leading_year-Holds : (s : Text) → Holds IsRecent (leading_year s)
unfolding leading_year
leading_year-Holds s =
    let digits = keep is_ascii_digit (take 4 s) in
    unless-Holds IsRecent (not (length digits == 4)) (parse_i32 digits >>= in_years 1000 2100)
      (read_year-Holds (parse_i32 digits))

trailing_day-Holds : (before : Text) → Holds (InNumbers 1 31) (trailing_day before)
unfolding trailing_day
trailing_day-Holds before =
    read_number-Holds 1 31 (last_run none (split (λ c. not (is_ascii_digit c)) before)) parse_u32

abbrev GoodDay : ℤ × ℕ → Type 0
GoodDay (y, d) = IsRecent y × InNumbers 1 31 d

pair-Holds :
    (years : Option ℤ) (days : Option ℕ)
    → Holds IsRecent years
    → Holds (InNumbers 1 31) days
    → Holds GoodDay (years >>= λ y. days >>= λ d. some (y, d))
pair-Holds none days h k = tt
pair-Holds (some y) none h k = tt
pair-Holds (some y) (some d) h k = (h, k)

day_and_year-Holds : (before behind : Text) → Holds GoodDay (day_and_year before behind)
unfolding day_and_year
day_and_year-Holds before behind =
    let years = leading_year (trim_start_matches comma_or_space behind) in
    let days = trailing_day (trim_end_matches is_whitespace before) in
    unless-Holds GoodDay (not (month_boundaries before behind))
      (years >>= λ y. days >>= λ d. some (y, d))
      (pair-Holds years days (leading_year-Holds (trim_start_matches comma_or_space behind))
        (trailing_day-Holds (trim_end_matches is_whitespace before)))

or-Holds :
    {A : Type 0} (P : A → Type 0) (o other : Option A)
    → Holds P o
    → Holds P other
    → Holds P (elim o [ none ↦ other | some found ↦ some found ])
or-Holds P none other h k = k
or-Holds P (some a) other h k = h

choose-Holds :
    {A : Type 0} (P : A → Type 0) (b : Bool) (o other : Option A)
    → Holds P o
    → Holds P other
    → Holds P (if b then o else other)
choose-Holds P true o other h k = h
choose-Holds P false o other h k = k

search_month-Holds :
    (name : Text) (skip : ℕ) (before s : Text) → Holds GoodDay (search_month name skip before s)
unfolding search_month
search_month-Holds name skip before [] = tt
search_month-Holds name (suc skip) before (c ∷ s) =
    search_month-Holds name skip (before ++ c ∷ []) s
search_month-Holds name zero before (c ∷ s) =
    let found = day_and_year before (drop (length name) (c ∷ s)) in
    let behind = search_month name (length name - 1) (before ++ c ∷ []) s in
    choose-Holds GoodDay (starts_with (c ∷ s) name)
      (elim found [ none ↦ behind | some day ↦ some day ])
      (search_month name zero (before ++ c ∷ []) s)
      (or-Holds GoodDay found behind (day_and_year-Holds before (drop (length name) (c ∷ s)))
        (search_month-Holds name (length name - 1) (before ++ c ∷ []) s))
      (search_month-Holds name zero (before ++ c ∷ []) s)

-- The month is one of the year, too.
abbrev pub GoodDate : ℤ × ℕ × ℕ → Type 0
GoodDate (y, m, d) = IsRecent y × InNumbers 1 12 m × InNumbers 1 31 d

abbrev pub GoodSpan : ℤ × ℕ × ℕ × Text → Type 0
GoodSpan (y, m, d, span) = IsRecent y × InNumbers 1 12 m × InNumbers 1 31 d

month-Holds :
    (name : Text) (m : ℕ) (found : Option (ℤ × ℕ)) (later : Option (ℤ × ℕ × ℕ × Text))
    → InNumbers 1 12 m
    → Holds GoodDay found
    → Holds GoodSpan later
    → Holds GoodSpan (elim found [
      | none ↦ later
      | some (year, day) ↦
          some (year, m, day, show_nat day ++ b' ' ∷ (name ++ b' ' ∷ show_int year))
    ])
month-Holds name m none later hm h k = k
month-Holds name m (some (year, day)) later hm h k = (h.0, hm, h.1)

pub first_month-Holds :
    (lower : Text) (table : List (Text × ℕ))
    → All (λ entry. InNumbers 1 12 entry.1) table
    → Holds GoodSpan (first_month lower table)
unfolding first_month
first_month-Holds lower [] h = tt
first_month-Holds lower ((name, month) ∷ rest) h =
    month-Holds name month (search_month name 0 [] lower) (first_month lower rest) h.0
      (search_month-Holds name 0 [] lower) (first_month-Holds lower rest h.1)

in_ranges-Holds : (y : ℤ) (m d : ℕ) → Holds GoodDate (in_ranges y m d)
in_ranges-Holds y m d =
    bind-Holds IsRecent GoodDate (in_years 1000 2100 y) _ (in_years-Holds 1000 2100 y) (λ y' hy.
      bind-Holds (InNumbers 1 12) GoodDate (in_numbers 1 12 m) _ (in_numbers-Holds 1 12 m) (λ m' hm.
        bind-Holds (InNumbers 1 31) GoodDate (in_numbers 1 31 d) _ (in_numbers-Holds 1 31 d)
          (λ d' hd. (hy, hm, hd))))

read_date-Holds :
    (years : Option ℤ) (ms ds : Option ℕ)
    → Holds GoodDate (years >>= λ y. ms >>= λ m. ds >>= λ d. in_ranges y m d)
read_date-Holds none ms ds = tt
read_date-Holds (some y) none ds = tt
read_date-Holds (some y) (some m) none = tt
read_date-Holds (some y) (some m) (some d) = in_ranges-Holds y m d

pub parse_iso_ymd-Holds : (s : Text) → Holds GoodDate (parse_iso_ymd s)
unfolding parse_iso_ymd
parse_iso_ymd-Holds s =
    let years = parse_i32 (take_bytes 4 s) in
    let ms = parse_u32 (take_bytes 2 (drop_bytes 5 s)) in
    let ds = parse_u32 (take_bytes 2 (drop_bytes 8 s)) in
    unless-Holds GoodDate
      (not (byte_len s == 10) || not (is_dash (char_at s 4)) || not (is_dash (char_at s 7)))
      (years >>= λ y. ms >>= λ m. ds >>= λ d. in_ranges y m d) (read_date-Holds years ms ds)
